-- ===== src/Application/Ports.antt =====
-- internal/domain/ports.go: what the use cases call. The ports act on one `World`, and every call
-- may change it; a call that fails returns an `Error` of the adapter's.
use secret_rotator.Prelude.{List}
use secret_rotator.Prelude.Int.{ℤ}
use secret_rotator.Prelude.Result.{Result}
use secret_rotator.Prelude.Text.{Text}
use secret_rotator.Domain.Kind.{Kind}
use secret_rotator.Domain.Target.{Target, Credential}
use secret_rotator.Domain.Rotation.{Step, Record}
use secret_rotator.Domain.Inspection.{Document}

-- A call: its result, and the world that it leaves.
abbrev pub Call : Type 0 → Type 0 → Type 0 → Type 0
Call W E A = W → Result E A × W

pub record Rotator (W E : Type 0) : Type 0 where
  pub apply : Target → Credential → Call W E (Unit {0})
  pub verify : Target → Credential → Call W E (Unit {0})
  -- The previous credential, then the current one.
  pub restore : Target → Credential → Credential → Call W E (Unit {0})

-- The error that ends the pipeline behind `RecordGenerated`, or the generation itself.
pub data Cause (E : Type 0) : Type 0 where
  generating : E → Cause E
  applying : E → Cause E
  verifying : E → Cause E
  writing : Text → E → Cause E
  restarting : E → Cause E

pub record Ports : Type 1 where
  pub World : Type 0
  pub Error : Type 0
  -- RotatorRegistry.For
  pub rotator_for : Kind → Result Error (Rotator World Error)
  -- ContainerFleet
  pub resolve : List Text → Call World Error (List Text)
  pub restart : List Text → Call World Error (Unit {0})
  -- Clock.Now
  pub now : World → ℤ × World
  -- EnvStore
  pub open_env : Text → Call World Error Document
  pub write_env : Text → Text → Credential → Call World Error Text
  pub restore_env : Text → Text → Call World Error (Unit {0})
  -- PasswordGenerator
  pub generate : ℤ → Call World Error Credential
  -- AuditTrail.Record
  pub record_audit : Record (Cause Error) → Call World Error (Unit {0})
  -- Reporter, without the messages
  pub report_step : Step → World → World
  pub report_warn : World → World
