-- ===== src/Application/Files.antt =====
-- What the rotation relies on of its ports, as far as the .env files go: the store's writes and
-- restores, and that no other port touches the files.
use secret_rotator.Prelude.{◌≡◌, Bool, true, List, Option, some, if◌then◌else◌}
use secret_rotator.Prelude.Int.{ℤ}
use secret_rotator.Prelude.Result.{Result, ok, err}
use secret_rotator.Prelude.Text.{Text, eq_text}
use secret_rotator.Domain.Kind.{Kind}
use secret_rotator.Domain.Target.{Target, Credential}
use secret_rotator.Domain.Rotation.{Step, Record}
use secret_rotator.Domain.Inspection.{Document}
use secret_rotator.Application.Ports.{Cause, Ports, Rotator}

-- The contents of the files, and what a write makes of a file's contents.
pub record FileView (p : Ports) : Type 0 where
  pub view : p.World → Text → Option Text
  pub updated : Text → Credential → Text → Text
  -- Whether a file's contents hold a key.
  pub has_key : Text → Text → Bool

module _ (p : Ports) (v : FileView p) where
  open p use {World, Error}
  open v use {view, updated, has_key}

  -- The files of two worlds are the same.
  abbrev pub SameFiles : World → World → Type 0
  SameFiles w w' = (q : Text) → view w' q ≡ view w q

  -- The file `path` has changed to `contents`, and no other.
  abbrev pub Changed : Text → Text → World → World → Type 0
  Changed path contents w w' =
      (q : Text) → view w' q ≡ (if eq_text path q then some contents else view w q)

  -- A write that fails changes no file; one that succeeds returns what the file held, the key among
  -- it, and changes that file alone.
  abbrev pub Wrote : Text → Text → Credential → World → Result Error Text × World → Type 0
  Wrote path key value w (err e, w') = SameFiles w w'
  Wrote path key value w (ok before, w') =
      (view w path ≡ some before)
      × (has_key key before ≡ true)
      × Changed path (updated key value before) w w'

  abbrev pub Restored : Text → Text → World → Result Error (Unit {0}) × World → Type 0
  Restored path snapshot w (err e, w') = SameFiles w w'
  Restored path snapshot w (ok _, w') = Changed path snapshot w w'

  -- A document that was opened has the file's contents for its snapshot.
  abbrev pub Opened : Text → World → Result Error Document × World → Type 0
  Opened path w (err e, w') = SameFiles w w'
  Opened path w (ok doc, w') = (view w path ≡ some doc.snapshot) × SameFiles w w'

  -- The contract of the EnvStore port.
  pub record StoreLaws : Type 0 where
    pub write_law :
        (path key : Text) (value : Credential) (w : World)
        → Wrote path key value w (p.write_env path key value w)
    pub restore_law :
        (path snapshot : Text) (w : World)
        → Restored path snapshot w (p.restore_env path snapshot w)
    pub open_law : (path : Text) (w : World) → Opened path w (p.open_env path w)

  pub record RotatorFrame (r : Rotator World Error) : Type 0 where
    pub apply_frame :
        (t : Target) (next : Credential) (w : World) → SameFiles w (r.apply t next w).1
    pub verify_frame :
        (t : Target) (next : Credential) (w : World) → SameFiles w (r.verify t next w).1
    pub restore_frame :
        (t : Target) (previous current : Credential) (w : World)
        → SameFiles w (r.restore t previous current w).1

  -- The other ports leave the files alone.
  pub record Frames : Type 0 where
    pub rotator_frame :
        (k : Kind) (r : Rotator World Error) → p.rotator_for k ≡ ok r → RotatorFrame r
    pub resolve_frame : (refs : List Text) (w : World) → SameFiles w (p.resolve refs w).1
    pub restart_frame : (refs : List Text) (w : World) → SameFiles w (p.restart refs w).1
    pub now_frame : (w : World) → SameFiles w (p.now w).1
    pub generate_frame : (n : ℤ) (w : World) → SameFiles w (p.generate n w).1
    pub audit_frame :
        (entry : Record (Cause Error)) (w : World) → SameFiles w (p.record_audit entry w).1
    pub step_frame : (s : Step) (w : World) → SameFiles w (p.report_step s w)
    pub warn_frame : (w : World) → SameFiles w (p.report_warn w)
