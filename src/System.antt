-- ===== src/System.antt =====
-- internal/interfaces/cli/wiring.go hands the .env store and the other adapters to the rotation: the
-- ports of the use case over a disk, which the other adapters may read and change as well.
pub mod Contract
pub mod Beside
pub mod OnDisk
use secret_rotator.Prelude.{List, [], Option, none, some}
use secret_rotator.Prelude.Int.{ℤ}
use secret_rotator.Prelude.Result.{Result, ok, err}
use secret_rotator.Prelude.Text.{Text}
use secret_rotator.Domain.Kind.{Kind}
use secret_rotator.Domain.Target.{Target, Credential}
use secret_rotator.Domain.Rotation.{Step, Record}
use secret_rotator.Envstore.Disk.{StoredFile, Disk}
use secret_rotator.Envstore.File.{parse, set_key, render}
use secret_rotator.Envstore.Store.{StoreError, StoreCall, open_env, write, restore}
use secret_rotator.Application.Ports.{Call, Rotator, Cause, Ports}
use secret_rotator.Application.Files.{FileView}

pub data SystemError (E : Type 0) : Type 0 where
  in_store : StoreError → SystemError E
  in_port : E → SystemError E

-- The adapters other than the store, on a state `S`.
pub record Outside (S E : Type 0) : Type 0 where
  pub rotator_for : Kind → Result E (Rotator S E)
  pub resolve : List Text → Call S E (List Text)
  pub restart : List Text → Call S E (Unit {0})
  pub now : S → ℤ × S
  pub generate : ℤ → Call S E Credential
  pub record_audit : Record (Cause (SystemError E)) → Call S E (Unit {0})
  pub report_step : Step → S → S
  pub report_warn : S → S

abbrev pub in_system : {S E A : Type 0} → Result E A × S → Result (SystemError E) A × S
in_system (ok a, s) = (ok a, s)
in_system (err e, s) = (err (in_port e), s)

module _ {W E : Type 0} where
  -- A call of another adapter, which gets the disk too.
  abbrev pub outside : {A : Type 0} → Call (Disk × W) E A → Call (Disk × W) (SystemError E) A
  outside call s = in_system (call s)

  abbrev pub stored :
      {A : Type 0} → W → Result StoreError A × Disk → Result (SystemError E) A × (Disk × W)
  stored w (ok a, d) = (ok a, (d, w))
  stored w (err e, d) = (err (in_store e), (d, w))

  abbrev pub on_disk : {A : Type 0} → StoreCall A → Call (Disk × W) (SystemError E) A
  on_disk call (d, w) = stored w (call d)

  abbrev pub rotator_outside : Rotator (Disk × W) E → Rotator (Disk × W) (SystemError E)
  rotator_outside r = record {
    apply = λ t next. outside (r.apply t next);
    verify = λ t next. outside (r.verify t next);
    restore = λ t previous current. outside (r.restore t previous current);
  }

  abbrev pub registered :
      Result E (Rotator (Disk × W) E) → Result (SystemError E) (Rotator (Disk × W) (SystemError E))
  registered (ok r) = ok (rotator_outside r)
  registered (err e) = err (in_port e)

  abbrev pub ports : Outside (Disk × W) E → Ports
  ports o = record {
    World = Disk × W;
    Error = SystemError E;
    rotator_for = λ k. registered (o.rotator_for k);
    resolve = λ refs. outside (o.resolve refs);
    restart = λ refs. outside (o.restart refs);
    now = o.now;
    open_env = λ path. on_disk (open_env path);
    write_env = λ path key value. on_disk (write path key value);
    restore_env = λ path snapshot. on_disk (restore path (some snapshot));
    generate = λ n. outside (o.generate n);
    record_audit = λ entry. outside (o.record_audit entry);
    report_step = o.report_step;
    report_warn = o.report_warn;
  }

abbrev pub contents_of : Option StoredFile → Option Text
contents_of none = none
contents_of (some f) = some f.contents

-- A file's text with one key set.
unfoldable pub updated_text : Text → Credential → Text → Text
updated_text key value before = render (set_key (parse [] before) key value)
