-- ===== src/Envstore/Store.antt =====
-- writeAtomic (envstore/writer.go) and the Store (envstore/store.go).
pub mod Replace
pub mod Completes
use secret_rotator.Prelude.{ℕ, Bool, true, false, Option, none, some}
use secret_rotator.Prelude.Result.{Result, ok, err}
use secret_rotator.Prelude.Text.{Text}
use secret_rotator.Domain.Target.{Credential}
use secret_rotator.Domain.Inspection.{Document}
use secret_rotator.Envstore.File.{EnvFile, parse, get, keys, set_key, render}
use secret_rotator.Envstore.Disk.{
  OsError, Disk, read_file, stat_mode, create_temp, write_file, flush, chmod, rename, remove,
}

pub data StoreError : Type 0 where
  reading : OsError → StoreError
  stating : Text → OsError → StoreError
  creating_temp : OsError → StoreError
  writing_temp : OsError → StoreError
  syncing_temp : OsError → StoreError
  closing_temp : OsError → StoreError
  chmod_temp : OsError → StoreError
  renaming : Text → Text → OsError → StoreError
  key_missing : Text → Text → StoreError
  no_snapshot : Text → StoreError

abbrev pub StoreCall : Type 0 → Type 0
StoreCall A = Disk → Result StoreError A × Disk

-- The calls of `writeAtomic`, each with what comes behind it; an error returns at once.
abbrev pub after_rename :
    Text → Text → Result OsError (Unit {0}) × Disk → Result StoreError (Unit {0}) × Disk
after_rename path tmp (err e, d) = (err (StoreError.renaming tmp path e), d)
after_rename path tmp (ok _, d) = (ok tt, d)

abbrev pub after_chmod :
    Text → Text → Result OsError (Unit {0}) × Disk → Result StoreError (Unit {0}) × Disk
after_chmod path tmp (err e, d) = (err (StoreError.chmod_temp e), d)
after_chmod path tmp (ok _, d) = after_rename path tmp (rename tmp path d)

abbrev pub after_close :
    Text → ℕ → Text → Result OsError (Unit {0}) × Disk → Result StoreError (Unit {0}) × Disk
after_close path mode tmp (err e, d) = (err (StoreError.closing_temp e), d)
after_close path mode tmp (ok _, d) = after_chmod path tmp (chmod tmp mode d)

abbrev pub after_sync :
    Text → ℕ → Text → Result OsError (Unit {0}) × Disk → Result StoreError (Unit {0}) × Disk
after_sync path mode tmp (err e, d) = (err (StoreError.syncing_temp e), (flush d).1)
after_sync path mode tmp (ok _, d) = after_close path mode tmp (flush d)

abbrev pub after_write :
    Text → ℕ → Text → Result OsError (Unit {0}) × Disk → Result StoreError (Unit {0}) × Disk
after_write path mode tmp (err e, d) = (err (StoreError.writing_temp e), (flush d).1)
after_write path mode tmp (ok _, d) = after_sync path mode tmp (flush d)

-- The deferred removal runs whatever the calls behind CreateTemp return.
abbrev pub cleaned :
    Text → Result StoreError (Unit {0}) × Disk → Result StoreError (Unit {0}) × Disk
cleaned tmp (r, d) = (r, remove tmp d)

abbrev pub after_create :
    Text → Text → ℕ → Result OsError Text × Disk → Result StoreError (Unit {0}) × Disk
after_create path bytes mode (err e, d) = (err (StoreError.creating_temp e), d)
after_create path bytes mode (ok tmp, d) =
    cleaned tmp (after_write path mode tmp (write_file tmp bytes d))

abbrev pub after_stat : Text → Text → Result OsError ℕ × Disk → Result StoreError (Unit {0}) × Disk
after_stat path bytes (err e, d) = (err (StoreError.stating path e), d)
after_stat path bytes (ok mode, d) = after_create path bytes mode (create_temp d)

unfoldable pub write_atomic : Text → Text → StoreCall (Unit {0})
write_atomic path bytes d = after_stat path bytes (stat_mode path d)

abbrev pub document : EnvFile → Text → Document
document ef raw = record { path = ef.path; lookup_key = get ef; keys = keys ef; snapshot = raw }

abbrev pub opened : Text → Result OsError Text × Disk → Result StoreError Document × Disk
opened path (err e, d) = (err (StoreError.reading e), d)
opened path (ok raw, d) = (ok (document (parse path raw) raw), d)

unfoldable pub open_env : Text → StoreCall Document
open_env path d = opened path (read_file path d)

abbrev pub returning : Text → Result StoreError (Unit {0}) × Disk → Result StoreError Text × Disk
returning before (err e, d) = (err e, d)
returning before (ok _, d) = (ok before, d)

abbrev pub write_found : Text → Text → Credential → Text → Option Text → StoreCall Text
write_found path key value before none d = (err (StoreError.key_missing key path), d)
write_found path key value before (some _) d =
    returning before (write_atomic path (render (set_key (parse path before) key value)) d)

abbrev pub write_read :
    Text → Text → Credential → Result OsError Text × Disk → Result StoreError Text × Disk
write_read path key value (err e, d) = (err (StoreError.reading e), d)
write_read path key value (ok before, d) =
    write_found path key value before (get (parse path before) key) d

unfoldable pub write : Text → Text → Credential → StoreCall Text
write path key value d = write_read path key value (read_file path d)

-- A nil snapshot is none.
unfoldable pub restore : Text → Option Text → StoreCall (Unit {0})
restore path none d = (err (StoreError.no_snapshot path), d)
restore path (some snapshot) d = write_atomic path snapshot d
