-- ===== src/Envstore/Store/Completes.antt =====
-- Runs of writeAtomic of internal/infrastructure/envstore/writer.go in which no call fails.
use secret_rotator.Prelude.{◌≡◌, subst, List, [], ◌∷◌, Option, none, some}
use secret_rotator.Prelude.Result.{Result, ok, err}
use secret_rotator.Prelude.Text.{Text, eq_text_refl}
use secret_rotator.Envstore.Disk.{
  StoredFile, Disk, put, stat_mode, create_temp, write_file, flush, chmod, rename, remove,
}
use secret_rotator.Envstore.Store.{StoreError, write_atomic}
use secret_rotator.Envstore.Disk.Calls.{Holds}
use secret_rotator.Envstore.Store.Replace.{Replaced, write_atomic-Replaced}

-- A disk on which no call fails, and CreateTemp picks `tmp` next.
abbrev pub sound : (Text → Option StoredFile) → Text → List Text → Disk
sound files tmp temps = record { files = files; faults = []; temps = tmp ∷ temps }

write_atomic_ok :
    (path bytes tmp : Text) (temps : List Text) (files : Text → Option StoredFile) (f : StoredFile)
    → files path ≡ some f
    → files tmp ≡ none
    → (write_atomic path bytes (sound files tmp temps)).0 ≡ ok tt
unfolding write_atomic stat_mode create_temp write_file flush chmod rename remove
write_atomic_ok path bytes tmp temps files f there free = rw (there, free) (simp (eq_text_refl tmp))

-- If no call of the disk fails, the file exists and the path that CreateTemp picks is free,
-- writeAtomic returns success, the file then has exactly the new contents with the mode that it
-- had, and every other file is as before.
pub write_atomic-ok :
    (path bytes tmp : Text) (temps : List Text) (files : Text → Option StoredFile) (f : StoredFile)
    → files path ≡ some f
    → files tmp ≡ none
    → ((write_atomic path bytes (sound files tmp temps)).0 ≡ ok tt)
      × ((q : Text)
          → (write_atomic path bytes (sound files tmp temps)).1.files q
            ≡ put path (record f { contents = bytes }) files q)
write_atomic-ok path bytes tmp temps files f there free =
    let r = write_atomic path bytes (sound files tmp temps) in
    let done = write_atomic_ok path bytes tmp temps files f there free in
    (done, written f r there done (write_atomic-Replaced path bytes (sound files tmp temps)))
  where
    written :
        (f : StoredFile) (r : Result StoreError (Unit {0}) × Disk)
        → files path ≡ some f
        → r.0 ≡ ok tt
        → Replaced path bytes (sound files tmp temps) r
        → Holds (put path (record f { contents = bytes }) files) r.1
    written f (err e, d) there done h = absurd (cc)
    written f (ok _, d) there done (g, here, h) =
        let same : g ≡ f = cc in
        subst (λ x. Holds (put path (record x { contents = bytes }) files) d) same h
