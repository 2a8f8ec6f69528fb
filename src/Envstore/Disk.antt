-- ===== src/Envstore/Disk.antt =====
-- What the env store uses of Go's package os: files with a mode, and calls that may fail.
pub mod Calls
use secret_rotator.Prelude.{ℕ, Bool, true, false, List, [], ◌∷◌, Option, none, some, if◌then◌else◌}
use secret_rotator.Prelude.Result.{Result, ok, err}
use secret_rotator.Prelude.Text.{Text, eq_text}

pub record StoredFile : Type 0 where
  pub contents : Text
  pub mode : ℕ

pub data OsError : Type 0 where
  not_exist : OsError
  exist : OsError
  io_failure : OsError

-- The files; which of the coming calls fail (none behind the end of the list); the paths that
-- CreateTemp will pick.
pub record Disk : Type 0 where
  pub files : Text → Option StoredFile
  pub faults : List Bool
  pub temps : List Text

abbrev pub OsCall : Type 0 → Type 0
OsCall A = Disk → Result OsError A × Disk

abbrev pub put : Text → StoredFile → (Text → Option StoredFile) → Text → Option StoredFile
put path f files q = if eq_text path q then some f else files q

abbrev pub drop_file : Text → (Text → Option StoredFile) → Text → Option StoredFile
drop_file path files q = if eq_text path q then none else files q

-- A call that the fault list may make fail before it does anything.
abbrev pub faulty_with : {A : Type 0} → List Bool → OsCall A → OsCall A
faulty_with [] body d = body d
faulty_with (f ∷ fs) body d =
    if f
    then (err OsError.io_failure, record d { faults = fs })
    else body (record d { faults = fs })

abbrev pub faulty : {A : Type 0} → OsCall A → OsCall A
faulty body d = faulty_with d.faults body d

abbrev pub found : {A : Type 0} → (StoredFile → A) → Option StoredFile → Result OsError A
found part none = err OsError.not_exist
found part (some f) = ok (part f)

-- A change of a file that exists.
abbrev pub change_found : Text → (StoredFile → StoredFile) → Option StoredFile → OsCall (Unit {0})
change_found path change none d = (err OsError.not_exist, d)
change_found path change (some f) d = (ok tt, record d { files = put path (change f) d.files })

abbrev pub change_file : Text → (StoredFile → StoredFile) → OsCall (Unit {0})
change_file path change = faulty (λ d. change_found path change (d.files path) d)

unfoldable pub read_file : Text → OsCall Text
read_file path = faulty (λ d. (found (λ f. f.contents) (d.files path), d))

-- `os.Stat`, of which the store reads the permissions.
unfoldable pub stat_mode : Text → OsCall ℕ
stat_mode path = faulty (λ d. (found (λ f. f.mode) (d.files path), d))

abbrev pub create_new : Text → Option StoredFile → OsCall Text
create_new tmp (some f) d = (err OsError.exist, d)
create_new tmp none d =
    -- 384 is 0o600.
    (ok tmp, record d { files = put tmp (record { contents = []; mode = 384 }) d.files })

abbrev pub create_picked : List Text → OsCall Text
create_picked [] d = (err OsError.exist, d)
create_picked (tmp ∷ temps) d = create_new tmp (d.files tmp) (record d { temps = temps })

-- `os.CreateTemp`: a new file, which did not exist.
unfoldable pub create_temp : OsCall Text
create_temp = faulty (λ d. create_picked d.temps d)

unfoldable pub write_file : Text → Text → OsCall (Unit {0})
write_file path bytes = change_file path (λ f. record f { contents = bytes })

-- Flushing and closing change no contents.
unfoldable pub flush : OsCall (Unit {0})
flush = faulty (λ d. (ok tt, d))

unfoldable pub chmod : Text → ℕ → OsCall (Unit {0})
chmod path mode = change_file path (λ f. record f { mode = mode })

abbrev pub rename_found : Text → Text → Option StoredFile → OsCall (Unit {0})
rename_found from to none d = (err OsError.not_exist, d)
rename_found from to (some f) d = (ok tt, record d { files = drop_file from (put to f d.files) })

unfoldable pub rename : Text → Text → OsCall (Unit {0})
rename from to = faulty (λ d. rename_found from to (d.files from) d)

-- `os.Remove` of the store's own temporary file, which is taken to succeed.
unfoldable pub remove : Text → Disk → Disk
remove path d = record d { files = drop_file path d.files }

-- `os.MkdirAll`; a directory has no contents of its own.
unfoldable pub mkdir_all : OsCall (Unit {0})
mkdir_all = faulty (λ d. (ok tt, d))
