-- ===== src/Envstore/Disk/Calls.antt =====
-- The files behind each call of the disk.
use secret_rotator.Prelude.{
  ◌≡◌, refl, sym, ◌∙◌, Bool, true, false, List, [], ◌∷◌, Option, none, some, inl, inr, Bool-cases,
  Option-cases,
}
use secret_rotator.Prelude.Result.{Result, ok, err}
use secret_rotator.Prelude.Text.{Text, eq_text, eq_text_refl}
use secret_rotator.Envstore.Disk.{
  StoredFile, OsError, Disk, OsCall, put, faulty_with, faulty, found, change_found, change_file,
  create_picked, read_file, stat_mode, create_temp, flush,
}

-- The files of a disk are those of the function.
abbrev pub Holds : (Text → Option StoredFile) → Disk → Type 0
Holds fs d = (q : Text) → d.files q ≡ fs q

-- A call that changes no file and returns what `part` finds in one.
abbrev pub Reads : {A : Type 0} → (StoredFile → A) → Text → Disk → Result OsError A × Disk → Type 0
Reads part path d (err e, d') = Holds d.files d'
Reads part path d (ok a, d') =
    ((f : StoredFile) × (d.files path ≡ some f) × (a ≡ part f)) × Holds d.files d'

-- A call that fails without an effect or makes the files those of the function.
abbrev pub Makes :
    {A : Type 0}
    → (Text → Option StoredFile)
    → (Text → Option StoredFile)
    → Result OsError A × Disk
    → Type 0
Makes fs gs (err e, d') = Holds fs d'
Makes fs gs (ok a, d') = Holds gs d'

-- A property of what a call returns, from its failure and its body.
pub faulty_by :
    {A : Type 0} (P : Result OsError A × Disk → Type 0) (body : OsCall A) (d : Disk)
    → ((fs : List Bool) → P (err OsError.io_failure, record d { faults = fs }))
    → ((fs : List Bool) → P (body (record d { faults = fs })))
    → P (faulty body d)
faulty_by P body d failed done = by_list d.faults
  where
    by_list : (fs : List Bool) → P (faulty_with fs body d)
    by_list [] = done d.faults
    by_list (true ∷ fs) = failed fs
    by_list (false ∷ fs) = done fs

Reads-found :
    {A : Type 0} (part : StoredFile → A) (path : Text) (d : Disk)
    → Reads part path d (faulty (λ d. (found part (d.files path), d)) d)
Reads-found part path d =
    faulty_by (Reads part path d) (λ d. (found part (d.files path), d)) d (λ fs q. refl)
      (λ fs. at (record d { faults = fs }) (λ q. refl))
  where
    at : (d' : Disk) → Holds d.files d' → Reads part path d (found part (d'.files path), d')
    at d' h = elim (Option-cases (d'.files path)) [
      | inl gone ↦ rw gone h
      | inr (f, there) ↦ rw there ((f, sym (h path) ∙ there, refl), h)
    ]

pub read_file-Reads : (path : Text) (d : Disk) → Reads (λ f. f.contents) path d (read_file path d)
unfolding read_file
read_file-Reads path d = Reads-found (λ f. f.contents) path d

pub stat_mode-Reads : (path : Text) (d : Disk) → Reads (λ f. f.mode) path d (stat_mode path d)
unfolding stat_mode
stat_mode-Reads path d = Reads-found (λ f. f.mode) path d

pub put-at :
    (path : Text) (f : StoredFile) (fs : Text → Option StoredFile) → put path f fs path ≡ some f
put-at path f fs = rw (eq_text_refl path) refl

put-put :
    (path : Text) (f g : StoredFile) (fs : Text → Option StoredFile) (q : Text)
    → put path g (put path f fs) q ≡ put path g fs q
put-put path f g fs q = elim (Bool-cases (eq_text path q)) [ inl e ↦ rw e refl | inr e ↦ rw e refl ]

-- A change of the file `path` that stands over the files `fs`.
pub change_file-Makes :
    (path : Text) (change : StoredFile → StoredFile) (f : StoredFile)
    (fs : Text → Option StoredFile) (d : Disk)
    → Holds (put path f fs) d
    → Makes (put path f fs) (put path (change f) fs) (change_file path change d)
change_file-Makes path change f fs d h =
    faulty_by (Makes (put path f fs) (put path (change f) fs))
      (λ d. change_found path change (d.files path) d) d (λ l. h)
      (λ l. rw (h path ∙ put-at path f fs) made)
  where
    made : (q : Text) → put path (change f) d.files q ≡ put path (change f) fs q
    made q = elim (Bool-cases (eq_text path q)) [
      | inl e ↦ rw e refl
      | inr e ↦ rw e (h q ∙ rw e refl)
    ]

pub flush-Makes : (fs : Text → Option StoredFile) (d : Disk) → Holds fs d → Makes fs fs (flush d)
unfolding flush
flush-Makes fs d h = faulty_by (Makes fs fs) (λ d. (ok tt, d)) d (λ l. h) (λ l. h)

-- What CreateTemp returns is a path that was free, where an empty file of mode 0600 stands now.
abbrev pub Created : Disk → Result OsError Text × Disk → Type 0
Created d (err e, d') = Holds d.files d'
Created d (ok tmp, d') =
    (d.files tmp ≡ none) × Holds (put tmp (record { contents = []; mode = 384 }) d.files) d'

pub create_temp-Created : (d : Disk) → Created d (create_temp d)
unfolding create_temp
create_temp-Created d =
    faulty_by (Created d) (λ d. create_picked d.temps d) d (λ fs q. refl)
      (λ fs. picked d.temps (record d { faults = fs }) (λ q. refl))
  where
    picked : (temps : List Text) (d' : Disk) → Holds d.files d' → Created d (create_picked temps d')
    picked [] d' h = h
    picked (tmp ∷ temps) d' h = elim (Option-cases (d'.files tmp)) [
      | inl free ↦ rw free (
        sym (h tmp) ∙ free,
        λ q. elim (Bool-cases (eq_text tmp q)) [ inl e ↦ rw e refl | inr e ↦ rw e (h q) ],
      )
      | inr (f, taken) ↦ rw taken h
    ]

pub Makes-same :
    {A : Type 0} (fs : Text → Option StoredFile) (r : Result OsError A × Disk)
    → Makes fs fs r
    → Holds fs r.1
Makes-same fs (err e, d) h = h
Makes-same fs (ok a, d) h = h
