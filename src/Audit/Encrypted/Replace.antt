-- ===== src/Audit/Encrypted/Replace.antt =====
-- The calls on the disk of internal/infrastructure/audit/store.go: what a read finds, and what
-- writeFile makes of the history file.
use secret_rotator.Prelude.{
  ◌≡◌, refl, sym, ◌∙◌, ap, true, false, List, [], ◌∷◌, All, Option, none, some, inl, inr,
  Bool-cases, if◌then◌else◌,
}
use secret_rotator.Prelude.Result.{Result, ok, err}
use secret_rotator.Prelude.Text.{Text, eq_text, eq_text_iff}
use secret_rotator.Envstore.Disk.{
  StoredFile, OsError, not_exist, Disk, put, drop_file, found, create_picked, create_new, read_file,
  create_temp, write_file, flush, rename, remove, mkdir_all,
}
use secret_rotator.Envstore.Disk.Calls.{
  Holds, Makes, Created, faulty_by, flush-Makes, create_temp-Created, Makes-same,
}
use secret_rotator.Envstore.Store.Replace.{rename-Makes, write_file-Makes, drop-put}
use secret_rotator.Crypto.{Bytes}
use secret_rotator.Audit.Encrypted.{
  Codec, Tools, StoreFault, after_rename, after_close, after_write, after_create, after_mkdir,
}

-- No file has changed, and the next temporary paths are the same.
abbrev pub Same : Disk → Disk → Type 0
Same d d' = Holds d.files d' × (d'.temps ≡ d.temps)

-- What a read returns: where it says that there is no file, there is none.
abbrev pub Read : Text → Disk → Result OsError Text × Disk → Type 0
Read path d (err not_exist, d') = Same d d' × (d.files path ≡ none)
Read path d (err e, d') = Same d d'
Read path d (ok text, d') =
    Same d d' × ((f : StoredFile) × (d.files path ≡ some f) × (text ≡ f.contents))

pub read_file-Read : (path : Text) (d : Disk) → Read path d (read_file path d)
unfolding read_file
read_file-Read path d =
    faulty_by (Read path d) (λ d. (found (λ f. f.contents) (d.files path), d)) d
      (λ fs. (λ q. refl, refl))
      (λ fs. at (d.files path) refl (record d { faults = fs }) (λ q. refl, refl))
  where
    at :
        (o : Option StoredFile)
        → d.files path ≡ o
        → (d' : Disk) → Same d d'
        → Read path d (found (λ f. f.contents) o, d')
    at none e d' h = (h, e)
    at (some f) e d' h = (h, (f, e, refl))

pub mkdir_all-Same : (d : Disk) → Same d (mkdir_all d).1
unfolding mkdir_all
mkdir_all-Same d =
    faulty_by (λ r. Same d r.1) (λ d. (ok tt, d)) d (λ fs. (λ q. refl, refl))
      (λ fs. (λ q. refl, refl))

-- The path that CreateTemp picks, apart from `path`.
abbrev pub Apart : Text → Result OsError Text × Disk → Type 0
Apart path (err e, d) = Unit
Apart path (ok tmp, d) = eq_text tmp path ≡ false

create_temp-Apart :
    (path : Text) (d : Disk)
    → All (λ tmp. eq_text tmp path ≡ false) d.temps
    → Apart path (create_temp d)
unfolding create_temp
create_temp-Apart path d h =
    faulty_by (Apart path) (λ d. create_picked d.temps d) d (λ fs. tt)
      (λ fs. picked d.temps (record d { faults = fs }) h)
  where
    created :
        (tmp : Text) (o : Option StoredFile) (d' : Disk)
        → eq_text tmp path ≡ false
        → Apart path (create_new tmp o d')
    created tmp none d' a = a
    created tmp (some f) d' a = tt

    picked :
        (temps : List Text) (d' : Disk)
        → All (λ tmp. eq_text tmp path ≡ false) temps
        → Apart path (create_picked temps d')
    picked [] d' k = tt
    picked (tmp ∷ temps) d' (a, k) = created tmp (d'.files tmp) (record d' { temps = temps }) a

drop-renamed_apart :
    (tmp path : Text) (g : StoredFile) (fs : Text → Option StoredFile) (q : Text)
    → fs tmp ≡ none
    → eq_text tmp path ≡ false
    → drop_file tmp (put path g (put tmp g fs)) q ≡ put path g fs q
drop-renamed_apart tmp path g fs q free apart = elim (Bool-cases (eq_text tmp q)) [
  | inl e ↦ elim (Bool-cases (eq_text path q)) [
    | inl k ↦
        let same : tmp ≡ path = (eq_text_iff tmp q).0 e ∙ sym ((eq_text_iff path q).0 k) in
        let clash : false ≡ true = sym apart ∙ (eq_text_iff tmp path).1 same in cc
    | inr k ↦ rw (e, k) (sym free ∙ ap fs ((eq_text_iff tmp q).0 e))
  ]
  | inr e ↦ elim (Bool-cases (eq_text path q)) [ inl k ↦ rw (e, k) refl | inr k ↦ rw (e, k) refl ]
]

module _ {Outside E : Type 0} (codec : Codec) (tools : Tools Outside E) (path : Text)
    (passphrase : Bytes) (text : Text) (fs : Text → Option StoredFile) where
  abbrev pub history_file : StoredFile
  history_file = record { contents = text; mode = 384 }

  -- A write of the history file that fails changes no file; one that succeeds puts the text there,
  -- and changes no other.
  abbrev pub Written : Result (StoreFault E) (Unit {0}) × Disk → Type 0
  Written (err e, d) = Holds fs d
  Written (ok _, d) = Holds (put path history_file fs) d

  module _ (tmp : Text) (free : fs tmp ≡ none) (apart : eq_text tmp path ≡ false) where
    dropped : (f : StoredFile) (d : Disk) → Holds (put tmp f fs) d → Holds fs (remove tmp d)
    unfolding remove
    dropped f d h q = ap (λ o. if eq_text tmp q then none else o) (h q) ∙ drop-put tmp f fs q free

    after_rename-Written :
        (r : Result OsError (Unit {0}) × Disk)
        → Makes
            (put tmp history_file fs)
            (drop_file tmp (put path history_file (put tmp history_file fs)))
            r
        → Written (after_rename codec tools path passphrase tmp r)
    after_rename-Written (err e, d) h = dropped history_file d h
    after_rename-Written (ok _, d) h =
        λ q. h q ∙ drop-renamed_apart tmp path history_file fs q free apart

    after_close-Written :
        (r : Result OsError (Unit {0}) × Disk)
        → Makes (put tmp history_file fs) (put tmp history_file fs) r
        → Written (after_close codec tools path passphrase tmp r)
    after_close-Written (err e, d) h = dropped history_file d h
    after_close-Written (ok _, d) h =
        after_rename-Written (rename tmp path d) (rename-Makes fs path tmp history_file d h)

    after_write-Written :
        (f : StoredFile) (r : Result OsError (Unit {0}) × Disk)
        → Makes (put tmp f fs) (put tmp history_file fs) r
        → Written (after_write codec tools path passphrase tmp r)
    after_write-Written f (err e, d) h =
        dropped f (flush d).1 (Makes-same (put tmp f fs) (flush d) (flush-Makes (put tmp f fs) d h))
    after_write-Written f (ok _, d) h =
        after_close-Written (flush d) (flush-Makes (put tmp history_file fs) d h)

  after_create-Written :
      (d : Disk) (r : Result OsError Text × Disk)
      → Holds fs d
      → Created d r
      → Apart path r
      → Written (after_create codec tools path passphrase text r)
  after_create-Written d (err e, d') same h apart = λ q. h q ∙ same q
  after_create-Written d (ok tmp, d') same (free, h) apart =
      let blank : StoredFile = record { contents = []; mode = 384 } in
      let over : Holds (put tmp blank fs) d' =
        λ q. h q ∙ ap (λ o. if eq_text tmp q then some blank else o) (same q) in
      after_write-Written tmp (sym (same tmp) ∙ free) apart blank (write_file tmp text d')
        (write_file-Makes tmp text blank fs d' over)

  pub after_mkdir-Written :
      (d : Disk)
      → Holds fs d
      → All (λ tmp. eq_text tmp path ≡ false) d.temps
      → Written (after_mkdir codec tools path passphrase text (mkdir_all d))
  after_mkdir-Written d same temps = by_mkdir (mkdir_all d) (mkdir_all-Same d)
    where
      by_mkdir :
          (r : Result OsError (Unit {0}) × Disk)
          → Same d r.1
          → Written (after_mkdir codec tools path passphrase text r)
      by_mkdir (err e, d1) (h, k) = λ q. h q ∙ same q
      by_mkdir (ok _, d1) (h, k) =
          after_create-Written d1 (create_temp d1) (λ q. h q ∙ same q) (create_temp-Created d1)
            (create_temp-Apart path d1 (rw k temps))
