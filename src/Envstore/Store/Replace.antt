-- ===== src/Envstore/Store/Replace.antt =====
-- The files behind writeAtomic of internal/infrastructure/envstore/writer.go.
use secret_rotator.Prelude.{
  ℕ, ◌≡◌, sym, ◌∙◌, ap, refl, [], Option, none, some, inl, inr, Bool-cases, if◌then◌else◌,
}
use secret_rotator.Prelude.Result.{Result, ok, err}
use secret_rotator.Prelude.Text.{Text, eq_text, eq_text_iff}
use secret_rotator.Envstore.Disk.{
  StoredFile, OsError, Disk, put, drop_file, stat_mode, create_temp, write_file, flush, chmod,
  rename_found, rename, remove,
}
use secret_rotator.Envstore.Disk.Calls.{
  Holds, Reads, Makes, Created, faulty_by, put-at, stat_mode-Reads, change_file-Makes, flush-Makes,
  create_temp-Created, Makes-same,
}
use secret_rotator.Envstore.Store.{
  StoreError, after_rename, after_chmod, after_close, after_sync, after_write, cleaned,
  after_create, after_stat, write_atomic,
}

module _ (fs : Text → Option StoredFile) (path tmp : Text) (g : StoredFile) where
  -- The calls between CreateTemp and the removal: they leave something at the temporary path, and
  -- when all succeed the file has taken its place.
  abbrev Ends : Result StoreError (Unit {0}) × Disk → Type 0
  Ends (err e, d) = (f : StoredFile) × Holds (put tmp f fs) d
  Ends (ok _, d) = Holds (drop_file tmp (put path g (put tmp g fs))) d

  pub rename-Makes :
      (d : Disk)
      → Holds (put tmp g fs) d
      → Makes (put tmp g fs) (drop_file tmp (put path g (put tmp g fs))) (rename tmp path d)
  unfolding rename
  rename-Makes d h =
      faulty_by (Makes (put tmp g fs) (drop_file tmp (put path g (put tmp g fs))))
        (λ d. rename_found tmp path (d.files tmp) d) d (λ l. h)
        (λ l. rw (h tmp ∙ put-at tmp g fs) moved)
    where
      moved :
          (q : Text)
          → drop_file tmp (put path g d.files) q ≡ drop_file tmp (put path g (put tmp g fs)) q
      moved q = rw (h q) refl

  after_rename-Ends :
      (r : Result OsError (Unit {0}) × Disk)
      → Makes (put tmp g fs) (drop_file tmp (put path g (put tmp g fs))) r
      → Ends (after_rename path tmp r)
  after_rename-Ends (err e, d) h = (g, h)
  after_rename-Ends (ok _, d) h = h

  after_chmod-Ends :
      (f : StoredFile) (r : Result OsError (Unit {0}) × Disk)
      → Makes (put tmp f fs) (put tmp g fs) r
      → Ends (after_chmod path tmp r)
  after_chmod-Ends f (err e, d) h = (f, h)
  after_chmod-Ends f (ok _, d) h = after_rename-Ends (rename tmp path d) (rename-Makes d h)

module _ (fs : Text → Option StoredFile) (path tmp bytes : Text) (mode m : ℕ) where
  abbrev Ended : Result StoreError (Unit {0}) × Disk → Type 0
  Ended = Ends fs path tmp (record { contents = bytes; mode = mode })

  abbrev written : StoredFile
  written = record { contents = bytes; mode = m }

  chmod-Makes :
      (d : Disk)
      → Holds (put tmp written fs) d
      → Makes
          (put tmp written fs)
          (put tmp (record { contents = bytes; mode = mode }) fs)
          (chmod tmp mode d)
  unfolding chmod
  chmod-Makes d h = change_file-Makes tmp (λ f. record f { mode = mode }) written fs d h

  after_close-Ends :
      (r : Result OsError (Unit {0}) × Disk)
      → Makes (put tmp written fs) (put tmp written fs) r
      → Ended (after_close path mode tmp r)
  after_close-Ends (err e, d) h = (written, h)
  after_close-Ends (ok _, d) h =
      after_chmod-Ends fs path tmp (record { contents = bytes; mode = mode }) written
        (chmod tmp mode d) (chmod-Makes d h)

  after_sync-Ends :
      (r : Result OsError (Unit {0}) × Disk)
      → Makes (put tmp written fs) (put tmp written fs) r
      → Ended (after_sync path mode tmp r)
  after_sync-Ends (err e, d) h =
      (written, Makes-same (put tmp written fs) (flush d) (flush-Makes (put tmp written fs) d h))
  after_sync-Ends (ok _, d) h = after_close-Ends (flush d) (flush-Makes (put tmp written fs) d h)

  after_write-Ends :
      (f : StoredFile) (r : Result OsError (Unit {0}) × Disk)
      → Makes (put tmp f fs) (put tmp written fs) r
      → Ended (after_write path mode tmp r)
  after_write-Ends f (err e, d) h =
      (f, Makes-same (put tmp f fs) (flush d) (flush-Makes (put tmp f fs) d h))
  after_write-Ends f (ok _, d) h = after_sync-Ends (flush d) (flush-Makes (put tmp written fs) d h)

-- The files behind a replacement: all as before if it fails; if it succeeds, the file `path`, which
-- was there, has the new contents and the mode it had.
abbrev pub Replaced : Text → Text → Disk → Result StoreError (Unit {0}) × Disk → Type 0
Replaced path bytes d (err e, d') = Holds d.files d'
Replaced path bytes d (ok _, d') =
    (f : StoredFile) × (d.files path ≡ some f)
    × Holds (put path (record f { contents = bytes }) d.files) d'

pub write_file-Makes :
    (tmp bytes : Text) (f : StoredFile) (fs : Text → Option StoredFile) (d : Disk)
    → Holds (put tmp f fs) d
    → Makes (put tmp f fs) (put tmp (record f { contents = bytes }) fs) (write_file tmp bytes d)
unfolding write_file
write_file-Makes tmp bytes f fs d h =
    change_file-Makes tmp (λ f. record f { contents = bytes }) f fs d h

pub drop-put :
    (tmp : Text) (f : StoredFile) (fs : Text → Option StoredFile) (q : Text)
    → fs tmp ≡ none
    → drop_file tmp (put tmp f fs) q ≡ fs q
drop-put tmp f fs q free = elim (Bool-cases (eq_text tmp q)) [
  | inl e ↦ rw e (sym free ∙ ap fs ((eq_text_iff tmp q).0 e))
  | inr e ↦ rw e refl
]

-- The removal of the temporary file behind a rename has nothing to do.
drop-renamed :
    (tmp path : Text) (f g : StoredFile) (fs : Text → Option StoredFile) (q : Text)
    → fs tmp ≡ none
    → fs path ≡ some f
    → drop_file tmp (drop_file tmp (put path g (put tmp g fs))) q ≡ put path g fs q
drop-renamed tmp path f g fs q free there = elim (Bool-cases (eq_text tmp q)) [
  | inl e ↦ elim (Bool-cases (eq_text path q)) [
    | inl k ↦
        let same : tmp ≡ path = (eq_text_iff tmp q).0 e ∙ sym ((eq_text_iff path q).0 k) in
        let clash : none ≡ some f = sym free ∙ ap fs same ∙ there in cc
    | inr k ↦ rw (e, k) (sym free ∙ ap fs ((eq_text_iff tmp q).0 e))
  ]
  | inr e ↦ elim (Bool-cases (eq_text path q)) [ inl k ↦ rw (e, k) refl | inr k ↦ rw (e, k) refl ]
]

module _ (path bytes : Text) (d : Disk) (old : StoredFile) (there : d.files path ≡ some old) where
  cleaned-Replaced :
      (fs : Text → Option StoredFile) (tmp : Text)
      → fs tmp ≡ none
      → Holds fs d
      → (r : Result StoreError (Unit {0}) × Disk)
      → Ends fs path tmp (record { contents = bytes; mode = old.mode }) r
      → Replaced path bytes d (cleaned tmp r)
  unfolding remove
  cleaned-Replaced fs tmp free same (err e, d') (f, h) = λ q.
      ap (λ o. if eq_text tmp q then none else o) (h q) ∙ drop-put tmp f fs q free ∙ sym (same q)
  cleaned-Replaced fs tmp free same (ok _, d') h = (
    old,
    there,
    λ q.
        ap (λ o. if eq_text tmp q then none else o) (h q)
        ∙ drop-renamed tmp path old (record { contents = bytes; mode = old.mode }) fs q free
            (sym (same path) ∙ there)
        ∙ ap (λ o. if eq_text path q then (some (record old { contents = bytes })) else o)
            (sym (same q)),
  )

  after_create-Replaced :
      (d1 : Disk) (r : Result OsError Text × Disk)
      → Holds d.files d1
      → Created d1 r
      → Replaced path bytes d (after_create path bytes old.mode r)
  after_create-Replaced d1 (err e, d') same h = λ q. h q ∙ same q
  after_create-Replaced d1 (ok tmp, d') same (free, h) =
      cleaned-Replaced d1.files tmp free (λ q. sym (same q))
        (after_write path old.mode tmp (write_file tmp bytes d'))
        (after_write-Ends d1.files path tmp bytes old.mode 384
          (record { contents = []; mode = 384 }) (write_file tmp bytes d')
          (write_file-Makes tmp bytes (record { contents = []; mode = 384 }) d1.files d' h))

-- Whichever call of writeAtomic fails, no file is changed and the temporary file is gone; on
-- success the file existed, has exactly the new contents with the mode it had before, and every
-- other file is as before.
pub write_atomic-Replaced :
    (path bytes : Text) (d : Disk) → Replaced path bytes d (write_atomic path bytes d)
unfolding write_atomic
write_atomic-Replaced path bytes d = by_stat (stat_mode path d) (stat_mode-Reads path d)
  where
    by_stat :
        (r : Result OsError ℕ × Disk)
        → Reads (λ f. f.mode) path d r
        → Replaced path bytes d (after_stat path bytes r)
    by_stat (err e, d') h = h
    by_stat (ok mode, d') ((f, there, m), h) =
        rw m (
          after_create-Replaced path bytes d f there d' (create_temp d') h (create_temp-Created d'))
