-- ===== src/System/Contract.antt =====
-- The store of internal/infrastructure/envstore against the contract of the EnvStore port.
use secret_rotator.Prelude.{
  ◌≡◌, refl, sym, ◌∙◌, ap, [], true, is_some, some, inl, inr, Bool-cases, Option-cases,
  if◌then◌else◌,
}
use secret_rotator.Prelude.Result.{Result, ok, err}
use secret_rotator.Prelude.Text.{Text, eq_text, lookup}
use secret_rotator.Envstore.Disk.{StoredFile, OsError, Disk, put, read_file}
use secret_rotator.Envstore.Disk.Calls.{Holds, Reads, read_file-Reads}
use secret_rotator.Envstore.File.{parse, get, set_key, render}
use secret_rotator.Envstore.Store.{
  StoreError, write_atomic, opened, open_env, returning, write_read, write, restore,
}
use secret_rotator.Envstore.Store.Replace.{Replaced, write_atomic-Replaced}
use secret_rotator.Application.Files.{
  FileView, SameFiles, Changed, Wrote, Restored, Opened, StoreLaws,
}
use secret_rotator.System.{Outside, stored, ports, contents_of, updated_text}

-- What the path of a parsed file is does not change its text.
render-set_key :
    (path before key value : Text)
    → render (set_key (parse path before) key value) ≡ updated_text key value before
unfolding updated_text render set_key parse
render-set_key path before key value = elim (Option-cases (lookup key (parse path before).index)) [
  | inl missing ↦ rw (missing, set_key) refl
  | inr (i, there) ↦ rw (there, set_key) refl
]

has_key_lem :
    (path before key : Text) {old : Text}
    → get (parse path before) key ≡ some old
    → is_some (get (parse [] before) key) ≡ true
unfolding get parse
has_key_lem path before key found = rw found refl

module _ {W E : Type 0} (o : Outside (Disk × W) E) where
  abbrev pub disk_view : FileView (ports o)
  disk_view = record {
    view = λ s q. contents_of (s.0.files q);
    updated = updated_text;
    has_key = λ key text. is_some (get (parse [] text) key);
  }

  Holds-SameFiles :
      (d d' : Disk) (w w' : W) → Holds d.files d' → SameFiles (ports o) disk_view (d, w) (d', w')
  Holds-SameFiles d d' w w' h = λ q. ap contents_of (h q)

  put-Changed :
      (d d' : Disk) (w w' : W) (path text : Text) (f : StoredFile)
      → Holds (put path (record f { contents = text }) d.files) d'
      → Changed (ports o) disk_view path text (d, w) (d', w')
  put-Changed d d' w w' path text f h = λ q.
      ap contents_of (h q)
      ∙ (elim (Bool-cases (eq_text path q)) [ inl e ↦ rw e refl | inr e ↦ rw e refl ])

  Restored-law :
      (path text : Text) (d : Disk) (w : W) (r : Result StoreError (Unit {0}) × Disk)
      → Replaced path text d r
      → Restored (ports o) disk_view path text (d, w) (stored w r)
  Restored-law path text d w (err e, d') h = Holds-SameFiles d d' w w h
  Restored-law path text d w (ok _, d') (f, there, h) = put-Changed d d' w w path text f h

  Opened-law :
      (path : Text) (d : Disk) (w : W) (r : Result OsError Text × Disk)
      → Reads (λ f. f.contents) path d r
      → Opened (ports o) disk_view path (d, w) (stored w (opened path r))
  Opened-law path d w (err e, d') h = Holds-SameFiles d d' w w h
  Opened-law path d w (ok raw, d') ((f, there, same), h) =
      (rw there (ap some (sym same)), Holds-SameFiles d d' w w h)

  returning-Wrote :
      (path key value before : Text) (f : StoredFile) (d d1 : Disk) (w : W)
      (r : Result StoreError (Unit {0}) × Disk)
      → d.files path ≡ some f
      → before ≡ f.contents
      → is_some (get (parse [] before) key) ≡ true
      → Holds d.files d1
      → Replaced path (updated_text key value before) d1 r
      → Wrote (ports o) disk_view path key value (d, w) (stored w (returning before r))
  returning-Wrote path key value before f d d1 w (err e, d') there same has h k =
      λ q. ap contents_of (k q ∙ h q)
  returning-Wrote path key value before f d d1 w (ok _, d') there same has h (g, here, k) = (
    rw there (ap some (sym same)),
    has,
    λ q.
        put-Changed d1 d' w w path (updated_text key value before) g k q
        ∙ ap (λ o. if eq_text path q then some (updated_text key value before) else contents_of o)
            (h q),
  )

  write_read-Wrote :
      (path key value : Text) (d : Disk) (w : W) (r : Result OsError Text × Disk)
      → Reads (λ f. f.contents) path d r
      → Wrote (ports o) disk_view path key value (d, w) (stored w (write_read path key value r))
  write_read-Wrote path key value d w (err e, d') h = Holds-SameFiles d d' w w h
  write_read-Wrote path key value d w (ok before, d') ((f, there, same), h) =
      elim (Option-cases (get (parse path before) key)) [
        | inl missing ↦ rw missing (Holds-SameFiles d d' w w h)
        | inr (old, found) ↦
            rw (found, render-set_key path before key value)
              (returning-Wrote path key value before f d d' w _ there same
                (has_key_lem path before key found) h
                (write_atomic-Replaced path (updated_text key value before) d'))
      ]

  -- The file-backed store implements the contract of the EnvStore port that the rotation relies
  -- on: failing calls change no file; Write returns what the file held, which has the key, and
  -- changes that file alone to its text with the key set; Restore changes that file alone to the
  -- snapshot; Open returns the file's contents as the snapshot.
  pub ports-StoreLaws : StoreLaws (ports o) disk_view
  unfolding write restore open_env
  ports-StoreLaws = record {
    write_law = λ path key value s.
        write_read-Wrote path key value s.0 s.1 (read_file path s.0) (read_file-Reads path s.0);
    restore_law = λ path text s.
        Restored-law path text s.0 s.1 (write_atomic path text s.0)
          (write_atomic-Replaced path text s.0);
    open_law = λ path s. Opened-law path s.0 s.1 (read_file path s.0) (read_file-Reads path s.0);
  }
