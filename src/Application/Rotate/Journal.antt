-- ===== src/Application/Rotate/Journal.antt =====
-- The journal of internal/domain/rotation.go, related to the files at the start of a rotation.
use secret_rotator.Prelude.{
  ◌≤◌, ltb, ◌≡◌, sym, ◌∙◌, Bool, true, false, ◌||◌, ◌⊎◌, List, [], ◌∷◌, ◌++◌, any, none, some,
  arith, inl, inr, Bool-cases, Option-cases, if◌then◌else◌,
}
use secret_rotator.Prelude.Text.{Text, eq_text, eq_text_iff, lookup}
use secret_rotator.Domain.Rotation.{Step, rank, Rotation, advance, add_backup}
use secret_rotator.Application.Ports.{Ports}
use secret_rotator.Application.Files.{FileView, SameFiles, Changed}

add_backup_new :
    (path snapshot : Text) (backups : List (Text × Text))
    → lookup path backups ≡ none
    → add_backup path snapshot backups ≡ (path, snapshot) ∷ backups
unfolding add_backup
add_backup_new path snapshot backups h = rw (h, add_backup)

lookup-add_backup_new :
    (q path snapshot : Text) (backups : List (Text × Text))
    → lookup path backups ≡ none
    → lookup q (add_backup path snapshot backups)
      ≡ (if eq_text path q then some snapshot else lookup q backups)
unfolding lookup
lookup-add_backup_new q path snapshot backups h = rw (add_backup_new path snapshot backups h)

add_backup_old :
    (path snapshot : Text) (backups : List (Text × Text)) (a : Text)
    → lookup path backups ≡ some a
    → add_backup path snapshot backups ≡ backups
unfolding add_backup
add_backup_old path snapshot backups a h = rw (h, add_backup)

-- A path is among the files written so far.
abbrev pub is_in : Text → List Text → Bool
is_in q paths = any (eq_text q) paths

is_in-concat :
    (q path : Text) (paths : List Text)
    → is_in q (paths ++ path ∷ []) ≡ (is_in q paths || eq_text q path)
is_in-concat q path [] = ground arith
is_in-concat q path (x ∷ paths) = ground (arith, is_in-concat q path paths)

module _ (p : Ports) (v : FileView p) where
  open p use {World, Error}
  open v use {view, updated}

  -- `start` is the world before the rotation.
  pub record Journal (start : World) (r : Rotation) (w : World) : Type 0 where
    pub backed : (q s : Text) → lookup q r.file_backups ≡ some s → view start q ≡ some s
    pub complete :
        (q : Text)
        → is_in q r.written_files ≡ true
        → (s : Text) × (lookup q r.file_backups ≡ some s)
    pub untouched : (q : Text) → is_in q r.written_files ≡ false → view w q ≡ view start q
    pub begun : 2 ≤ rank r.step

  module _ (start : World) where
    pub Journal-SameFiles :
        (r : Rotation) (w w' : World) → SameFiles p v w w' → Journal start r w → Journal start r w'
    Journal-SameFiles r w w' same j = record {
      backed = j.backed;
      complete = j.complete;
      untouched = λ q h. same q ∙ j.untouched q h;
      begun = j.begun;
    }

    pub Journal-with_refs :
        (refs : List Text) (r : Rotation) (w : World)
        → Journal start r w
        → Journal start (record r { restarted_refs = refs }) w
    Journal-with_refs refs r w j = record {
      backed = j.backed;
      complete = j.complete;
      untouched = j.untouched;
      begun = j.begun;
    }

    pub Journal-advance :
        (r : Rotation) (to : Step) (w : World) → Journal start r w → Journal start (advance r to) w
    unfolding advance
    Journal-advance r to w j = elim (Bool-cases (ltb (rank r.step) (rank to))) [
      | inr back ↦ rw back j
      | inl on ↦ rw on (record {
        backed = j.backed;
        complete = j.complete;
        untouched = j.untouched;
        begun = ground (arith, j.begun);
      })
    ]

    -- The journal of a file that has just been written, where it had no backup or had one.
    pub Journal-written :
        (r : Rotation) (path before contents : Text) (w w' : World)
        → Journal start r w
        → view w path ≡ some before
        → Changed p v path contents w w'
        → Journal start
            (record r {
              file_backups = add_backup path before r.file_backups;
              written_files = r.written_files ++ path ∷ [];
            })
            w'
    Journal-written r path before contents w w' j held changed = record {
      backed = λ q s h. backed_added q s h (Option-cases (lookup path r.file_backups));
      complete = λ q h. complete_added q h (Option-cases (lookup path r.file_backups));
      untouched = λ q h. untouched_added q h;
      begun = j.begun;
    }
      where
        original : lookup path r.file_backups ≡ none → view start path ≡ some before
        original h = elim (Bool-cases (is_in path r.written_files)) [
          | inl written ↦ absurd (cc (h, (j.complete path written).1))
          | inr fresh ↦ sym (j.untouched path fresh) ∙ held
        ]

        backed_added :
            (q s : Text)
            → lookup q (add_backup path before r.file_backups) ≡ some s
            → (lookup path r.file_backups ≡ none)
              ⊎ ((a : Text) × (lookup path r.file_backups ≡ some a))
            → view start q ≡ some s
        backed_added q s h (inl new) = elim (Bool-cases (eq_text path q)) [
          | inl same ↦ rw (← (eq_text_iff path q).0 same) (
              original new
              ∙ (rw (lookup-add_backup_new q path before r.file_backups new, same) at h))
          | inr other ↦
              j.backed q s (rw (lookup-add_backup_new q path before r.file_backups new, other) at h)
        ]
        backed_added q s h (inr (a, old)) =
            j.backed q s (rw (add_backup_old path before r.file_backups a old) at h)

        complete_added :
            (q : Text)
            → is_in q (r.written_files ++ path ∷ []) ≡ true
            → (lookup path r.file_backups ≡ none)
              ⊎ ((a : Text) × (lookup path r.file_backups ≡ some a))
            → (s : Text) × (lookup q (add_backup path before r.file_backups) ≡ some s)
        complete_added q h (inl new) = elim (Bool-cases (eq_text path q)) [
          | inl same ↦ (before, rw (lookup-add_backup_new q path before r.file_backups new, same))
          | inr other ↦
              let (s, e) = j.complete q (
                ground (
                  arith,
                  is_in-concat q path r.written_files,
                  eq_text_iff q path,
                  eq_text_iff path q,
                )) in
              (s, rw (lookup-add_backup_new q path before r.file_backups new, other) e)
        ]
        complete_added q h (inr (a, old)) = elim (Bool-cases (eq_text path q)) [
          | inl same ↦ (
            a,
            rw (add_backup_old path before r.file_backups a old, ← (eq_text_iff path q).0 same) old,
          )
          | inr other ↦
              let (s, e) = j.complete q (
                ground (
                  arith,
                  is_in-concat q path r.written_files,
                  eq_text_iff q path,
                  eq_text_iff path q,
                )) in
              (s, rw (add_backup_old path before r.file_backups a old) e)
        ]

        untouched_added :
            (q : Text) → is_in q (r.written_files ++ path ∷ []) ≡ false → view w' q ≡ view start q
        untouched_added q h =
            let other : eq_text path q ≡ false = ground (
              arith,
              is_in-concat q path r.written_files,
              eq_text_iff q path,
              eq_text_iff path q,
            ) in
            let fresh : is_in q r.written_files ≡ false =
              ground (arith, is_in-concat q path r.written_files) in
            changed q ∙ (rw other (j.untouched q fresh))
