-- ===== src/Application/Rotate/Undo.antt =====
-- The compensation plan of internal/domain/rotation.go, run by internal/application/rotate.go.
use secret_rotator.Prelude.{
  ◌≤◌, leb, ltb, ◌≡◌, refl, sym, ◌∙◌, ap, Bool, true, false, not, ◌&&◌, List, [], ◌∷◌, ◌++◌,
  append_assoc, All, some, arith, inl, inr, Bool-cases, if◌then◌else◌, is_nil,
}
use secret_rotator.Prelude.Result.{Result, ok, err}
use secret_rotator.Prelude.Text.{Text, eq_text, eq_text_iff, eq_text_refl, lookup}
use secret_rotator.Domain.Kind.{has_backing_service}
use secret_rotator.Domain.Target.{Target}
use secret_rotator.Domain.Rotation.{
  rank, restarted, applied, Rotation, CompensationAction, restore_file, restart_containers,
  restore_credential, restore_files, compensation_plan,
}
use secret_rotator.Application.Ports.{Ports, Rotator}
use secret_rotator.Application.Files.{
  FileView, SameFiles, Changed, Restored, StoreLaws, RotatorFrame, Frames,
}
use secret_rotator.Application.Rotate.{
  Failure, restoring, restarting_again, restoring_credential, note_failure, undo, undo_all,
}
use secret_rotator.Application.Rotate.Journal.{is_in, Journal}

append-eq-nil {ℓ} : {A : Type ℓ} (xs ys : List A) → (xs ++ ys) ≡ [] → (xs ≡ []) × (ys ≡ [])
append-eq-nil [] ys h = (refl, h)
append-eq-nil (x ∷ xs) ys h = cc

-- What follows the restored files in a plan.
pub tail_plan : Rotation → List CompensationAction
tail_plan r =
    (if leb (rank restarted) (rank r.step) && not (is_nil r.restarted_refs)
      then restart_containers r.restarted_refs ∷ []
      else [])
    ++ (if leb (rank applied) (rank r.step) && has_backing_service r.secret.kind
        then restore_credential ∷ []
        else [])

-- Once a value was generated, the plan restores the written files and then runs the tail.
pub compensation_plan_lem :
    (r : Rotation)
    → 2 ≤ rank r.step
    → compensation_plan r ≡ restore_files r.file_backups r.written_files ++ tail_plan r
unfolding compensation_plan tail_plan
compensation_plan_lem r h = let begun : ltb (rank r.step) 2 ≡ false = ground arith in rw begun

-- An action that leaves the files alone.
abbrev IsExternal : CompensationAction → Type 0
IsExternal (restore_file path snapshot) = ⊥
IsExternal (restart_containers refs) = Unit
IsExternal restore_credential = Unit

tail_plan-IsExternal : (r : Rotation) → All IsExternal (tail_plan r)
unfolding tail_plan
tail_plan-IsExternal r =
    two (leb (rank restarted) (rank r.step) && not (is_nil r.restarted_refs))
      (leb (rank applied) (rank r.step) && has_backing_service r.secret.kind)
  where
    two :
        (b c : Bool)
        → All IsExternal (
            (if b then restart_containers r.restarted_refs ∷ [] else [])
            ++ (if c then restore_credential ∷ [] else []))
    two true true = (tt, (tt, tt))
    two true false = (tt, tt)
    two false true = (tt, tt)
    two false false = tt

restore_files-cons :
    (backups : List (Text × Text)) (path snapshot : Text) (paths : List Text)
    → lookup path backups ≡ some snapshot
    → restore_files backups (path ∷ paths)
      ≡ restore_file path snapshot ∷ restore_files backups paths
unfolding restore_files
restore_files-cons backups path snapshot paths h = rw (h, restore_files)

module _ (p : Ports) (v : FileView p) where
  open p use {World, Error}
  open v use {view}

  note_failure-SameFiles :
      (f : Error → Failure Error) (w : World) (x : Result Error (Unit {0}) × World)
      → SameFiles p v w x.1
      → SameFiles p v w (note_failure p f x).1
  unfolding note_failure
  note_failure-SameFiles f w (ok _, w') h = h
  note_failure-SameFiles f w (err e, w') h = h

  note_failure-Restored :
      (f : Error → Failure Error) (path snapshot : Text) (w : World)
      (x : Result Error (Unit {0}) × World)
      → Restored p v path snapshot w x
      → (note_failure p f x).0 ≡ []
      → Changed p v path snapshot w (note_failure p f x).1
  unfolding note_failure
  note_failure-Restored f path snapshot w (ok _, w') h e = h
  note_failure-Restored f path snapshot w (err e', w') h e = cc

  module _ (frames : Frames p v) (laws : StoreLaws p v) (rotator : Rotator World Error)
      (rf : RotatorFrame p v rotator) (target : Target) (start : World) (r : Rotation) where
    abbrev run : List CompensationAction → World → List (Failure Error) × World
    run = undo_all p rotator target r

    run-append :
        (xs ys : List CompensationAction) (w : World)
        → ((run (xs ++ ys) w).0 ≡ (run xs w).0 ++ (run ys (run xs w).1).0)
          × ((run (xs ++ ys) w).1 ≡ (run ys (run xs w).1).1)
    unfolding undo_all
    run-append [] ys w = (refl, refl)
    run-append (x ∷ xs) ys w =
        let (fs, w') = undo p rotator target r x w in
        let (failed, left) = run-append xs ys w' in
        (ap (λ gs. fs ++ gs) failed ∙ sym (append_assoc fs _ _), left)

    -- The loop that restores the files that are left, when no restore fails.
    run-restore_files :
        (backups : List (Text × Text)) (paths : List Text) (w : World)
        → ((q s : Text) → lookup q backups ≡ some s → view start q ≡ some s)
        → ((q : Text) → is_in q paths ≡ true → (s : Text) × (lookup q backups ≡ some s))
        → ((q : Text) → is_in q paths ≡ false → view w q ≡ view start q)
        → (run (restore_files backups paths) w).0 ≡ []
        → SameFiles p v start (run (restore_files backups paths) w).1
    unfolding restore_files undo note_failure undo_all
    run-restore_files backups [] w backed complete untouched e = λ q. untouched q refl
    run-restore_files backups (path ∷ paths) w backed complete untouched e =
        let (s, found) = complete path (ground (arith, eq_text_refl path)) in
        let plan = restore_files-cons backups path s paths found in
        let w' = (undo p rotator target r (restore_file path s) w).1 in
        let (one, others) =
          append-eq-nil (undo p rotator target r (restore_file path s) w).0
            (run (restore_files backups paths) w').0 (rw plan at e) in
        let changed : Changed p v path s w w' =
          note_failure-Restored (restoring path) path s w _ (laws.restore_law path s w) one in
        rw plan (
          run-restore_files backups paths w' backed (λ q h. complete q (ground (arith, h)))
            (restored path s w' changed backed found untouched) others)
      where
        restored :
            (path s : Text) (w' : World)
            → Changed p v path s w w'
            → ((q s : Text) → lookup q backups ≡ some s → view start q ≡ some s)
            → lookup path backups ≡ some s
            → ((q : Text) → is_in q (path ∷ paths) ≡ false → view w q ≡ view start q)
            → (q : Text) → is_in q paths ≡ false
            → view w' q ≡ view start q
        restored path s w' changed backed found untouched q h = elim (Bool-cases (eq_text path q)) [
          | inl same ↦
              changed q ∙ (rw same (sym (backed q s (rw (← (eq_text_iff path q).0 same) found))))
          | inr other ↦
              changed q
              ∙ (rw other (untouched q (ground (arith, h, eq_text_iff path q, eq_text_iff q path))))
        ]

    undo-SameFiles :
        (a : CompensationAction) (w : World)
        → IsExternal a
        → SameFiles p v w (undo p rotator target r a w).1
    unfolding undo
    undo-SameFiles (restore_file path snapshot) w h = absurd h
    undo-SameFiles (restart_containers refs) w h =
        note_failure-SameFiles restarting_again w _ (frames.restart_frame refs w)
    undo-SameFiles restore_credential w h =
        note_failure-SameFiles restoring_credential w _
          (rf.restore_frame target r.previous r.next w)

    external-SameFiles :
        (plan : List CompensationAction) (w : World)
        → All IsExternal plan
        → SameFiles p v w (run plan w).1
    unfolding undo_all
    external-SameFiles [] w h = λ q. refl
    external-SameFiles (a ∷ plan) w (x, h) =
        λ q. external-SameFiles plan _ h q ∙ undo-SameFiles a w x q

    -- No failure means that every file has come back.
    pub undo_all-SameFiles :
        (w : World)
        → Journal p v start r w
        → (run (compensation_plan r) w).0 ≡ []
        → SameFiles p v start (run (compensation_plan r) w).1
    undo_all-SameFiles w j e =
        let plan = compensation_plan_lem r j.begun in
        let files = restore_files r.file_backups r.written_files in
        let (failed, left) = run-append files (tail_plan r) w in
        let (one, others) = append-eq-nil (run files w).0 _ (sym failed ∙ (rw plan at e)) in
        rw (plan, left)
          (λ q.
            external-SameFiles (tail_plan r) (run files w).1 (tail_plan-IsExternal r) q
            ∙ run-restore_files r.file_backups r.written_files w j.backed j.complete j.untouched one
                q)
