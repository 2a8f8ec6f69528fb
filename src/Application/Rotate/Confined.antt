-- ===== src/Application/Rotate/Confined.antt =====
-- RotateSecret.Execute of internal/application/rotate.go over a store that refuses some paths:
-- the compensation.
pub mod Runs
pub mod Followed
use secret_rotator.Prelude.{
  ◌≡◌, refl, ap, Bool, true, false, not, List, [], ◌∷◌, ◌++◌, is_nil, All, Option, none, some, inl,
  inr, Bool-cases, Option-cases, if◌then◌else◌, ltb,
}
use secret_rotator.Prelude.Int.{ℤ}
use secret_rotator.Prelude.Result.{Result, ok, err}
use secret_rotator.Prelude.Text.{Text, lookup}
use secret_rotator.Domain.Kind.{has_backing_service}
use secret_rotator.Domain.Target.{Target, Credential}
use secret_rotator.Domain.Secret.{Secret, primary_env_file, needs_verification}
use secret_rotator.Domain.Rotation
use secret_rotator.Domain.Rotation.{
  Step, rank, Rotation, Record, advance, begin_rotation, record_current_value, record_generated,
  record_applied, record_verified, record_file_written, record_restarted, CompensationAction,
  restore_file, restart_containers, restore_credential, restore_files, compensation_plan,
}
use secret_rotator.Domain.Inspection.{Document}
use secret_rotator.Application.Ports.{Call, Cause, Ports, Rotator}
use secret_rotator.Application.Rotate.{
  after_record, audit, note_failure, undo, undo_all, compensate, fail, Progress, Stage, proceed,
  after_apply, apply_stage, after_verify, verify_stage, after_write, write_stage, after_restart,
  restart_stage, stages, conclude, after_generate, after_lookup, after_open, after_resolve,
  with_rotator, execute,
}

module _ (p : Ports) (inside : Text → Bool) (refused : p.Error) where
  open p use {World, Error}

  abbrev pub only : {A : Type 0} → Bool → Call World Error A → Call World Error A
  only true call w = call w
  only false call w = (err refused, w)

  -- The store answers with an error for the paths that are not inside.
  abbrev pub confined : Ports
  confined = record p {
    open_env = λ path. only (inside path) (p.open_env path);
    write_env = λ path key value. only (inside path) (p.write_env path key value);
    restore_env = λ path snapshot. only (inside path) (p.restore_env path snapshot);
  }

  -- A journal whose written files are inside.
  abbrev pub Inside : Rotation → Type 0
  Inside r = All (λ q. inside q ≡ true) r.written_files

  pub Inside-advance : (r : Rotation) (to : Step) → Inside r → Inside (advance r to)
  unfolding advance
  Inside-advance r to h = elim (Bool-cases (ltb (rank r.step) (rank to))) [
    | inl on ↦ rw on h
    | inr back ↦ rw back h
  ]

  pub Inside-current :
      (r : Rotation) (current : Credential) (snapshot : Text)
      → Inside r
      → Inside (record_current_value r current snapshot)
  unfolding record_current_value
  Inside-current r current snapshot h =
      Inside-advance
        (record r {
          previous = current;
          file_backups = (primary_env_file r.secret, snapshot) ∷ r.file_backups;
        })
        Rotation.read h

  pub Inside-concat :
      (qs : List Text) (path : Text)
      → All (λ q. inside q ≡ true) qs
      → inside path ≡ true
      → All (λ q. inside q ≡ true) (qs ++ path ∷ [])
  Inside-concat [] path hs h = (h, tt)
  Inside-concat (q ∷ qs) path (first, hs) h = (first, Inside-concat qs path hs h)

  -- The undo actions that restore no file outside.
  abbrev pub IsInside : CompensationAction → Type 0
  IsInside (restore_file path snapshot) = inside path ≡ true
  IsInside (restart_containers refs) = Unit
  IsInside restore_credential = Unit

  restore_files-IsInside :
      (backups : List (Text × Text)) (paths : List Text)
      → All (λ q. inside q ≡ true) paths
      → All IsInside (restore_files backups paths)
  unfolding restore_files
  restore_files-IsInside backups [] h = tt
  restore_files-IsInside backups (path ∷ paths) (first, h) =
      elim (Option-cases (lookup path backups)) [
        | inl missing ↦ rw (missing, restore_files) (restore_files-IsInside backups paths h)
        | inr (s, there) ↦ rw (there, restore_files) (first, restore_files-IsInside backups paths h)
      ]

  tail-IsInside :
      (actions : List CompensationAction) (b c : Bool) (refs : List Text)
      → All IsInside actions
      → All IsInside (
          actions
          ++ ((if b then restart_containers refs ∷ [] else [])
              ++ (if c then restore_credential ∷ [] else [])))
  tail-IsInside [] true true refs h = (tt, (tt, tt))
  tail-IsInside [] true false refs h = (tt, tt)
  tail-IsInside [] false true refs h = (tt, tt)
  tail-IsInside [] false false refs h = tt
  tail-IsInside (a ∷ actions) b c refs (first, h) = (first, tail-IsInside actions b c refs h)

  pub compensation_plan-IsInside : (r : Rotation) → Inside r → All IsInside (compensation_plan r)
  unfolding compensation_plan
  compensation_plan-IsInside r h = elim (Bool-cases (ltb (rank r.step) (rank Rotation.generated))) [
    | inl early ↦ rw early tt
    | inr late ↦ rw late (
        tail-IsInside (restore_files r.file_backups r.written_files) _ _ r.restarted_refs
          (restore_files-IsInside r.file_backups r.written_files h))
  ]

  undo-confined :
      (rotator : Rotator World Error) (target : Target) (r : Rotation) (a : CompensationAction)
      (w : World)
      → IsInside a
      → undo confined rotator target r a w ≡ undo p rotator target r a w
  unfolding undo note_failure
  undo-confined rotator target r (restore_file path snapshot) w h = rw h refl
  undo-confined rotator target r (restart_containers refs) w h = refl
  undo-confined rotator target r restore_credential w h = refl

  pub undo_all-confined :
      (rotator : Rotator World Error) (target : Target) (r : Rotation)
      (plan : List CompensationAction) (w : World)
      → All IsInside plan
      → undo_all confined rotator target r plan w ≡ undo_all p rotator target r plan w
  unfolding undo_all
  undo_all-confined rotator target r [] w h = refl
  undo_all-confined rotator target r (a ∷ plan) w (first, h) =
      let (fs, w1) = undo p rotator target r a w in
      rw (undo-confined rotator target r a w first, undo_all-confined rotator target r plan w1 h)
        refl
