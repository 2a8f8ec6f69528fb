-- ===== src/Application/Rotate.antt =====
-- internal/application/rotate.go: the rotation use case.
pub mod Journal
pub mod Keeps
pub mod Undo
pub mod Atomic
pub mod Updated
pub mod Success
pub mod Confined
use secret_rotator.Prelude.{
  Bool, true, false, not, ◌||◌, List, [], ◌∷◌, ◌++◌, is_nil, Option, none, some, if◌then◌else◌,
}
use secret_rotator.Prelude.Int.{ℤ}
use secret_rotator.Prelude.Result.{Result, ok, err}
use secret_rotator.Prelude.Text.{Text, eq_text}
use secret_rotator.Domain.Kind.{Kind, has_backing_service}
use secret_rotator.Domain.Values.{new_env_key}
use secret_rotator.Domain.Target.{Target, Credential, is_zero, with_admin_password}
use secret_rotator.Domain.Secret.{Secret, primary_env_file, needs_verification}
use secret_rotator.Domain.Rotation
use secret_rotator.Domain.Rotation.{
  Rotation, begin_rotation, record_current_value, record_generated, record_applied, record_verified,
  record_file_written, record_restarted, record_done, CompensationAction, restore_file,
  restart_containers, restore_credential, compensation_plan, Record, succeeded, failed_record,
}
use secret_rotator.Domain.Inspection.{Document}
use secret_rotator.Application.Ports.{
  Call, Rotator, Cause, generating, applying, verifying, writing, restarting, Ports,
}

-- An undo action that failed.
pub data Failure (E : Type 0) : Type 0 where
  restoring : Text → E → Failure E
  restarting_again : E → Failure E
  restoring_credential : E → Failure E

-- The errors of `Execute`. Those that wrap `ErrRotationFailed` are the last three.
pub data RotateError (E : Type 0) : Type 0 where
  no_rotator : E → RotateError E
  resolving : E → RotateError E
  reading : Text → E → RotateError E
  key_missing : Text → Text → RotateError E
  not_generated : Cause E → RotateError E
  rolled_back : Cause E → RotateError E
  rollback_failed : Cause E → List (Failure E) → RotateError E

-- The value of the .env entry that `password_env` names, unless it is missing or empty.
unfoldable pub admin_entry : Document → Text → Option Text
admin_entry doc name = elim (new_env_key name) [
  | err _ ↦ none
  | ok key ↦ elim (doc.lookup_key key) [
    | none ↦ none
    | some raw ↦ (if eq_text raw [] then none else some raw)
  ]
]

unfoldable pub resolve_admin_password : Secret → Document → Credential → Target
unfolding admin_entry
resolve_admin_password secret doc current =
    let target = secret.target in
    if not (is_zero target.admin_password)
    then target
    else if not (eq_text target.admin_password_env [])
    then elim (admin_entry doc target.admin_password_env) [
      | none ↦ target
      | some raw ↦ with_admin_password target raw
    ]
    else if eq_text target.target_user [] || eq_text target.target_user target.admin_user
    then with_admin_password target current
    else target

module _ (p : Ports) where
  open p use {
    World, Error, rotator_for, resolve, restart, now, open_env, write_env, restore_env, generate,
    record_audit, report_step, report_warn,
  }

  -- `if err := uc.audit.Record(…); err != nil { uc.reporter.Warn(…) }`
  after_record : Result Error (Unit {0}) × World → World
  after_record (ok _, w) = w
  after_record (err _, w) = report_warn w

  unfoldable pub audit : Record (Cause Error) → World → World
  unfolding after_record
  audit entry w = after_record (record_audit entry w)

  -- The failures that an undo action adds.
  unfoldable pub note_failure :
      (Error → Failure Error) → Result Error (Unit {0}) × World → List (Failure Error) × World
  note_failure f (ok _, w) = ([], w)
  note_failure f (err e, w) = (f e ∷ [], w)

  -- One undo action of a rotation.
  unfoldable pub undo :
      Rotator World Error
      → Target
      → Rotation
      → CompensationAction
      → World
      → List (Failure Error) × World
  undo rotator target r (restore_file path snapshot) w =
      note_failure (restoring path) (restore_env path snapshot w)
  undo rotator target r (restart_containers refs) w = note_failure restarting_again (restart refs w)
  undo rotator target r restore_credential w =
      note_failure restoring_credential (rotator.restore target r.previous r.next w)

  -- The loop over the plan: a failure does not stop it.
  unfoldable pub undo_all :
      Rotator World Error
      → Target
      → Rotation
      → List CompensationAction
      → World
      → List (Failure Error) × World
  undo_all rotator target r [] w = ([], w)
  undo_all rotator target r (a ∷ plan) w =
      let (fs, w1) = undo rotator target r a w in
      let (gs, w2) = undo_all rotator target r plan w1 in (fs ++ gs, w2)

  abbrev pub rollback_error : Cause Error → List (Failure Error) → RotateError Error
  rollback_error cause [] = rolled_back cause
  rollback_error cause (f ∷ fs) = rollback_failed cause (f ∷ fs)

  unfoldable pub compensate :
      Rotation
      → Rotator World Error
      → Target
      → Cause Error
      → Call World (RotateError Error) (Unit {0})
  compensate r rotator target cause w =
      let (failures, w1) = undo_all rotator target r (compensation_plan r) w in
      let (t, w2) = now w1 in
      (err (rollback_error cause failures), audit (failed_record r t (some cause)) w2)

  unfoldable pub fail : Rotation → Cause Error → Call World (RotateError Error) (Unit {0})
  fail r cause w =
      let (t, w1) = now w in (err (not_generated cause), audit (failed_record r t (some cause)) w1)

  -- What a part of the pipeline leaves: the cause that ends it, if any. `rotation` is mutated in
  -- place in Go, so the journal comes back on failure too.
  abbrev pub Progress : Type 0
  Progress = Option (Cause Error) × Rotation × World

  abbrev pub Stage : Type 0
  Stage = Rotation → World → Progress

  -- The next part, unless the one before has ended the pipeline.
  abbrev pub proceed : Stage → Progress → Progress
  proceed t (none, r, w) = t r w
  proceed t (some cause, r, w) = (some cause, r, w)

  module _ (secret : Secret) (rotator : Rotator World Error) (target : Target)
      (next : Credential) where
    unfoldable pub after_apply : Rotation → Result Error (Unit {0}) × World → Progress
    after_apply r (err e, w) = (some (applying e), r, w)
    after_apply r (ok _, w) = (none, record_applied r, report_step Rotation.applied w)

    unfoldable pub apply_stage : Stage
    apply_stage r w =
        if has_backing_service secret.kind
        then after_apply r (rotator.apply target next w)
        else (none, r, w)

    unfoldable pub after_verify : Rotation → Result Error (Unit {0}) × World → Progress
    after_verify r (err e, w) = (some (verifying e), r, w)
    after_verify r (ok _, w) = (none, record_verified r, report_step Rotation.verified w)

    unfoldable pub verify_stage : Stage
    verify_stage r w =
        if needs_verification secret
        then after_verify r (rotator.verify target next w)
        else (none, r, w)

    -- The body of the loop over the .env files; `rest` is the loop over the files behind.
    unfoldable pub after_write : Text → Stage → Rotation → Result Error Text × World → Progress
    after_write path rest r (err e, w) = (some (writing path e), r, w)
    after_write path rest r (ok before, w) =
        rest (record_file_written r path before) (report_step Rotation.files_updated w)

    unfoldable pub write_stage : List Text → Stage
    write_stage [] r w = (none, r, w)
    write_stage (path ∷ paths) r w =
        after_write path (write_stage paths) r (write_env path secret.env_key next w)

    unfoldable pub after_restart : List Text → Rotation → Result Error (Unit {0}) × World → Progress
    after_restart containers r (err e, w) = (some (restarting e), record_restarted r containers, w)
    after_restart containers r (ok _, w) =
        (none, record_restarted r containers, report_step Rotation.restarted w)

    unfoldable pub restart_stage : List Text → Stage
    restart_stage containers r w =
        if not (is_nil containers)
        then after_restart containers r (restart containers w)
        else (none, r, w)

    unfoldable pub stages : List Text → Stage
    stages containers r w =
        proceed (restart_stage containers)
          (proceed (write_stage secret.env_files) (proceed verify_stage (apply_stage r w)))

    -- The end of the pipeline: what the stages leave is compensated or recorded.
    unfoldable pub conclude : Progress → Result (RotateError Error) (Unit {0}) × World
    conclude (some cause, r, w) = compensate r rotator target cause w
    conclude (none, r, w) = let (t, w') = now w in (ok tt, audit (succeeded (record_done r) t) w')

  module _ (secret : Secret) (rotator : Rotator World Error) where
    -- Behind the generation of the new value.
    unfoldable pub after_generate :
        Target
        → List Text
        → Rotation
        → Result Error Credential × World
        → Result (RotateError Error) (Unit {0}) × World
    after_generate target containers r (err e, w) = fail r (generating e) w
    after_generate target containers r (ok next, w) = conclude secret rotator target next (
        stages secret rotator target next containers (record_generated r next)
          (report_step Rotation.generated w))

    -- Behind the lookup of the current value.
    unfoldable pub after_lookup :
        List Text → ℤ → Document → Option Credential → Call World (RotateError Error) (Unit {0})
    after_lookup containers started doc none w =
        (err (key_missing secret.env_key (primary_env_file secret)), w)
    after_lookup containers started doc (some current) w =
        after_generate (resolve_admin_password secret doc current) containers
          (record_current_value (begin_rotation secret started) current doc.snapshot)
          (generate secret.length (report_step Rotation.read w))

    unfoldable pub after_open :
        List Text
        → ℤ
        → Result Error Document × World
        → Result (RotateError Error) (Unit {0}) × World
    after_open containers started (err e, w) = (err (reading (primary_env_file secret) e), w)
    after_open containers started (ok doc, w) =
        after_lookup containers started doc (doc.lookup_key secret.env_key) w

    unfoldable pub after_resolve :
        Result Error (List Text) × World → Result (RotateError Error) (Unit {0}) × World
    after_resolve (err e, w) = (err (resolving e), w)
    after_resolve (ok containers, w) =
        let (started, w') = now w in
        after_open containers started (open_env (primary_env_file secret) w')

  unfoldable pub with_rotator :
      Secret → Result Error (Rotator World Error) → Call World (RotateError Error) (Unit {0})
  with_rotator secret (err e) w = (err (no_rotator e), w)
  with_rotator secret (ok rotator) w = after_resolve secret rotator (resolve secret.containers w)

  unfoldable pub execute : Secret → Call World (RotateError Error) (Unit {0})
  unfolding with_rotator
  execute secret w = with_rotator secret (rotator_for secret.kind) w
