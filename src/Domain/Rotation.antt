-- ===== src/Domain/Rotation.antt =====
-- internal/domain/rotation.go: one attempt at rotating a secret, with the journal from which the
-- compensation plan is derived. A snapshot is never nil: it comes from a read of the file.
use secret_rotator.Prelude.{
  ℕ, leb, ltb, not, ◌&&◌, List, [], ◌∷◌, ◌++◌, is_nil, Option, none, some, if◌then◌else◌,
}
use secret_rotator.Prelude.Int.{ℤ}
use secret_rotator.Prelude.Text.{Text, lookup}
use secret_rotator.Domain.Kind.{Kind, has_backing_service}
use secret_rotator.Domain.Target.{Credential}
use secret_rotator.Domain.Secret.{Secret, primary_env_file}

pub data Step : Type 0 where
  pending read generated applied verified files_updated restarted done : Step

-- The number of a step, by `iota`.
abbrev pub rank : Step → ℕ
rank pending = 0
rank read = 1
rank generated = 2
rank applied = 3
rank verified = 4
rank files_updated = 5
rank restarted = 6
rank done = 7

pub data Outcome : Type 0 where
  success failed : Outcome

pub record Rotation : Type 0 where
  pub secret : Secret
  pub step : Step
  pub started_at : ℤ
  pub previous : Credential
  pub next : Credential
  pub file_backups : List (Text × Text)
  pub written_files : List Text
  pub restarted_refs : List Text

unfoldable pub begin_rotation : Secret → ℤ → Rotation
begin_rotation secret started_at = record {
  secret = secret;
  step = pending;
  started_at = started_at;
  previous = [];
  next = [];
  file_backups = [];
  written_files = [];
  restarted_refs = [];
}

unfoldable pub advance : Rotation → Step → Rotation
advance r to = if ltb (rank r.step) (rank to) then record r { step = to } else r

unfoldable pub record_current_value : Rotation → Credential → Text → Rotation
unfolding advance
record_current_value r current primary_snapshot =
    advance
      (record r {
        previous = current;
        file_backups = (primary_env_file r.secret, primary_snapshot) ∷ r.file_backups;
      })
      read

unfoldable pub record_generated : Rotation → Credential → Rotation
unfolding advance
record_generated r next = advance (record r { next = next }) generated

unfoldable pub record_applied : Rotation → Rotation
unfolding advance
record_applied r = advance r applied

unfoldable pub record_verified : Rotation → Rotation
unfolding advance
record_verified r = advance r verified

-- The backup of a path that has none yet.
unfoldable pub add_backup : Text → Text → List (Text × Text) → List (Text × Text)
add_backup path snapshot backups = elim (lookup path backups) [
  | none ↦ (path, snapshot) ∷ backups
  | some _ ↦ backups
]

unfoldable pub record_file_written : Rotation → Text → Text → Rotation
unfolding advance
record_file_written r path snapshot =
    advance
      (record r {
        file_backups = add_backup path snapshot r.file_backups;
        written_files = r.written_files ++ path ∷ [];
      })
      files_updated

unfoldable pub record_restarted : Rotation → List Text → Rotation
unfolding advance
record_restarted r containers = advance (record r { restarted_refs = containers }) restarted

unfoldable pub record_done : Rotation → Rotation
unfolding advance
record_done r = advance r done

pub data CompensationAction : Type 0 where
  restore_file : Text → Text → CompensationAction
  restart_containers : List Text → CompensationAction
  restore_credential : CompensationAction

-- The loop over the written files.
unfoldable pub restore_files : List (Text × Text) → List Text → List CompensationAction
restore_files backups [] = []
restore_files backups (path ∷ paths) = elim (lookup path backups) [
  | none ↦ restore_files backups paths
  | some snapshot ↦ restore_file path snapshot ∷ restore_files backups paths
]

unfoldable pub compensation_plan : Rotation → List CompensationAction
unfolding restore_files
compensation_plan r =
    if ltb (rank r.step) (rank generated)
    then []
    else restore_files r.file_backups r.written_files
      ++ ((if leb (rank restarted) (rank r.step) && not (is_nil r.restarted_refs)
            then restart_containers r.restarted_refs ∷ []
            else [])
          ++ (if leb (rank applied) (rank r.step) && has_backing_service r.secret.kind
              then restore_credential ∷ []
              else []))

-- The audit entry; `details` holds the error where Go keeps its message.
pub record Record (E : Type 0) : Type 0 where
  pub secret_name : Text
  pub kind : Kind
  pub started_at : ℤ
  pub finished_at : ℤ
  pub outcome : Outcome
  pub last_step : Step
  pub previous : Credential
  pub details : Option E

module _ {E : Type 0} where
  unfoldable pub succeeded : Rotation → ℤ → Record E
  succeeded r finished_at = record {
    secret_name = r.secret.name;
    kind = r.secret.kind;
    started_at = r.started_at;
    finished_at = finished_at;
    outcome = success;
    last_step = r.step;
    previous = r.previous;
    details = none;
  }

  unfoldable pub failed_record : Rotation → ℤ → Option E → Record E
  failed_record r finished_at cause = record {
    secret_name = r.secret.name;
    kind = r.secret.kind;
    started_at = r.started_at;
    finished_at = finished_at;
    outcome = failed;
    last_step = r.step;
    previous = r.previous;
    details = cause;
  }
