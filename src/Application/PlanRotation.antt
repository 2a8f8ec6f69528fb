-- ===== src/Application/PlanRotation.antt =====
-- internal/application/plan.go: what a rotation would do. The descriptions are constructors with the
-- values that they show.
pub mod Order
pub mod Named
pub mod Steps
use secret_rotator.Prelude.{
  List, [], ◌∷◌, ◌++◌, map, is_nil, Option, none, some, not, if◌then◌else◌,
}
use secret_rotator.Prelude.Int.{ℤ}
use secret_rotator.Prelude.Result.{Result, ok, err}
use secret_rotator.Prelude.Text.{Text}
use secret_rotator.Domain.Kind.{Kind, has_backing_service, uses_commands}
use secret_rotator.Domain.Target.{Target, effective_port, effective_target_user, Credential}
use secret_rotator.Domain.Secret.{Secret, primary_env_file}
use secret_rotator.Domain.Rotation
use secret_rotator.Domain.Rotation.{Step}
use secret_rotator.Domain.Inspection.{Document}
use secret_rotator.Application.Ports.{Rotator, Ports}

pub data Description : Type 0 where
  read_current : Text → Text → Description
  generate_value : ℤ → Description
  run_apply : List Text → Description
  run_verify : List Text → Description
  skip_verification : Description
  set_password : Text → Text → ℤ → Kind → Description
  authenticate : Text → Description
  no_service : Description
  write_key : Text → Text → Description
  restart_container : Text → Description
  no_containers : Description
  record_outcome : Description

pub record PlannedAction : Type 0 where
  pub step : Step
  pub description : Description

pub record RotationPlan : Type 0 where
  pub secret : Secret
  pub containers : List Text
  pub actions : List PlannedAction

abbrev pub action : Step → Description → PlannedAction
action step description = record { step = step; description = description }

-- The actions of a command provider.
abbrev pub command_actions : Secret → List PlannedAction
command_actions s =
    let command = s.target.command_spec in
    action Rotation.applied (run_apply command.apply_argv)
    ∷ (if not (is_nil command.verify_argv)
        then action Rotation.verified (run_verify command.verify_argv)
        else action Rotation.verified skip_verification)
    ∷ []

-- The actions of a backing service.
abbrev pub backing_actions : Secret → List PlannedAction
backing_actions s =
    let user = effective_target_user s.target in
    action Rotation.applied
      (set_password user s.target.host (effective_port s.target s.kind) s.kind)
    ∷ action Rotation.verified (authenticate user)
    ∷ []

-- The switch over the kind.
unfoldable pub service_actions : Secret → List PlannedAction
service_actions s =
    if uses_commands s.kind
    then command_actions s
    else if has_backing_service s.kind
    then backing_actions s
    else action Rotation.applied no_service ∷ []

-- The two loops, and what stands for no container.
unfoldable pub file_actions : Text → List Text → List PlannedAction
file_actions key [] = []
file_actions key (path ∷ paths) =
    action Rotation.files_updated (write_key key path) ∷ file_actions key paths

unfoldable pub restart_actions : List Text → List PlannedAction
restart_actions [] = []
restart_actions (c ∷ cs) = action Rotation.restarted (restart_container c) ∷ restart_actions cs

abbrev pub no_restart : List Text → List PlannedAction
no_restart [] = action Rotation.restarted no_containers ∷ []
no_restart (c ∷ cs) = []

unfoldable pub plan_actions : Secret → List Text → List PlannedAction
unfolding service_actions file_actions restart_actions
plan_actions s containers =
    (action Rotation.read (read_current s.env_key (primary_env_file s))
      ∷ action Rotation.generated (generate_value s.length)
      ∷ [])
    ++ (service_actions s
        ++ (file_actions s.env_key s.env_files
            ++ (restart_actions containers
                ++ (no_restart containers ++ action Rotation.done record_outcome ∷ []))))

pub data PlanError (E : Type 0) : Type 0 where
  plan_no_rotator : E → PlanError E
  plan_reading : Text → E → PlanError E
  plan_key_missing : Text → Text → PlanError E
  plan_resolving : E → PlanError E

module _ (p : Ports) where
  open p use {World, Error, rotator_for, open_env, resolve}

  abbrev pub PlanResult : Type 0
  PlanResult = Result (PlanError Error) RotationPlan × World

  unfoldable pub plan_resolved : Secret → Result Error (List Text) × World → PlanResult
  plan_resolved s (err e, w) = (err (plan_resolving e), w)
  plan_resolved s (ok containers, w) =
      (ok (record { secret = s; containers = containers; actions = plan_actions s containers }), w)

  unfoldable pub plan_found : Secret → Option Credential → World → PlanResult
  unfolding plan_resolved
  plan_found s none w = (err (plan_key_missing s.env_key (primary_env_file s)), w)
  plan_found s (some current) w = plan_resolved s (resolve s.containers w)

  unfoldable pub plan_opened : Secret → Result Error Document × World → PlanResult
  unfolding plan_found
  plan_opened s (err e, w) = (err (plan_reading (primary_env_file s) e), w)
  plan_opened s (ok doc, w) = plan_found s (doc.lookup_key s.env_key) w

  unfoldable pub plan_with : Secret → Result Error (Rotator World Error) → World → PlanResult
  unfolding plan_opened
  plan_with s (err e) w = (err (plan_no_rotator e), w)
  plan_with s (ok rotator) w = plan_opened s (open_env (primary_env_file s) w)

  -- `Build`.
  unfoldable pub build : Secret → World → PlanResult
  unfolding plan_with
  build s w = plan_with s (rotator_for s.kind) w
