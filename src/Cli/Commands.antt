-- ===== src/Cli/Commands.antt =====
-- `runRotate` of internal/interfaces/cli/rotate.go, and from daemon.go what `runDaemon` sets up: the
-- rotation that its scheduler runs, the schedules, the secrets that are due, and the interval.
pub mod Idle
pub mod Daemon
pub mod Harmless
use secret_rotator.Prelude.{
  ℕ, ◌+◌, ◌==◌, Bool, true, false, not, ◌&&◌, List, [], ◌∷◌, is_nil, length, ltb, Option, none,
  some, if◌then◌else◌,
}
use secret_rotator.Prelude.Int.{ℤ, pos, ltb_ℤ}
use secret_rotator.Prelude.Result.{Result, ok, err}
use secret_rotator.Prelude.Text.{Text, eq_text}
use secret_rotator.Domain.MaxAge
use secret_rotator.Domain.Secret.{Secret}
use secret_rotator.Application.Ports.{Call, Ports}
use secret_rotator.Application.Calls.{renamed}
use secret_rotator.Application.Rotate.{RotateError, execute}
use secret_rotator.Application.PlanRotation.{RotationPlan, PlanError, build}
use secret_rotator.Application.CheckCompliance.{Reason, ComplianceReport, secrets_due}
use secret_rotator.Containers.Compose.Topo.{Deps}
use secret_rotator.Containers.Labels.{ScheduleLabel}
use secret_rotator.Config.{Config, Paths, find_secret}
use secret_rotator.Config.Discover.{MissingConfig, require_secrets}
use secret_rotator.Scheduling.{Entry, Loaded, load_from_config, load_from_labels}
use secret_rotator.Cli.Order.{apply_dependency_order}

pub data CliError (E : Type 0) : Type 0 where
  no_secrets : MissingConfig → CliError E
  secret_not_found : Text → CliError E
  no_compose_file : CliError E
  no_docker : E → CliError E
  rotating_failed : RotateError E → CliError E
  planning_failed : PlanError E → CliError E

-- What `runRotate` prints: the plan, or that the secret was rotated.
pub data Printed : Type 0 where
  planned : RotationPlan → Printed
  rotated : Secret → Printed

module _ (p : Ports) where
  open p use {World, Error}

  abbrev pub rotated_by :
      Secret
      → Result (RotateError Error) (Unit {0}) × World
      → Result (CliError Error) Printed × World
  rotated_by secret (err e, w) = (err (rotating_failed e), w)
  rotated_by secret (ok _, w) = (ok (rotated secret), w)

  abbrev pub planned_by :
      Result (PlanError Error) RotationPlan × World → Result (CliError Error) Printed × World
  planned_by (err e, w) = (err (planning_failed e), w)
  planned_by (ok plan, w) = (ok (planned plan), w)

  -- Behind `newRuntime`, whose result is the argument.
  abbrev pub with_runtime :
      Bool → Secret → Result Error (Unit {0}) × World → Result (CliError Error) Printed × World
  with_runtime dry_run secret (err e, w) = (err (no_docker e), w)
  with_runtime true secret (ok _, w) = planned_by (build p secret w)
  with_runtime false secret (ok _, w) = rotated_by secret (execute p secret w)

module _ (p : Ports) {L : Type 0} (paths : Paths) (load : Text → Result L Deps) where
  open p use {World, Error}

  module _ (new_runtime : Call World Error (Unit {0})) (dry_run : Bool) (config : Config) where
    abbrev pub with_ordered : Option Secret → Call World (CliError Error) Printed
    with_ordered none w = (err no_compose_file, w)
    with_ordered (some secret) w = with_runtime p dry_run secret (new_runtime w)

    abbrev pub with_found : Text → Option Secret → Call World (CliError Error) Printed
    with_found name none w = (err (secret_not_found name), w)
    with_found name (some secret) w =
        with_ordered (apply_dependency_order paths load config secret) w

    abbrev pub with_config : Text → Option MissingConfig → Call World (CliError Error) Printed
    with_config name (some missing) w = (err (no_secrets missing), w)
    with_config name none w = with_found name (find_secret config.secrets name) w

    -- `runRotate`.
    unfoldable pub run_rotate : Text → Call World (CliError Error) Printed
    run_rotate name = with_config name (require_secrets config)

  abbrev pub rotate_ordered : Option Secret → Call World (CliError Error) (Unit {0})
  rotate_ordered none w = (err no_compose_file, w)
  rotate_ordered (some secret) w = renamed (λ e. rotating_failed e) (execute p secret w)

  -- `rotateFn` of the daemon.
  unfoldable pub rotate_fn : Config → Secret → Call World (CliError Error) (Unit {0})
  rotate_fn config secret = rotate_ordered (apply_dependency_order paths load config secret)

-- The closure `due` of the daemon; a report that was not readable has a reason.
unfoldable pub due_of : {E : Type 0} → ComplianceReport E → Result (Option (Reason E)) (List Secret)
due_of report =
    if not report.history_readable then err report.reason else ok (secrets_due report.standings)

unfoldable pub policies : List Secret → ℕ
policies [] = 0
policies (s ∷ ss) = (if MaxAge.is_set s.max_age then 1 else 0) + policies ss

pub data DaemonError (E : Type 0) : Type 0 where
  in_config : E → DaemonError E
  in_labels : E → DaemonError E
  nothing_to_do : DaemonError E
  no_history : ℕ → DaemonError E

-- The cron entries, how many rotations are scheduled, and how many policies are evaluated.
abbrev pub Plan : Type 0
Plan = List Entry × (ℕ × ℕ)

module _ {E : Type 0} (parse_cron : Text → Result E (Unit {0})) (secrets : List Secret)
    (has_history : Bool) where
  abbrev pub ready : ℕ → List Entry → Result (DaemonError E) Plan
  ready scheduled entries =
      let with_policy = policies secrets in
      if scheduled == 0 && (with_policy == 0)
      then err nothing_to_do
      else if ltb 0 with_policy && not has_history
      then err (no_history with_policy)
      else ok (entries, (scheduled, with_policy))

  abbrev pub after_labels : ℕ → Loaded parse_cron → Result (DaemonError E) Plan
  after_labels scheduled ((n, err e), entries) = err (in_labels e)
  after_labels scheduled ((n, ok _), entries) = ready (scheduled + n) entries

  -- Labels that cannot be read are only logged.
  abbrev pub with_labels :
      {L : Type 0} → Result L (List ScheduleLabel) → ℕ → List Entry → Result (DaemonError E) Plan
  with_labels (err e) scheduled entries = ready scheduled entries
  with_labels (ok labels) scheduled entries =
      if is_nil labels
      then ready scheduled entries
      else after_labels scheduled (load_from_labels parse_cron labels secrets 0 entries)

  abbrev pub after_config :
      {L : Type 0} → Result L (List ScheduleLabel) → Loaded parse_cron → Result (DaemonError E) Plan
  after_config labels ((n, err e), entries) = err (in_config e)
  after_config labels ((n, ok _), entries) = with_labels labels n entries

  -- What `runDaemon` loads before it starts; the labels are as `readScheduleLabels` returned them.
  unfoldable pub prepare_daemon :
      {L : Type 0} → Result L (List ScheduleLabel) → Result (DaemonError E) Plan
  prepare_daemon labels = after_config labels (load_from_config parse_cron secrets 0 [])

abbrev pub default_policy_interval : ℤ
default_policy_interval = pos 3600000000000

-- `policyInterval`, of what ROTATOR_POLICY_INTERVAL holds.
unfoldable pub interval_from : (Text → Option ℤ) → Text → ℤ
interval_from parse_duration raw =
    if eq_text raw [] then default_policy_interval else elim (parse_duration raw) [
      | none ↦ default_policy_interval
      | some d ↦ (if ltb_ℤ (pos 0) d then d else default_policy_interval)
    ]
