-- ===== src/Cli/Commands/Daemon.antt =====
-- What `runDaemon` of internal/interfaces/cli/daemon.go has loaded when it starts.
use secret_rotator.Prelude.{ℕ, ◌+◌, ◌<◌, ◌≡◌, false, List, ◌&&◌, Bool, length, ltb, not}
use secret_rotator.Prelude.Result.{Result, ok, err}
use secret_rotator.Prelude.Text.{Text}
use secret_rotator.Domain.Secret.{Secret}
use secret_rotator.Containers.Labels.{ScheduleLabel}
use secret_rotator.Scheduling.{Loaded}
use secret_rotator.Cli.Commands.Idle.{Unscheduled, Unlabelled, Idle}
use secret_rotator.Cli.Commands.{
  DaemonError, nothing_to_do, no_history, in_config, in_labels, Plan, policies,
}

module _ {E : Type 0} (parse_cron : Text → Result E (Unit {0})) where
  -- An error is that of an expression that cron rejects.
  abbrev pub Rejects : Result E (Unit {0}) → Type 0
  Rejects (ok _) = Unit
  Rejects (err e) = (expr : Text) × (parse_cron expr ≡ err e)

  -- As many entries were added as were counted, from `n` of them and `k` entries on.
  abbrev pub Counts : ℕ → ℕ → Loaded parse_cron → Type 0
  Counts n k l = (l.0.0 + k ≡ n + length l.1) × Rejects l.0.1

  module _ (secrets : List Secret) (has_history : Bool) where
    -- A daemon that starts has something to do, and a history if it evaluates policies; the number of
    -- rotations that it reports is that of its cron entries. One that does not start has nothing to
    -- do, has policies but no history, or an expression that cron rejects.
    abbrev pub Prepared :
        {L : Type 0} → Result L (List ScheduleLabel) → Result (DaemonError E) Plan → Type 0
    Prepared labels (ok (entries, (scheduled, with_policy))) =
        (scheduled ≡ length entries)
        × (with_policy ≡ policies secrets)
        × (0 < scheduled + with_policy)
        × ((ltb 0 with_policy && not has_history) ≡ false)
    Prepared labels (err nothing_to_do) =
        (policies secrets ≡ 0) × Unscheduled secrets × Unlabelled secrets labels
    Prepared labels (err (no_history with_policy)) =
        (with_policy ≡ policies secrets) × (0 < with_policy) × (has_history ≡ false)
    Prepared labels (err (in_config e)) = (expr : Text) × (parse_cron expr ≡ err e)
    Prepared labels (err (in_labels e)) = (expr : Text) × (parse_cron expr ≡ err e)
