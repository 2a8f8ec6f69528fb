-- ===== src/Tests/Schedule.antt =====
-- Two calls of Execute for one secret, and what a daemon loads.
use secret_rotator.Prelude.{ℕ, ◌≡◌, ◌≤◌, ◌+◌, refl, true, false, [], ◌∷◌, some, List}
use secret_rotator.Prelude.Text.{Text, codes, eq_text}
use secret_rotator.Prelude.Result.{Result, ok}
use secret_rotator.Containers.Compose.Sorted.{count}
use secret_rotator.Containers.Labels.{ScheduleLabel}
use secret_rotator.Scheduling.{
  trying, rotating, System, set_lock, set_pc, init, Reach, here, later, call, lock,
}
use secret_rotator.Scheduling.Exclusion.{holds, count_sent}
use secret_rotator.Scheduling.Release.{Releases, execute-Exclusive, lock-Released}

abbrev name : Text
name = codes "db"

-- Both have been called.
abbrev called : System
called = record init { pc = set_pc (set_pc init.pc 0 (trying name)) 1 (trying name) }

-- The first has the lock.
abbrev busy : System
busy = record {
  locked = set_lock init.locked name true;
  pc = set_pc called.pc 0 (rotating name);
  started = name ∷ [];
  sent = [];
}

init-busy : Reach init busy
init-busy = later (later (later here (call 0 name refl)) (call 1 name refl)) (lock 0 name refl refl)

execute-Exclusive_example :
    ((i j : ℕ) → holds (busy.pc i) ≡ some name → holds (busy.pc j) ≡ some name → i ≡ j)
    × (count_sent name busy.sent ≤ count name busy.started)
    × (count name busy.started ≤ count_sent name busy.sent + 1)
    × (busy.locked name ≡ false → count name busy.started ≡ count_sent name busy.sent)
execute-Exclusive_example = execute-Exclusive {s = busy} name init-busy

lock-Released_example : (i : ℕ) × (holds (busy.pc i) ≡ some name) × Releases busy i name
unfolding eq_text
lock-Released_example = lock-Released {s = busy} name init-busy refl

-- A cron that accepts every expression.
abbrev parse_cron : Text → Result (Unit {0}) (Unit {0})
parse_cron expr = ok tt

abbrev daily : ScheduleLabel
daily = record { container_name = codes "app"; secret_name = name; cron_expr = codes "@daily" }

abbrev labels : Result (Unit {0}) (List ScheduleLabel)
labels = ok (daily ∷ [])
