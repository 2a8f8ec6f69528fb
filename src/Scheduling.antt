-- ===== src/Scheduling.antt =====
-- internal/infrastructure/scheduling: the calls of Scheduler.Execute that run side by side, as a step
-- relation, and what registers and starts them. A thread is a number; the cron entries and the
-- policy runner may call Execute in any thread at any time. What cron accepts is an argument.

pub mod Exclusion
pub mod Release
use secret_rotator.Prelude.{
  ℕ, zero, suc, ◌==◌, ◌≡◌, Bool, true, false, not, ◌&&◌, List, [], ◌∷◌, ◌++◌, if◌then◌else◌,
}
use secret_rotator.Prelude.Int.{ℤ, pos, ltb_ℤ}
use secret_rotator.Prelude.Result.{Result, ok, err}
use secret_rotator.Prelude.Text.{Text, codes, eq_text}
use secret_rotator.Domain.Secret.{Secret}
use secret_rotator.Notifier.{Event}
use secret_rotator.Containers.Labels.{ScheduleLabel}

-- The event that Execute sends for how the rotation ended; an error is its text.
unfoldable pub event_of : Text → ℤ → Result Text (Unit {0}) → Event
event_of name now (ok _) = record {
  secret_name = name;
  status = codes "success";
  details = [];
  timestamp = now;
}
event_of name now (err message) = record {
  secret_name = name;
  status = codes "failed";
  details = message;
  timestamp = now;
}

-- Where a call of Execute stands, with its local variables.
pub data Pc : Type 0 where
  idle : Pc
  trying : Text → Pc  -- before TryLock
  rotating : Text → Pc  -- behind it, with the lock
  notifying : Text → Event → Pc
  leaving : Text → Pc  -- before the deferred Unlock

-- The locks that are held, the threads, the rotations that were started and the events that were
-- sent, the latest last.
pub record System : Type 0 where
  pub locked : Text → Bool
  pub pc : ℕ → Pc
  pub started : List Text
  pub sent : List Event

abbrev pub set_lock : (Text → Bool) → Text → Bool → Text → Bool
set_lock m k b q = if eq_text k q then b else m q

abbrev pub set_pc : (ℕ → Pc) → ℕ → Pc → ℕ → Pc
set_pc m i p j = if i == j then p else m j

-- One step of one thread. A rotation returns what it returns, and a failed notification is only
-- logged.
pub data Step (s : System) : System → Type 0 where
  call :
      (i : ℕ) (name : Text) → s.pc i ≡ idle → Step s (record s { pc = set_pc s.pc i (trying name) })
  lock :
      (i : ℕ) (name : Text)
      → s.pc i ≡ trying name
      → s.locked name ≡ false
      → Step s (record s {
        locked = set_lock s.locked name true;
        pc = set_pc s.pc i (rotating name);
        started = s.started ++ name ∷ [];
      })
  skip :
      (i : ℕ) (name : Text)
      → s.pc i ≡ trying name
      → s.locked name ≡ true
      → Step s (record s { pc = set_pc s.pc i idle })
  rotated :
      (i : ℕ) (name : Text) (now : ℤ) (r : Result Text (Unit {0}))
      → s.pc i ≡ rotating name
      → Step s (record s { pc = set_pc s.pc i (notifying name (event_of name now r)) })
  notified :
      (i : ℕ) (name : Text) (e : Event)
      → s.pc i ≡ notifying name e
      → Step s (record s { pc = set_pc s.pc i (leaving name); sent = s.sent ++ e ∷ [] })
  unlock :
      (i : ℕ) (name : Text)
      → s.pc i ≡ leaving name
      → Step s (record s { locked = set_lock s.locked name false; pc = set_pc s.pc i idle })

-- A new scheduler: `newLockTable` holds no lock.
abbrev pub init : System
init = record { locked = λ _. false; pc = λ _. idle; started = []; sent = [] }

pub data Reach (s : System) : System → Type 0 where
  here : Reach s s
  later : {t u : System} → Reach s t → Step t u → Reach s u

-- A cron entry: the expression and the secret that its job rotates.
abbrev pub Entry : Type 0
Entry = Text × Secret

-- `AddFunc` of cron adds an entry or rejects the expression.
module _ {E : Type 0} (parse_cron : Text → Result E (Unit {0})) where
  abbrev pub added :
      List Entry → Secret → Text → Result E (Unit {0}) → Result E (Unit {0}) × List Entry
  added entries secret expr (err e) = (err e, entries)
  added entries secret expr (ok _) = (ok tt, entries ++ (expr, secret) ∷ [])

  -- `AddJob`.
  unfoldable pub add_job : Secret → Text → List Entry → Result E (Unit {0}) × List Entry
  add_job secret expr entries = added entries secret expr (parse_cron expr)

  -- The count so far, with the error that ended the loop, if any.
  abbrev pub Loaded : Type 0
  Loaded = (ℕ × Result E (Unit {0})) × List Entry

  abbrev pub counted : ℕ → (ℕ → List Entry → Loaded) → Result E (Unit {0}) × List Entry → Loaded
  counted n rest (err e, entries) = ((n, err e), entries)
  counted n rest (ok _, entries) = rest (suc n) entries

  -- `LoadFromConfig`.
  unfoldable pub load_from_config : List Secret → ℕ → List Entry → Loaded
  unfolding add_job
  load_from_config [] n entries = ((n, ok tt), entries)
  load_from_config (s ∷ ss) n entries =
      if not (eq_text s.schedule [])
      then counted n (load_from_config ss) (add_job s s.schedule entries)
      else load_from_config ss n entries

  -- The inner loop of `LoadFromLabels`, with what comes behind it. A label that names a secret is
  -- done behind the first secret of that name.
  unfoldable pub label_loop :
      ScheduleLabel → (ℕ → List Entry → Loaded) → List Secret → ℕ → List Entry → Loaded
  unfolding add_job
  label_loop l rest [] n entries = rest n entries
  label_loop l rest (s ∷ ss) n entries =
      if not (eq_text l.secret_name []) && not (eq_text l.secret_name s.name)
      then label_loop l rest ss n entries
      else if not (eq_text l.secret_name [])
      then counted n rest (add_job s l.cron_expr entries)
      else counted n (label_loop l rest ss) (add_job s l.cron_expr entries)

  -- `LoadFromLabels`.
  unfoldable pub load_from_labels : List ScheduleLabel → List Secret → ℕ → List Entry → Loaded
  unfolding label_loop
  load_from_labels [] secrets n entries = ((n, ok tt), entries)
  load_from_labels (l ∷ ls) secrets n entries =
      label_loop l (load_from_labels ls secrets) secrets n entries

module _ {W E : Type 0} (due : W → Result E (List Secret) × W) (cancelled : W → Bool)
    (execute : Secret → W → W) where
  -- The loop of the policy runner's `evaluate`, which stops where the context is done.
  unfoldable pub due_loop : List Secret → W → W
  due_loop [] w = w
  due_loop (s ∷ ss) w = elim (cancelled w) [ true ↦ w | false ↦ due_loop ss (execute s w) ]

  abbrev pub after_due : Result E (List Secret) × W → W
  after_due (err e, w) = w
  after_due (ok secrets, w) = due_loop secrets w

  -- `PolicyRunner.evaluate`.
  unfoldable pub evaluate_policies : W → W
  unfolding due_loop
  evaluate_policies w = after_due (due w)

  -- `PolicyRunner.Run`, for as many ticks as come before the context is done.
  unfoldable pub run_policies : ℕ → W → W
  unfolding evaluate_policies
  run_policies zero w = evaluate_policies w
  run_policies (suc ticks) w = evaluate_policies (run_policies ticks w)

-- `NewPolicyRunner`: an interval that is not positive is an hour.
abbrev pub policy_interval : ℤ → ℤ
policy_interval interval = if ltb_ℤ (pos 0) interval then interval else pos 3600000000000
