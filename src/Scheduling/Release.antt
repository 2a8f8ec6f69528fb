-- ===== src/Scheduling/Release.antt =====
-- What the lock table of internal/infrastructure/scheduling/scheduler.go is worth: rotations of a
-- secret do not overlap, each sends its event, and no lock stays behind.
use secret_rotator.Prelude.{
  ℕ, ◌+◌, ◌≤◌, ◌==◌, ==_iff, ◌≡◌, refl, ap, ◌∙◌, Bool, true, false, none, some, arith, inl, inr,
  Bool-cases,
}
use secret_rotator.Prelude.Int.{pos}
use secret_rotator.Prelude.Result.{ok}
use secret_rotator.Prelude.Text.{Text, eq_text, eq_text_refl}
use secret_rotator.Notifier.{Event}
use secret_rotator.Containers.Compose.Sorted.{count}
use secret_rotator.Scheduling.{
  event_of, Pc, idle, trying, rotating, notifying, leaving, System, set_lock, set_pc, Step, rotated,
  notified, unlock, init, Reach, here, later,
}
use secret_rotator.Scheduling.Exclusion.{holds, owed, count_sent, Inv, Reach-Inv}

-- In every state that calls of Execute can reach, side by side and in any order of their steps, at
-- most one thread holds the lock of a secret; as many events were sent for the secret as rotations
-- were started, or one fewer, and as many whenever its lock is free.
pub execute-Exclusive :
    {s : System} (name : Text)
    → Reach init s
    → ((i j : ℕ) → holds (s.pc i) ≡ some name → holds (s.pc j) ≡ some name → i ≡ j)
      × (count_sent name s.sent ≤ count name s.started)
      × (count name s.started ≤ count_sent name s.sent + 1)
      × (s.locked name ≡ false → count name s.started ≡ count_sent name s.sent)
execute-Exclusive {s} name r =
    let inv = Reach-Inv r in
    let (low, high) = bounds inv in (λ i j. inv.unique i j name, low, high, inv.settled name)
  where
    owed_le : (p : Pc) → owed p ≤ 1
    owed_le idle = omega arith
    owed_le (trying n) = omega arith
    owed_le (rotating n) = omega arith
    owed_le (notifying n e) = omega arith
    owed_le (leaving n) = omega arith

    bounds :
        Inv s
        → (count_sent name s.sent ≤ count name s.started)
          × (count name s.started ≤ count_sent name s.sent + 1)
    bounds inv = elim (Bool-cases (s.locked name)) [
      | inl busy ↦
          let (i, h) = inv.owned name busy in
          let e = inv.balanced i name h in let k = owed_le (s.pc i) in (omega arith, omega arith)
      | inr free ↦ let e = inv.settled name free in (omega arith, omega arith)
    ]

after : {s u t : System} → Step s u → Reach u t → Reach s t
after st here = later here st
after st (later r st') = later (after st r) st'

-- Steps of thread `i` alone release the lock.
abbrev pub Releases : System → ℕ → Text → Type 0
Releases s i name =
    (t : System) × Reach s t
    × (t.locked name ≡ false)
    × ((q : Text) → eq_text name q ≡ false → t.locked q ≡ s.locked q)
    × ((j : ℕ) → (i == j) ≡ false → t.pc j ≡ s.pc j)

at_self : (m : ℕ → Pc) (i : ℕ) (p : Pc) → set_pc m i p i ≡ p
at_self m i p = rw ((==_iff i i).1 refl) refl

leaving-Releases : (s : System) (i : ℕ) (name : Text) → s.pc i ≡ leaving name → Releases s i name
leaving-Releases s i name h = (
  record s { locked = set_lock s.locked name false; pc = set_pc s.pc i idle },
  later here (unlock i name h),
  rw (eq_text_refl name) refl,
  λ q e. rw e refl,
  λ j e. rw e refl,
)

step-Releases :
    (s : System) (i : ℕ) (name : Text) (p : Pc) (u : System)
    → Step s u
    → u.locked ≡ s.locked
    → u.pc ≡ set_pc s.pc i p
    → Releases u i name
    → Releases s i name
step-Releases s i name p u st locks pcs (t, r, free, others, threads) = (
  t,
  after st r,
  free,
  λ q e. others q e ∙ ap (λ (l : Text → Bool). l q) locks,
  λ j e. threads j e ∙ ap (λ (m : ℕ → Pc). m j) pcs ∙ (rw e refl),
)

notifying-Releases :
    (s : System) (i : ℕ) (name : Text) (e : Event) → s.pc i ≡ notifying name e → Releases s i name
notifying-Releases s i name e h =
    step-Releases s i name (leaving name) _ (notified i name e h) refl refl
      (leaving-Releases _ i name (at_self s.pc i (leaving name)))

rotating-Releases : (s : System) (i : ℕ) (name : Text) → s.pc i ≡ rotating name → Releases s i name
rotating-Releases s i name h =
    let e = event_of name (pos 0) (ok tt) in
    step-Releases s i name (notifying name e) _ (rotated i name (pos 0) (ok tt) h) refl refl
      (notifying-Releases _ i name e (at_self s.pc i (notifying name e)))

holder-Releases :
    (s : System) (i : ℕ) (name : Text) (p : Pc)
    → s.pc i ≡ p
    → holds p ≡ some name
    → Releases s i name
holder-Releases s i name idle h k = let clash : none ≡ some name = k in absurd (cc)
holder-Releases s i name (trying n) h k = let clash : none ≡ some name = k in absurd (cc)
holder-Releases s i name (rotating n) h k =
    let e : n ≡ name = cc in rotating-Releases s i name (h ∙ ap rotating e)
holder-Releases s i name (notifying n ev) h k =
    let e : n ≡ name = cc in
    notifying-Releases s i name ev (h ∙ ap (λ (x : Text). notifying x ev) e)
holder-Releases s i name (leaving n) h k =
    let e : n ≡ name = cc in leaving-Releases s i name (h ∙ ap leaving e)

-- In every state that calls of Execute can reach, a lock that is held is held by some thread, and
-- steps of that thread alone lead to a state where the lock is free, with every other lock and
-- every other thread as before.
pub lock-Released :
    {s : System} (name : Text)
    → Reach init s
    → s.locked name ≡ true
    → (i : ℕ) × (holds (s.pc i) ≡ some name) × Releases s i name
lock-Released {s} name r h =
    let (i, k) = (Reach-Inv r).owned name h in (i, k, holder-Releases s i name (s.pc i) refl k)
