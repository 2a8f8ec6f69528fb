-- ===== src/Scheduling/Exclusion.antt =====
-- The lock table of internal/infrastructure/scheduling/scheduler.go: in every state that the threads
-- can reach, one call at most is between TryLock and Unlock for a secret.
use secret_rotator.Prelude.{
  ℕ, ◌+◌, ==_iff, ◌≡◌, refl, sym, ap, true, false, List, [], ◌∷◌, ◌++◌, Option, none, some, arith,
  inl, inr, Bool-cases, if◌then◌else◌,
}
use secret_rotator.Prelude.Int.{ℤ}
use secret_rotator.Prelude.Result.{Result, ok, err}
use secret_rotator.Prelude.Text.{Text, eq_text, eq_text_iff}
use secret_rotator.Notifier.{Event}
use secret_rotator.Containers.Compose.Sorted.{count}
use secret_rotator.Scheduling.{
  event_of, Pc, idle, trying, rotating, notifying, leaving, System, set_lock, set_pc, Step, call,
  lock, skip, rotated, notified, unlock, init, Reach, here, later,
}

-- The secret whose lock a call holds.
abbrev pub holds : Pc → Option Text
holds idle = none
holds (trying name) = none
holds (rotating name) = some name
holds (notifying name e) = some name
holds (leaving name) = some name

-- Whether the call still has its event to send.
abbrev pub owed : Pc → ℕ
owed idle = 0
owed (trying name) = 0
owed (rotating name) = 1
owed (notifying name e) = 1
owed (leaving name) = 0

-- How many events were sent for a secret.
abbrev pub count_sent : Text → List Event → ℕ
count_sent q [] = 0
count_sent q (e ∷ es) = (if eq_text q e.secret_name then 1 else 0) + count_sent q es

count-snoc :
    (q n : Text) (xs : List Text)
    → count q (xs ++ n ∷ []) ≡ count q xs + (if eq_text q n then 1 else 0)
count-snoc q n [] = omega arith
count-snoc q n (x ∷ xs) = let e = count-snoc q n xs in omega arith

count_sent-snoc :
    (q : Text) (e : Event) (es : List Event)
    → count_sent q (es ++ e ∷ []) ≡ count_sent q es + (if eq_text q e.secret_name then 1 else 0)
count_sent-snoc q e [] = omega arith
count_sent-snoc q e (x ∷ xs) = let k = count_sent-snoc q e xs in omega arith

pub record Inv (s : System) : Type 0 where
  pub unique :
      (i j : ℕ) (name : Text) → holds (s.pc i) ≡ some name → holds (s.pc j) ≡ some name → i ≡ j
  pub held : (i : ℕ) (name : Text) → holds (s.pc i) ≡ some name → s.locked name ≡ true
  pub owned : (name : Text) → s.locked name ≡ true → (i : ℕ) × (holds (s.pc i) ≡ some name)
  pub balanced :
      (i : ℕ) (name : Text)
      → holds (s.pc i) ≡ some name
      → count name s.started ≡ count_sent name s.sent + owed (s.pc i)
  pub settled :
      (name : Text) → s.locked name ≡ false → count name s.started ≡ count_sent name s.sent
  -- A call sends the event of its own secret.
  pub own : (i : ℕ) (name : Text) (e : Event) → s.pc i ≡ notifying name e → e.secret_name ≡ name

init-Inv : Inv init
init-Inv = record {
  unique = λ i j name h k. cc;
  held = λ i name h. cc;
  owned = λ name h. cc;
  balanced = λ i name h. cc;
  settled = λ name h. refl;
  own = λ i name e h. cc;
}

-- A step that changes no lock, nor what thread `i` holds.
module _ (s : System) (h : Inv s) (i : ℕ) (p : Pc) where
  open h use {unique, held, owned, balanced, settled, own}

  quiet-Inv : holds (s.pc i) ≡ none → holds p ≡ none → Inv (record s { pc = set_pc s.pc i p })
  quiet-Inv before after = record {
    unique = λ j k name a b. ground (arith, unique j k name);
    held = λ j name a. ground (arith, held j name);
    owned = λ name a. let (j, b) = owned name a in (j, ground arith);
    balanced = λ j name a. ground (arith, balanced j name);
    settled = settled;
    own = λ j name e a. ground (arith, own j name e);
  }

  lock-Inv :
      (name : Text)
      → holds (s.pc i) ≡ none
      → s.locked name ≡ false
      → Inv (record s {
        locked = set_lock s.locked name true;
        pc = set_pc s.pc i (rotating name);
        started = s.started ++ name ∷ [];
      })
  lock-Inv name before free = record {
    unique = λ j k q a b.
        ground
          (arith, unique j k q, held j q, held k q, eq_text_iff name q, ==_iff i j, ==_iff i k);
    held = λ j q a. ground (arith, held j q, eq_text_iff name q, ==_iff i j);
    owned = λ q a. elim (Bool-cases (eq_text name q)) [
      | inl same ↦ (i, let e = (eq_text_iff name q).0 same in ground (arith, ==_iff i i))
      | inr other ↦ let (j, b) = owned q (rw other at a) in (j, ground (arith, ==_iff i j))
    ];
    balanced = λ j q a. ground (
      arith,
      balanced j q,
      settled q,
      held j q,
      count-snoc q name s.started,
      eq_text_iff name q,
      eq_text_iff q name,
      ==_iff i j,
    );
    settled = λ q a.
        ground
          (arith, settled q, count-snoc q name s.started, eq_text_iff name q, eq_text_iff q name);
    own = λ j q e a. ground (arith, own j q e, ==_iff i j);
  }

  -- A step between two places that hold the lock, and owe as much.
  kept-Inv :
      (name : Text)
      → holds (s.pc i) ≡ some name
      → holds p ≡ some name
      → owed p ≡ owed (s.pc i)
      → ((q : Text) (e : Event) → p ≡ notifying q e → e.secret_name ≡ q)
      → Inv (record s { pc = set_pc s.pc i p })
  kept-Inv name before after owes new_own = record {
    unique = λ j k q a b. ground (arith, unique j k q, ==_iff i j, ==_iff i k);
    held = λ j q a. ground (arith, held j q, ==_iff i j);
    owned = λ q a. let (j, b) = owned q a in (j, ground (arith, ==_iff i j));
    balanced = λ j q a. ground (arith, balanced j q, ==_iff i j);
    settled = settled;
    own = λ j q e a. ground (arith, own j q e, new_own q e, ==_iff i j);
  }

  notified-Inv :
      (name : Text) (e : Event)
      → s.pc i ≡ notifying name e
      → Inv (record s { pc = set_pc s.pc i (leaving name); sent = s.sent ++ e ∷ [] })
  notified-Inv name e before =
      let mine = own i name e before in
      let holding : holds (s.pc i) ≡ some name = ap holds before in
      let owes : owed (s.pc i) ≡ 1 = ap owed before in
      record {
        unique = λ j k q a b. ground (arith, unique j k q, ==_iff i j, ==_iff i k);
        held = λ j q a. ground (arith, held j q, ==_iff i j);
        owned = λ q a. let (j, b) = owned q a in (j, ground (arith, ==_iff i j));
        balanced = λ j q a. ground (
          arith,
          balanced j q,
          unique i j q,
          count_sent-snoc q e s.sent,
          eq_text_iff q e.secret_name,
          ==_iff i j,
        );
        settled = λ q a. ground (
          arith,
          settled q,
          held i name,
          count_sent-snoc q e s.sent,
          eq_text_iff q e.secret_name,
        );
        own = λ j q e a. ground (arith, own j q e, ==_iff i j);
      }

  unlock-Inv :
      (name : Text)
      → s.pc i ≡ leaving name
      → Inv (record s { locked = set_lock s.locked name false; pc = set_pc s.pc i idle })
  unlock-Inv name before =
      let holding : holds (s.pc i) ≡ some name = ap holds before in
      let owes : owed (s.pc i) ≡ 0 = ap owed before in
      record {
        unique = λ j k q a b. ground (arith, unique j k q, ==_iff i j, ==_iff i k);
        held = λ j q a. ground (arith, held j q, unique i j q, eq_text_iff name q, ==_iff i j);
        owned = λ q a.
            let (j, b) = owned q (ground arith) in
            (j, ground (arith, eq_text_iff name q, ==_iff i j));
        balanced = λ j q a. ground (arith, balanced j q, ==_iff i j);
        settled = λ q a. ground (arith, settled q, balanced i q, eq_text_iff name q);
        own = λ j q e a. ground (arith, own j q e, ==_iff i j);
      }

event_of-own :
    (q name : Text) (e : Event) (now : ℤ) (r : Result Text (Unit {0}))
    → notifying name (event_of name now r) ≡ notifying q e
    → e.secret_name ≡ q
unfolding event_of
event_of-own q name e now (ok _) h = ground arith
event_of-own q name e now (err m) h = ground arith

Step-Inv : {s t : System} → Step s t → Inv s → Inv t
Step-Inv {s} (call i name at) h = quiet-Inv s h i (trying name) (ap holds at) refl
Step-Inv {s} (lock i name at free) h = lock-Inv s h i idle name (ap holds at) free
Step-Inv {s} (skip i name at busy) h = quiet-Inv s h i idle (ap holds at) refl
Step-Inv {s} (rotated i name now r at) h =
    kept-Inv s h i (notifying name (event_of name now r)) name (ap holds at) refl (sym (ap owed at))
      (λ q e. event_of-own q name e now r)
Step-Inv {s} (notified i name e at) h = notified-Inv s h i idle name e at
Step-Inv {s} (unlock i name at) h = unlock-Inv s h i idle name at

pub Reach-Inv : {s : System} → Reach init s → Inv s
Reach-Inv here = init-Inv
Reach-Inv (later r st) = Step-Inv st (Reach-Inv r)
