-- ===== src/Audit.antt =====
-- internal/infrastructure/audit: the trail that records outcomes, and the history that answers when
-- a secret was last rotated. The encrypted store behind them is the argument `Store`.
pub mod Latest
pub mod Encrypted
use secret_rotator.Prelude.{Bool, true, false, List, [], ◌∷◌, Option, none, some, if◌then◌else◌}
use secret_rotator.Prelude.Int.{ℤ, negsuc, ltb_ℤ}
use secret_rotator.Prelude.Result.{Result, ok, err}
use secret_rotator.Prelude.Text.{Text, codes, eq_text, lookup}
use secret_rotator.Domain.Rotation.{
  Step, pending, read, generated, applied, verified, files_updated, restarted, done, Outcome,
  success, failed, Record,
}
use secret_rotator.Application.Ports.{Call}

pub record HistoryEntry : Type 0 where
  pub secret_name : Text
  pub rotated_at : ℤ
  pub old_value : Text
  pub status : Text
  pub last_step : Text
  pub details : Text

-- `Outcome` and `Step.String`.
abbrev pub outcome_text : Outcome → Text
outcome_text success = codes "success"
outcome_text failed = codes "failed"

abbrev pub step_text : Step → Text
step_text pending = codes "pending"
step_text read = codes "read"
step_text generated = codes "generated"
step_text applied = codes "applied"
step_text verified = codes "verified"
step_text files_updated = codes "files_updated"
step_text restarted = codes "restarted"
step_text done = codes "done"

-- The text of the error, if there is one.
abbrev pub details_of : {C : Type 0} → (C → Text) → Option C → Text
details_of message none = []
details_of message (some c) = message c

-- The entry that `Trail.Record` appends; `message` is what an error prints.
unfoldable pub entry_of : {C : Type 0} → (C → Text) → Bool → Record C → HistoryEntry
entry_of message keep r = record {
  secret_name = r.secret_name;
  rotated_at = r.finished_at;
  old_value = (if keep then r.previous else []);
  status = outcome_text r.outcome;
  last_step = step_text r.last_step;
  details = details_of message r.details;
}

pub record Store (W E : Type 0) : Type 0 where
  pub list_entries : Call W E (List HistoryEntry)
  pub append_entry : HistoryEntry → Call W E (Unit {0})

pub record Cache : Type 0 where
  pub loaded : Bool
  pub last : List (Text × ℤ)

-- `time.Time{}`, in nanoseconds from 1970.
abbrev pub zero_time : ℤ
zero_time = negsuc 62135596799999999999

-- The body of the loop of `load`.
unfoldable pub note_entry : HistoryEntry → List (Text × ℤ) → List (Text × ℤ)
note_entry e m =
    if eq_text e.status (outcome_text success)
    then elim (lookup e.secret_name m) [
      | none ↦ (e.secret_name, e.rotated_at) ∷ m
      | some prev ↦ (if ltb_ℤ prev e.rotated_at then (e.secret_name, e.rotated_at) ∷ m else m)
    ]
    else m

unfoldable pub load_loop : List (Text × ℤ) → List HistoryEntry → List (Text × ℤ)
unfolding note_entry
load_loop m [] = m
load_loop m (e ∷ es) = load_loop (note_entry e m) es

-- What a map lookup returns.
abbrev pub answer_of : Option ℤ → ℤ × Bool
answer_of none = (zero_time, false)
answer_of (some t) = (t, true)

module _ {W E : Type 0} (store : Store W E) where
  abbrev pub after_list :
      Text → Cache → Result E (List HistoryEntry) × W → Result E (ℤ × Bool) × (Cache × W)
  after_list name c (err e, w) = (err e, (c, w))
  after_list name c (ok entries, w) =
      let last = load_loop [] entries in
      (ok (answer_of (lookup name last)), (record { loaded = true; last = last }, w))

  -- `History.LastSuccess`.
  unfoldable pub last_success : Text → Call (Cache × W) E (ℤ × Bool)
  unfolding load_loop
  last_success name (c, w) =
      if c.loaded
      then (ok (answer_of (lookup name c.last)), (c, w))
      else after_list name c (store.list_entries w)

  abbrev pub uncached : {A : Type 0} → Result E A × W → Result E A × (Cache × W)
  uncached (r, w) = (r, (record { loaded = false; last = [] }, w))

  -- `History.Record`.
  unfoldable pub record_outcome :
      {C : Type 0} → (C → Text) → Bool → Record C → Call (Cache × W) E (Unit {0})
  unfolding entry_of
  record_outcome message keep r (c, w) = uncached (store.append_entry (entry_of message keep r) w)
