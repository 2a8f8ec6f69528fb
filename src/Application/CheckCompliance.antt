-- ===== src/Application/CheckCompliance.antt =====
-- internal/application/compliance.go: the standings of all secrets.
pub mod Report
use secret_rotator.Prelude.{
  Bool, true, false, List, [], ◌∷◌, Option, none, some, is_some, if◌then◌else◌,
}
use secret_rotator.Prelude.Int.{ℤ}
use secret_rotator.Prelude.Result.{Result, ok, err}
use secret_rotator.Prelude.Text.{Text}
use secret_rotator.Domain.Secret.{Secret}
use secret_rotator.Domain.Compliance.{Standing, evaluate, needs_attention, due_for_rotation}
use secret_rotator.Application.Ports.{Call}

-- Why the history told nothing.
pub data Reason (E : Type 0) : Type 0 where
  no_history : Reason E
  unreadable : E → Reason E

pub record ComplianceReport (E : Type 0) : Type 0 where
  pub standings : List Standing
  pub history_readable : Bool
  -- The first reason, if any.
  pub reason : Option (Reason E)

-- `if report.Reason == ""`
abbrev pub first_reason : {E : Type 0} → Option (Reason E) → E → Option (Reason E)
first_reason none e = some (unreadable e)
first_reason (some r) e = some r

-- `LastSuccess`, which answers with a time and whether there is a success on record; none where
-- there is no history.
abbrev pub History : Type 0 → Type 0 → Type 0
History W E = Option (Text → Call W E (ℤ × Bool))

abbrev pub Checked : Type 0 → Type 0 → Type 0
Checked W E = List Standing × Option (Reason E) × W

abbrev pub start_reason : {W E : Type 0} → History W E → Option (Reason E)
start_reason none = some no_history
start_reason (some h) = none

module _ {W E : Type 0} where
  abbrev pub add_standing : Standing → Checked W E → Checked W E
  add_standing st (sts, reason, w) = (st ∷ sts, reason, w)

  -- The body of the loop behind the answer of the history; `rest` is the loop over the secrets
  -- behind.
  abbrev pub after_answer :
      Secret
      → ℤ
      → (Option (Reason E) → W → Checked W E)
      → Option (Reason E)
      → Result E (ℤ × Bool) × W
      → Checked W E
  after_answer s now rest reason (err e, w) =
      add_standing (evaluate s now false false now) (rest (first_reason reason e) w)
  after_answer s now rest reason (ok answer, w) =
      add_standing (evaluate s answer.0 answer.1 true now) (rest reason w)

  unfoldable pub check_loop : History W E → ℤ → List Secret → Option (Reason E) → W → Checked W E
  check_loop history now [] reason w = ([], reason, w)
  check_loop none now (s ∷ ss) reason w =
      add_standing (evaluate s now false false now) (check_loop none now ss reason w)
  check_loop (some last_success) now (s ∷ ss) reason w =
      after_answer s now (check_loop (some last_success) now ss) reason (last_success s.name w)

  abbrev pub report_of : Bool → Checked W E → ComplianceReport E × W
  report_of readable (sts, reason, w) =
      (record { standings = sts; history_readable = readable; reason = reason }, w)

  abbrev pub check_at : History W E → List Secret → ℤ × W → ComplianceReport E × W
  check_at history secrets (now, w) =
      report_of (is_some history) (check_loop history now secrets (start_reason history) w)

  -- `Execute`; the clock is an argument.
  unfoldable pub check : History W E → (W → ℤ × W) → List Secret → W → ComplianceReport E × W
  check history clock secrets w = check_at history secrets (clock w)

unfoldable pub standings_needing_attention : List Standing → List Standing
standings_needing_attention [] = []
standings_needing_attention (st ∷ sts) =
    if needs_attention st.compliance
    then st ∷ standings_needing_attention sts
    else standings_needing_attention sts

unfoldable pub secrets_due : List Standing → List Secret
secrets_due [] = []
secrets_due (st ∷ sts) =
    if due_for_rotation st then st.secret ∷ secrets_due sts else secrets_due sts
