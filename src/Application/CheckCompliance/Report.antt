-- ===== src/Application/CheckCompliance/Report.antt =====
-- The standings of a report of internal/application/compliance.go, against the history.
use secret_rotator.Prelude.{
  ◌≡◌, ◌⊎◌, refl, Bool, true, false, List, [], ◌∷◌, map, Option, none, some, arith, inl, inr,
}
use secret_rotator.Prelude.Int.{ℤ, ltb_ℤ}
use secret_rotator.Prelude.Result.{Result, ok, err}
use secret_rotator.Domain.MaxAge.{is_set}
use secret_rotator.Domain.Secret.{Secret}
use secret_rotator.Domain.Compliance.{Standing, age_of, evaluate, needs_attention}
use secret_rotator.Application.CheckCompliance.{
  Reason, first_reason, add_standing, History, Checked, after_answer, check_loop, start_reason,
  check_at, check, standings_needing_attention,
}

abbrev pub secret_of : Standing → Secret
secret_of st = st.secret

evaluate-secret :
    (s : Secret) (last : ℤ) (rotated readable : Bool) (now : ℤ)
    → (evaluate s last rotated readable now).secret ≡ s
unfolding evaluate
evaluate-secret s last rotated readable now = ground arith

-- A standing that needs no attention is without a policy, or of a rotation on record that is no
-- older than the policy allows.
evaluate-clear :
    (s : Secret) (last : ℤ) (rotated readable : Bool) (now : ℤ)
    → needs_attention (evaluate s last rotated readable now).compliance ≡ false
    → (is_set s.max_age ≡ false)
      ⊎ ((readable ≡ true) × (rotated ≡ true) × (ltb_ℤ s.max_age (age_of last rotated now) ≡ false))
unfolding evaluate needs_attention
evaluate-clear s last rotated readable now h = ground arith

Clear-cons :
    (st : Standing) (sts : List Standing)
    → standings_needing_attention (st ∷ sts) ≡ []
    → (needs_attention st.compliance ≡ false) × (standings_needing_attention sts ≡ [])
unfolding standings_needing_attention
Clear-cons st sts h = ground arith

-- The policy of a secret, if it has one, is met by an answer of the history.
abbrev pub IsMet : {E : Type 0} → Secret → ℤ → Result E (ℤ × Bool) → Type 0
IsMet s now answer =
    (is_set s.max_age ≡ false)
    ⊎ ((last : ℤ) × (answer ≡ ok (last, true)) × (ltb_ℤ s.max_age (age_of last true now) ≡ false))

unreadable-unset :
    (s : Secret) (now : ℤ)
    → needs_attention (evaluate s now false false now).compliance ≡ false
    → is_set s.max_age ≡ false
unreadable-unset s now h = elim (evaluate-clear s now false false now h) [
  | inl unset ↦ unset
  | inr (readable, _, _) ↦ absurd (cc)
]

answered-IsMet :
    {E : Type 0} (s : Secret) (now last : ℤ) (rotated : Bool)
    → needs_attention (evaluate s last rotated true now).compliance ≡ false
    → IsMet {E = E} s now (ok (last, rotated))
answered-IsMet s now last true h = elim (evaluate-clear s last true true now h) [
  | inl unset ↦ inl unset
  | inr (_, _, young) ↦ inr (last, refl, young)
]
answered-IsMet s now last false h = elim (evaluate-clear s last false true now h) [
  | inl unset ↦ inl unset
  | inr (_, rotated, _) ↦ absurd (cc)
]

module _ {W E : Type 0} where
  -- The history is asked for one secret after the other, from `w` on.
  abbrev pub AllMet : History W E → ℤ → List Secret → W → Type 0
  AllMet history now [] w = Unit
  AllMet none now (s ∷ ss) w = (is_set s.max_age ≡ false) × AllMet none now ss w
  AllMet (some last_success) now (s ∷ ss) w =
      IsMet s now (last_success s.name w).0
      × AllMet (some last_success) now ss (last_success s.name w).1

  -- What holds of checked secrets if no standing needs attention.
  abbrev Sound : List Secret → Type 0 → Checked W E → Type 0
  Sound ss P c = (map secret_of c.0 ≡ ss) × (standings_needing_attention c.0 ≡ [] → P)

  Sound-cons :
      {P Q : Type 0} (s : Secret) (ss : List Secret) (st : Standing) (c : Checked W E)
      → st.secret ≡ s
      → (needs_attention st.compliance ≡ false → P)
      → Sound ss Q c
      → Sound (s ∷ ss) (P × Q) (add_standing st c)
  Sound-cons s ss st (sts, reason, w) e met (secrets, rest) = (
    rw (e, secrets) refl,
    λ h. let (first, others) = Clear-cons st sts h in (met first, rest others),
  )

  after_answer-Sound :
      (Q : W → Type 0) (s : Secret) (now : ℤ) (ss : List Secret)
      (rest : Option (Reason E) → W → Checked W E) (reason : Option (Reason E))
      (x : Result E (ℤ × Bool) × W)
      → ((reason : Option (Reason E)) (w : W) → Sound ss (Q w) (rest reason w))
      → Sound (s ∷ ss) (IsMet s now x.0 × Q x.1) (after_answer s now rest reason x)
  after_answer-Sound Q s now ss rest reason (err e, w) ih =
      Sound-cons s ss _ (rest (first_reason reason e) w) (evaluate-secret s now false false now)
        (λ h. inl (unreadable-unset s now h)) (ih (first_reason reason e) w)
  after_answer-Sound Q s now ss rest reason (ok (last, rotated), w) ih =
      Sound-cons s ss _ (rest reason w) (evaluate-secret s last rotated true now)
        (answered-IsMet s now last rotated) (ih reason w)

  check_loop-Sound :
      (history : History W E) (now : ℤ) (ss : List Secret) (reason : Option (Reason E)) (w : W)
      → Sound ss (AllMet history now ss w) (check_loop history now ss reason w)
  unfolding check_loop
  check_loop-Sound history now [] reason w = (refl, λ h. tt)
  check_loop-Sound none now (s ∷ ss) reason w =
      Sound-cons s ss _ (check_loop none now ss reason w) (evaluate-secret s now false false now)
        (unreadable-unset s now) (check_loop-Sound none now ss reason w)
  check_loop-Sound (some f) now (s ∷ ss) reason w =
      after_answer-Sound (AllMet (some f) now ss) s now ss (check_loop (some f) now ss) reason
        (f s.name w) (λ r w'. check_loop-Sound (some f) now ss r w')

  check_at-Sound :
      (history : History W E) (ss : List Secret) (x : ℤ × W)
      → (map secret_of (check_at history ss x).0.standings ≡ ss)
        × (standings_needing_attention (check_at history ss x).0.standings ≡ []
            → AllMet history x.0 ss x.1)
  check_at-Sound history ss (now, w) = check_loop-Sound history now ss (start_reason history) w

  -- A compliance report has exactly one standing for each secret, in the order of the secrets.
  pub check-secrets :
      (history : History W E) (clock : W → ℤ × W) (ss : List Secret) (w : W)
      → map secret_of (check history clock ss w).0.standings ≡ ss
  unfolding check
  check-secrets history clock ss w = (check_at-Sound history ss (clock w)).0

  -- If no standing of a compliance report needs attention, then every secret has no policy, or the
  -- history, asked for one secret after the other in their order from the reading of the clock on,
  -- answered for it with a successful rotation that is no older at that time than the policy
  -- allows; without a history, no secret has a policy.
  pub check-AllMet :
      (history : History W E) (clock : W → ℤ × W) (ss : List Secret) (w : W)
      → standings_needing_attention (check history clock ss w).0.standings ≡ []
      → AllMet history (clock w).0 ss (clock w).1
  unfolding check
  check-AllMet history clock ss w h = (check_at-Sound history ss (clock w)).1 h
