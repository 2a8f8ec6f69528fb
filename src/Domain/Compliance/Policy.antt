-- ===== src/Domain/Compliance/Policy.antt =====
-- The standings of internal/domain/policy.go.
use secret_rotator.Prelude.{◌≡◌, ◌↔◌, Bool, true, false, arith}
use secret_rotator.Prelude.Int.{
  ℤ, pos, ◌+ℤ◌, ◌-ℤ◌, ◌≤ℤ◌, ltb_ℤ, min_int64, max_int64, +ℤ_parts, -ℤ_parts, wrap64_range,
}
use secret_rotator.Domain.MaxAge.{is_set}
use secret_rotator.Domain.Secret.{Secret}
use secret_rotator.Domain.Compliance.{compliant, due, sub_time, age_of, evaluate}

-- Neither the saturation nor the clamp of the age decides about a policy of this range.
age_of_iff :
    (m last now : ℤ)
    → ltb_ℤ m max_int64 ≡ true
    → pos 1 ≤ℤ m
    → (ltb_ℤ m (age_of last true now) ≡ false) ↔ (now ≤ℤ last +ℤ m)
unfolding age_of sub_time
age_of_iff m last now fits set = ground (arith, -ℤ_parts now last, +ℤ_parts last m)

-- For a policy of less than the greatest duration, a standing is compliant exactly when the policy
-- is of at least one nanosecond, the history was readable, a rotation is on record and now is no
-- later than the last rotation with the policy added, in unbounded arithmetic: neither the
-- saturation of time.Sub nor the clamp of a negative age decides.
pub evaluate-compliant_iff :
    (s : Secret) (last : ℤ) (rotated readable : Bool) (now : ℤ)
    → ltb_ℤ s.max_age max_int64 ≡ true
    → ((evaluate s last rotated readable now).compliance ≡ compliant)
      ↔ ((pos 1 ≤ℤ s.max_age) × (readable ≡ true) × (rotated ≡ true) × (now ≤ℤ last +ℤ s.max_age))
unfolding evaluate is_set
evaluate-compliant_iff s last rotated readable now fits =
    ground (arith, age_of_iff s.max_age last now fits)

-- The saturated difference of two times is an int64.
sub_time_range : (t u : ℤ) → (min_int64 ≤ℤ sub_time t u) × (sub_time t u ≤ℤ max_int64)
unfolding sub_time
sub_time_range t u = ground (arith, -ℤ_parts t u)

age_of_range :
    (last : ℤ) (rotated : Bool) (now : ℤ)
    → (pos 0 ≤ℤ age_of last rotated now) × (age_of last rotated now ≤ℤ max_int64)
unfolding age_of
age_of_range last rotated now = ground (arith, sub_time_range now last)

is_set-pos : (m : ℤ) → is_set m ≡ true → ltb_ℤ (pos 0) m ≡ true
unfolding is_set
is_set-pos m h = h

age_of_mono : (last now later : ℤ) → now ≤ℤ later → age_of last true now ≤ℤ age_of last true later
unfolding age_of sub_time
age_of_mono last now later h = ground (arith, -ℤ_parts now last, -ℤ_parts later last)

-- An overdue standing is overdue by exactly its age less the policy, a positive amount: the int64
-- subtraction does not wrap.
pub evaluate-overdue_by :
    (s : Secret) (last : ℤ) (rotated readable : Bool) (now : ℤ)
    → (evaluate s last rotated readable now).compliance ≡ due
    → ((evaluate s last rotated readable now).overdue_by ≡ age_of last rotated now -ℤ s.max_age)
      × (ltb_ℤ (pos 0) (evaluate s last rotated readable now).overdue_by ≡ true)
unfolding evaluate
evaluate-overdue_by s last rotated readable now h =
    let age = age_of last rotated now in
    ground (
      arith,
      age_of_range last rotated now,
      -ℤ_parts age s.max_age,
      wrap64_range (age -ℤ s.max_age),
      is_set-pos s.max_age,
    )

-- With a readable history and a rotation on record, a secret that is overdue at one time is
-- overdue at every later time.
pub evaluate-due_mono :
    (s : Secret) (last : ℤ) (now later : ℤ)
    → now ≤ℤ later
    → (evaluate s last true true now).compliance ≡ due
    → (evaluate s last true true later).compliance ≡ due
unfolding evaluate
evaluate-due_mono s last now later h d = ground (arith, age_of_mono last now later h)
