-- ===== src/Domain/Compliance.antt =====
-- internal/domain/policy.go, lines 113-195: the standing of a secret against its maximum age.
-- A point in time is a number of nanoseconds since some epoch.
pub mod Policy
use secret_rotator.Prelude.{Bool, true, false, not, ◌||◌, if◌then◌else◌}
use secret_rotator.Prelude.Int.{ℤ, pos, ◌-ℤ◌, ltb_ℤ, max_int64, min_int64, wrap64}
use secret_rotator.Domain.MaxAge.{is_set}
use secret_rotator.Domain.Secret.{Secret}

pub data Compliance : Type 0 where
  compliant due never_rotated no_policy unknown : Compliance

unfoldable pub needs_attention : Compliance → Bool
needs_attention due = true
needs_attention never_rotated = true
needs_attention unknown = true
needs_attention _ = false

pub record Standing : Type 0 where
  pub secret : Secret
  pub last_rotated : ℤ
  pub has_rotated : Bool
  pub age : ℤ
  pub overdue_by : ℤ
  pub compliance : Compliance

-- `Time.Sub`: the difference, or the nearest Duration if it does not fit one.
unfoldable pub sub_time : ℤ → ℤ → ℤ
sub_time t u =
    let d = t -ℤ u in
    if ltb_ℤ max_int64 d then max_int64 else if ltb_ℤ d min_int64 then min_int64 else d

-- The age in the standing before the switch.
unfoldable pub age_of : ℤ → Bool → ℤ → ℤ
age_of last false now = pos 0
age_of last true now = let age = sub_time now last in if ltb_ℤ age (pos 0) then pos 0 else age

unfoldable pub evaluate : Secret → ℤ → Bool → Bool → ℤ → Standing
evaluate s last has_rotated history_readable now =
    let standing : Standing = record {
      secret = s;
      last_rotated = last;
      has_rotated = has_rotated;
      age = age_of last has_rotated now;
      overdue_by = pos 0;
      compliance = compliant;
    } in
    if not (is_set s.max_age)
    then record standing { compliance = no_policy }
    else if not history_readable
    then record standing { compliance = unknown }
    else if not has_rotated
    then record standing { compliance = never_rotated }
    else if ltb_ℤ s.max_age standing.age
    then record standing { compliance = due; overdue_by = wrap64 (standing.age -ℤ s.max_age) }
    else standing

abbrev pub is_due : Compliance → Bool
is_due due = true
is_due never_rotated = true
is_due _ = false

unfoldable pub due_for_rotation : Standing → Bool
due_for_rotation st = is_due st.compliance
