-- ===== src/Domain/MaxAge/Parse.antt =====
-- ParseMaxAge and MaxAge.String of internal/domain/policy.go.
use secret_rotator.Prelude.{
  ℕ, ◌+◌, ◌*◌, ◌/◌, ◌%◌, ◌≤◌, ◌<◌, ◌==◌, ltb, ◌≡◌, ◌⊎◌, refl, ◌∙◌, ap, subst, true, false, [], ◌∷◌,
  ◌++◌, append-nil, append_assoc, Option, some, arith, All, Bool-cases, inl, inr,
}
use secret_rotator.Prelude.Int.{ℤ, pos, ltb_ℤ, wrap64-pos, zero-+ℤ}
use secret_rotator.Prelude.Decimal.{
  is_decimal, IsDecimal, print, print-IsDecimal, print-cons, atoi_digits-print,
}
use secret_rotator.Prelude.Result.{ok, bind-eq-ok}
use secret_rotator.Prelude.Text.{Text, eq_text, eq_text_iff, trim_space, is_space}
use secret_rotator.Prelude.Text.Trim.{trim_space_lem}
use secret_rotator.Domain.MaxAge.{
  day, week, duration_units, consume, consume_extended_units, is_set, add_remainder, parse_max_age,
  to_string,
}

-- An accepted age is no age, of a blank text, or positive.
pub parse_max_age-pos :
    (parse_duration : Text → Option ℤ) (raw : Text) {m : ℤ}
    → parse_max_age parse_duration raw ≡ ok m
    → ((trim_space raw ≡ []) × (m ≡ pos 0)) ⊎ (ltb_ℤ (pos 0) m ≡ true)
unfolding parse_max_age
parse_max_age-pos pd raw {m} h = elim (Bool-cases (eq_text (trim_space raw) [])) [
  | inl blank ↦ ground (arith, blank, eq_text_iff (trim_space raw) [])
  | inr given ↦
      let (c, consumed, h') =
        bind-eq-ok (consume_extended_units (trim_space raw)) _ (rw given at h) in
      let (total, added, h'') = bind-eq-ok (add_remainder pd raw c.0 c.1) _ h' in inr (ground arith)
]

-- Reading digits, in front of anything.
pub consume-digits :
    (total : ℤ) (start digits more rest : Text)
    → All IsDecimal more
    → consume total start digits (more ++ rest) ≡ consume total start (digits ++ more) rest
unfolding consume
consume-digits total start digits [] rest h = rw append-nil
consume-digits total start digits (c ∷ more) rest (d, h) = rw d (
    consume-digits total start (digits ++ c ∷ []) more rest h
    ∙ ap (λ t. consume total start t rest) (append_assoc digits (c ∷ []) more))

-- One group of digits and a unit, and nothing behind it.
consume-unit :
    (start : Text) (n c unit : ℕ)
    → is_decimal c ≡ false
    → duration_units c ≡ some unit
    → n ≤ 9223372036854775807
    → n * unit ≤ 9223372036854775807
    → consume (pos 0) start (print n) (c ∷ []) ≡ ok (pos (n * unit), [])
unfolding consume
consume-unit start n c unit h k fits fits' =
    let (d, s, e) = print-cons n in
    rw (
      h,
      k,
      atoi_digits-print n fits,
      wrap64-pos (n * unit) fits',
      zero-+ℤ,
      wrap64-pos (n * unit) fits',
      e,
    )

abbrev pub IsUnit : ℕ → ℕ → Type 0
IsUnit c unit = (is_decimal c ≡ false) × (is_space c ≡ false) × (duration_units c ≡ some unit)

decimal_no_space : (c : ℕ) → IsDecimal c → is_space c ≡ false
unfolding is_decimal is_space
decimal_no_space c h = ground arith

pub trim_space-number :
    (n c : ℕ) → is_space c ≡ false → trim_space (print n ++ c ∷ []) ≡ print n ++ c ∷ []
trim_space-number n c h =
    let (d, s, e) = print-cons n in
    let first : IsDecimal d = (subst (All IsDecimal) e (print-IsDecimal n)).0 in
    rw e (trim_space_lem d s c (decimal_no_space d first) h)

pub number_ne_nil : (n c : ℕ) → eq_text (print n ++ c ∷ []) [] ≡ false
unfolding eq_text
number_ne_nil n c = let (d, s, e) = print-cons n in rw e

-- A number of days or weeks that fits a Duration is read exactly.
pub parse_max_age-unit :
    (pd : Text → Option ℤ) (n c unit : ℕ)
    → IsUnit c unit
    → 0 < n
    → 0 < unit
    → n * unit ≤ 9223372036854775807
    → parse_max_age pd (print n ++ c ∷ []) ≡ ok (pos (n * unit))
unfolding parse_max_age consume_extended_units add_remainder eq_text
parse_max_age-unit pd n c unit (h, k, e) p q fits =
    let number = print n ++ c ∷ [] in
    let positive : ltb 0 (n * unit + 0) ≡ true = grind arith in
    rw (
      trim_space-number n c k,
      number_ne_nil n c,
      consume-digits (pos 0) number [] (print n) (c ∷ []) (print-IsDecimal n),
      consume-unit number n c unit h e (grind arith) fits,
      positive,
    )

pub day-IsUnit : IsUnit b'd' day
unfolding is_decimal is_space duration_units
day-IsUnit = (refl, refl, refl)

week-IsUnit : IsUnit b'w' week
unfolding is_decimal is_space duration_units
week-IsUnit = (refl, refl, refl)

is_set_lem : (m : ℕ) → 0 < m → is_set (pos m) ≡ true
unfolding is_set
is_set_lem m h = ground arith

to_string-weeks :
    (pr : ℤ → Text) (m : ℕ)
    → 0 < m
    → (m % week == 0) ≡ true
    → to_string pr (pos m) ≡ print (m / week) ++ b'w' ∷ []
unfolding to_string
to_string-weeks pr m p h = rw (is_set_lem m p, h)

to_string-days :
    (pr : ℤ → Text) (m : ℕ)
    → 0 < m
    → (m % week == 0) ≡ false
    → (m % day == 0) ≡ true
    → to_string pr (pos m) ≡ print (m / day) ++ b'd' ∷ []
unfolding to_string
to_string-days pr m p h k = rw (is_set_lem m p, h, k)

-- A policy of a whole positive number of days that fits an int64 of nanoseconds is printed and
-- parsed back unchanged.
pub parse_max_age-to_string :
    (pd : Text → Option ℤ) (pr : ℤ → Text) (m : ℕ)
    → 0 < m
    → m ≤ 9223372036854775807
    → (m % day == 0) ≡ true
    → parse_max_age pd (to_string pr (pos m)) ≡ ok (pos m)
parse_max_age-to_string pd pr m p fits h = elim (Bool-cases (m % week == 0)) [
  | inl weeks ↦
      let e : m / week * week ≡ m = ground arith in
      ap (parse_max_age pd) (to_string-weeks pr m p weeks)
      ∙ parse_max_age-unit pd (m / week) b'w' week week-IsUnit (ground arith) (omega arith)
          (omega arith)
      ∙ ap (λ n. ok (pos n)) e
  | inr days ↦
      let e : m / day * day ≡ m = ground arith in
      ap (parse_max_age pd) (to_string-days pr m p days h)
      ∙ parse_max_age-unit pd (m / day) b'd' day day-IsUnit (ground arith) (omega arith)
          (omega arith)
      ∙ ap (λ n. ok (pos n)) e
]
