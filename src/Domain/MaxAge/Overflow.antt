-- ===== src/Domain/MaxAge/Overflow.antt =====
-- ParseMaxAge of internal/domain/policy.go on numbers of days whose nanoseconds do not fit an
-- int64.
use secret_rotator.Prelude.{
  ℕ, ◌+◌, ◌-◌, ◌*◌, ◌≤◌, ◌<◌, ltb, ◌≡◌, true, [], ◌∷◌, ◌++◌, Option, arith,
}
use secret_rotator.Prelude.Int.{ℤ, pos, wrap64, wrap64-pos, zero-+ℤ}
use secret_rotator.Prelude.Decimal.{
  is_decimal, print, print-IsDecimal, print-cons, atoi_digits-print,
}
use secret_rotator.Prelude.Result.{ok}
use secret_rotator.Prelude.Text.{Text, eq_text}
use secret_rotator.Domain.MaxAge.{
  day, duration_units, consume, consume_extended_units, add_remainder, parse_max_age,
}
use secret_rotator.Domain.MaxAge.Parse.{
  consume-digits, trim_space-number, number_ne_nil, day-IsUnit,
}

wrap64-high :
    (m : ℕ)
    → 18446744073709551616 ≤ m
    → m < 27670116110564327424
    → wrap64 (pos m) ≡ pos (m - 18446744073709551616)
unfolding wrap64
wrap64-high m h k = ground arith

consume-day_wraps :
    (start : Text) (n : ℕ)
    → n ≤ 9223372036854775807
    → 18446744073709551616 ≤ n * day
    → n * day < 27670116110564327424
    → consume (pos 0) start (print n) (b'd' ∷ []) ≡ ok (pos (n * day - 18446744073709551616), [])
unfolding consume duration_units is_decimal
consume-day_wraps start n fits low high =
    let (d, s, e) = print-cons n in
    let small : n * day - 18446744073709551616 ≤ 9223372036854775807 = omega arith in
    rw (
      atoi_digits-print n fits,
      wrap64-high (n * day) low high,
      zero-+ℤ,
      wrap64-pos (n * day - 18446744073709551616) small,
      e,
    )

-- A number of days between 213504 and 320255 is accepted as a policy of its nanoseconds less 2^64.
pub parse_max_age-wraps :
    (pd : Text → Option ℤ) (n : ℕ)
    → 213504 ≤ n
    → n ≤ 320255
    → parse_max_age pd (print n ++ b'd' ∷ []) ≡ ok (pos (n * day - 18446744073709551616))
unfolding parse_max_age consume_extended_units add_remainder eq_text
parse_max_age-wraps pd n p q =
    let number = print n ++ b'd' ∷ [] in
    let positive : ltb 0 (n * day - 18446744073709551616 + 0) ≡ true = ground arith in
    rw (
      trim_space-number n b'd' day-IsUnit.1,
      number_ne_nil n b'd',
      consume-digits (pos 0) number [] (print n) (b'd' ∷ []) (print-IsDecimal n),
      consume-day_wraps number n (omega arith) (omega arith) (omega arith),
      positive,
    )
