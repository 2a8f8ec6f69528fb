-- ===== src/Domain/MaxAge.antt =====
-- internal/domain/policy.go, lines 11-111: the maximum age of a credential, in nanoseconds.
-- `time.ParseDuration` and `Duration.String`, which read and print what is no whole number of
-- days, are the arguments `parse_duration` and `print_duration`.
pub mod Parse
pub mod Overflow
use secret_rotator.Prelude.{
  ℕ, zero, suc, ◌+◌, ◌-◌, ◌*◌, ◌/◌, ◌%◌, ◌==◌, Bool, true, false, not, List, [], ◌∷◌, ◌++◌, is_nil,
  Option, none, some, if◌then◌else◌,
}
use secret_rotator.Prelude.Int.{ℤ, pos, negsuc, pos_part, ◌+ℤ◌, ltb_ℤ, wrap64}
use secret_rotator.Prelude.Decimal.{is_decimal, atoi_digits, print}
use secret_rotator.Prelude.Result.{Result, ok, err, ◌>>=◌}
use secret_rotator.Prelude.Text.{Text, codes, eq_text, trim_space}
use secret_rotator.Domain.Errors.{
  Invalid, max_age_not_duration, max_age_number, max_age_not_positive,
}

abbrev pub no_max_age : ℤ
no_max_age = pos 0

abbrev pub day : ℕ
day = 86400000000000

abbrev pub week : ℕ
week = 604800000000000

-- The map `durationUnits`.
unfoldable pub duration_units : ℕ → Option ℕ
duration_units c = if c == b'd' then some day else if c == b'w' then some week else none

-- `Duration(n) * unit` in 64 bits.
abbrev pub times64 : ℤ → ℕ → ℤ
times64 (pos n) unit = wrap64 (pos (n * unit))
times64 (negsuc n) unit = wrap64 (negsuc (suc n * unit - 1))

-- `consumeExtendedUnits`. The two loops are one recursion over the text: `start` is the `s` of the
-- outer loop, and `digits` are those that the inner loop has passed.
unfoldable pub consume : ℤ → Text → Text → Text → Result Invalid (ℤ × Text)
consume total start digits [] = ok (total, start)
consume total start digits (c ∷ cs) =
    let next_digit = consume total start (digits ++ c ∷ []) cs in
    if is_decimal c
    then next_digit
    else if is_nil digits
    then ok (total, start)
    else elim (duration_units c) [
      | none ↦ ok (total, start)
      | some unit ↦ elim (atoi_digits digits) [
        | none ↦ err (max_age_number start)
        | some n ↦ consume (wrap64 (total +ℤ times64 n unit)) cs [] cs
      ]
    ]

unfoldable pub consume_extended_units : Text → Result Invalid (ℤ × Text)
unfolding consume
consume_extended_units s = consume (pos 0) s [] s

unfoldable pub is_set : ℤ → Bool
is_set m = ltb_ℤ (pos 0) m

module _ (parse_duration : Text → Option ℤ) where
  -- The total with what `time.ParseDuration` makes of the rest.
  unfoldable pub add_remainder : Text → ℤ → Text → Result Invalid ℤ
  add_remainder raw total remainder =
      if eq_text remainder [] then ok total else elim (parse_duration remainder) [
        | none ↦ err (max_age_not_duration raw)
        | some parsed ↦ ok (wrap64 (total +ℤ parsed))
      ]

  unfoldable pub parse_max_age : Text → Result Invalid ℤ
  unfolding consume_extended_units add_remainder
  parse_max_age raw =
      let trimmed = trim_space raw in
      if eq_text trimmed []
      then ok no_max_age
      else consume_extended_units trimmed >>= λ c. add_remainder raw c.0 c.1 >>= λ total.
          if ltb_ℤ (pos 0) total then ok total else err (max_age_not_positive raw)

module _ (print_duration : ℤ → Text) where
  unfoldable pub to_string : ℤ → Text
  unfolding is_set
  to_string m =
      if not (is_set m)
      then codes "none"
      else if pos_part m % week == 0
      then print (pos_part m / week) ++ codes "w"
      else if pos_part m % day == 0
      then print (pos_part m / day) ++ codes "d"
      else print_duration m
