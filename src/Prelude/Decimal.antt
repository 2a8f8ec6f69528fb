-- ===== src/Prelude/Decimal.antt =====
-- Decimal numbers: `%d` of package `fmt`, and `strconv.Atoi` on a text of digits.
use secret_rotator.Prelude.{
  ℕ, zero, suc, ◌+◌, ◌-◌, ◌*◌, ◌/◌, ◌%◌, ◌≤◌, ◌<◌, ◌≡◌, refl, ltb, leb, Bool, true, ◌&&◌, [], ◌∷◌,
  ◌++◌, Option, none, some, arith, inl, inr, Bool-cases, All, if◌then◌else◌,
}
use secret_rotator.Prelude.Int.{ℤ, pos}
use secret_rotator.Prelude.Text.{Text}

unfoldable pub is_decimal : ℕ → Bool
is_decimal c = leb b'0' c && leb c b'9'

-- The number that a text of digits shows, behind the digits read before.
unfoldable pub value_from : ℕ → Text → ℕ
value_from n [] = n
value_from n (c ∷ cs) = value_from (n * 10 + (c - b'0')) cs

-- `strconv.Atoi` on a text of digits: it fails if the number is no int64.
unfoldable pub atoi_digits : Text → Option ℤ
atoi_digits s = let n = value_from 0 s in if leb n 9223372036854775807 then some (pos n) else none

-- The digits of a number; it has fewer of them than `n + 1`.
unfoldable pub print_fuel : ℕ → ℕ → Text
print_fuel zero n = []
print_fuel (suc f) n =
    let front = print_fuel f (n / 10) in
    if ltb n 10 then (b'0' + n) ∷ [] else front ++ (b'0' + n % 10) ∷ []

unfoldable pub print : ℕ → Text
unfolding print_fuel
print n = print_fuel (suc n) n

value_from-append :
    (n : ℕ) (s : Text) (c : ℕ) → value_from n (s ++ c ∷ []) ≡ value_from n s * 10 + (c - b'0')
unfolding value_from
value_from-append n [] c = refl
value_from-append n (d ∷ s) c = value_from-append (n * 10 + (d - b'0')) s c

value_from-print_fuel : (f n : ℕ) → n < f → value_from 0 (print_fuel f n) ≡ n
unfolding print_fuel
value_from-print_fuel zero n h = elim h [ ]
value_from-print_fuel (suc f) n h = elim (Bool-cases (ltb n 10)) [
  | inl small ↦ rw small (unfold value_from in omega arith)
  | inr large ↦ rw (large, value_from-append) (ground (arith, value_from-print_fuel f (n / 10)))
]

-- Printing and reading back gives the number.
pub value_from-print : (n : ℕ) → value_from 0 (print n) ≡ n
unfolding print
value_from-print n = value_from-print_fuel (suc n) n (omega arith)

abbrev pub IsDecimal : ℕ → Type 0
IsDecimal c = is_decimal c ≡ true

IsDecimal-append : (s : Text) (c : ℕ) → All IsDecimal s → IsDecimal c → All IsDecimal (s ++ c ∷ [])
IsDecimal-append [] c a h = (h, tt)
IsDecimal-append (d ∷ s) c (x, a) h = (x, IsDecimal-append s c a h)

digit-IsDecimal : (n : ℕ) → n < 10 → IsDecimal (b'0' + n)
unfolding is_decimal
digit-IsDecimal n h = ground arith

print_fuel-IsDecimal : (f n : ℕ) → All IsDecimal (print_fuel f n)
unfolding print_fuel
print_fuel-IsDecimal zero n = tt
print_fuel-IsDecimal (suc f) n = elim (Bool-cases (ltb n 10)) [
  | inl small ↦ rw small (digit-IsDecimal n (ground arith), tt)
  | inr large ↦ rw large (
      IsDecimal-append _ _ (print_fuel-IsDecimal f (n / 10))
        (digit-IsDecimal (n % 10) (omega arith)))
]

pub print-IsDecimal : (n : ℕ) → All IsDecimal (print n)
unfolding print
print-IsDecimal n = print_fuel-IsDecimal (suc n) n

-- The print of a number is not empty.
pub print-cons : (n : ℕ) → (c : ℕ) × (s : Text) × (print n ≡ c ∷ s)
unfolding print print_fuel
print-cons n = elim (Bool-cases (ltb n 10)) [
  | inl small ↦ (b'0' + n, [], rw small)
  | inr large ↦ rw large (cons_of _ (b'0' + n % 10))
]
  where
    cons_of : (s : Text) (c : ℕ) → (d : ℕ) × (r : Text) × ((s ++ c ∷ []) ≡ d ∷ r)
    cons_of [] c = (c, [], refl)
    cons_of (x ∷ s) c = (x, s ++ c ∷ [], refl)

-- `Atoi` reads back what `%d` printed, in range.
pub atoi_digits-print : (n : ℕ) → n ≤ 9223372036854775807 → atoi_digits (print n) ≡ some (pos n)
unfolding atoi_digits
atoi_digits-print n h = rw value_from-print (ground arith)
