-- ===== src/Domain/Strength/Score.antt =====
-- The scores of internal/domain/strength.go.
use native.Mathlib.Nat.{le_trans, pow-le-pow_left, pow-le-pow_right}
use secret_rotator.Prelude.{
  ℕ, ◌+◌, ◌^◌, ◌≤◌, ◌<◌, ◌≡◌, ◌≢◌, ◌↔◌, refl, sym, Bool, false, not, ◌&&◌, ◌||◌, any, [], ◌∷◌,
  arith, Bool-cases, inl, inr,
}
use secret_rotator.Prelude.Text.{Text, eq_text, eq_text_iff, byte_len}
use secret_rotator.Prelude.Unicode.{Tables, is_lower, is_upper, is_digit, to_lower}
use secret_rotator.Domain.Strength.{
  good, strong, is_common_default, Classes, no_classes, note_class, classes_from, weigh,
  class_count, charset_size, length_score, entropy_score, grade, audit_strength,
}

-- The four classes of characters, the first that fits.
abbrev pub is_capital : Tables → ℕ → Bool
is_capital u ch = not (is_lower u ch) && is_upper u ch

abbrev pub is_numeral : Tables → ℕ → Bool
is_numeral u ch = not (is_lower u ch) && not (is_upper u ch) && is_digit u ch

abbrev pub is_symbol : Tables → ℕ → Bool
is_symbol u ch = not (is_lower u ch) && not (is_upper u ch) && not (is_digit u ch)

-- How many classes have a character in a value.
abbrev pub variety : Tables → Text → ℕ
variety u value =
    weigh (any (is_lower u) value) 1
    + weigh (any (is_capital u) value) 1
    + weigh (any (is_numeral u) value) 1
    + weigh (any (is_symbol u) value) 1

-- The facts of a value that earns a level: long enough, and of two classes of characters.
pub record Earns (length_floor : ℕ) (u : Tables) (value : Text) : Type 0 where
  pub given : value ≢ []
  pub unknown : is_common_default (to_lower u value) ≡ false
  pub long : length_floor ≤ byte_len value
  pub varied : 2 ≤ variety u value

length_score_iff :
    (n : ℕ) → ((good ≤ length_score n) ↔ (16 ≤ n)) × ((strong ≤ length_score n) ↔ (32 ≤ n))
unfolding length_score
length_score_iff n = ground arith

entropy_score_iff :
    (c : ℕ)
    → ((good ≤ entropy_score c) ↔ (2 ^ 36 ≤ c)) × ((strong ≤ entropy_score c) ↔ (2 ^ 60 ≤ c))
unfolding entropy_score
entropy_score_iff c = ground arith

-- Each flag of the loop is set by the characters of its class.
Flags : Tables → Classes → Text → Type 0
Flags u k value =
    let r = classes_from u k value in
    (r.lower ≡ (k.lower || any (is_lower u) value))
    × (r.upper ≡ (k.upper || any (is_capital u) value))
    × (r.digit ≡ (k.digit || any (is_numeral u) value))
    × (r.symbol ≡ (k.symbol || any (is_symbol u) value))

classes_from-Flags : (u : Tables) (k : Classes) (value : Text) → Flags u k value
unfolding classes_from note_class Flags
classes_from-Flags u k [] = ground arith
classes_from-Flags u k (ch ∷ chs) =
    let ih = classes_from-Flags u (note_class u k ch) chs in ground (arith, ih)

class_count-variety :
    (u : Tables) (value : Text) → class_count (classes_from u no_classes value) ≡ variety u value
unfolding class_count Flags
class_count-variety u value =
    let flags = classes_from-Flags u no_classes value in
    rw (flags.0, flags.1, flags.2, flags.3) refl

two_classes : (k : Classes) → 2 ≤ class_count k → 36 ≤ charset_size k
unfolding class_count charset_size
two_classes k h = ground arith

-- Sixteen characters of two classes are worth more than 60 bits.
enough_bits : (k : Classes) (n : ℕ) → 2 ≤ class_count k → 16 ≤ n → 2 ^ 60 ≤ charset_size k ^ n
enough_bits k n two long =
    let wide = two_classes k two in
    let enough : 2 ^ 60 ≤ 36 ^ 16 = omega arith in
    le_trans enough (
      le_trans (pow-le-pow_left wide 16) (pow-le-pow_right {n = charset_size k} (omega arith) long))

grade_iff :
    (n : ℕ) (k : Classes)
    → ((good ≤ (grade n k).score) ↔ ((16 ≤ n) × (2 ≤ class_count k)))
      × ((strong ≤ (grade n k).score) ↔ ((32 ≤ n) × (2 ≤ class_count k)))
unfolding grade
grade_iff n k =
    ground (arith, length_score_iff n, entropy_score_iff (charset_size k ^ n), enough_bits k n)

Earns-iff :
    (level floor : ℕ) (u : Tables) (value : Text)
    → 0 < level
    → ((level ≤ (grade (byte_len value) (classes_from u no_classes value)).score)
        ↔ ((floor ≤ byte_len value) × (2 ≤ class_count (classes_from u no_classes value))))
    → ((level ≤ (audit_strength u value).score) ↔ Earns floor u value)
unfolding audit_strength
Earns-iff level floor u value pos iff =
    let count = class_count-variety u value in
    elim (Bool-cases (eq_text value [])) [
      | inl empty ↦
          rw empty
            ((λ h. absurd (omega arith)), λ e. absurd (e.given ((eq_text_iff value []).0 empty)))
      | inr some_text ↦ elim (Bool-cases (is_common_default (to_lower u value))) [
        | inl default ↦
            rw (some_text, default)
              ((λ h. absurd (omega arith)), λ e. absurd (cc (e.unknown, default)))
        | inr rare ↦
            rw (some_text, rare)
              (
                (λ h. record {
                  given = λ n. ground (arith, eq_text_iff value []);
                  unknown = rare;
                  long = (iff.0 h).0;
                  varied = rw (sym count) ((iff.0 h).1);
                }),
                λ e. iff.1 (e.long, rw count e.varied),
              )
      ]
    ]

-- A value scores at least good exactly when it is not empty, no known default, has 16 bytes and
-- characters of two of the four classes; at least strong exactly when it has 32 bytes besides. The
-- entropy decides neither: 16 characters of two classes are worth more than 60 bits.
pub audit_strength_iff :
    (u : Tables) (value : Text)
    → ((good ≤ (audit_strength u value).score) ↔ Earns 16 u value)
      × ((strong ≤ (audit_strength u value).score) ↔ Earns 32 u value)
audit_strength_iff u value =
    let g = grade_iff (byte_len value) (classes_from u no_classes value) in
    (Earns-iff good 16 u value (omega arith) g.0, Earns-iff strong 32 u value (omega arith) g.1)
