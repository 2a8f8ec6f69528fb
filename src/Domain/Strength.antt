-- ===== src/Domain/Strength.antt =====
-- internal/domain/strength.go, with `CommonDefaults` of patterns.go. The entropy of a value,
-- `length * log2(charset)`, is kept as the number of texts that it is the logarithm of,
-- `charset ^ length`, so that `entropy < k` is `charset ^ length < 2 ^ k`.
pub mod Score
use Prim.Native.Nat.{min}
use secret_rotator.Prelude.{
  ℕ, ◌+◌, ◌^◌, ltb, leb, ◌==◌, Bool, true, false, ◌||◌, List, [], ◌∷◌, ◌++◌, any, if◌then◌else◌,
}
use secret_rotator.Prelude.Text.{Text, codes, eq_text, byte_len}
use secret_rotator.Prelude.Unicode.{Tables, is_lower, is_upper, is_digit, to_lower}

-- `Strength`, an int: weak 0, fair 1, good 2, strong 3.
abbrev pub weak : ℕ
weak = 0

abbrev pub fair : ℕ
fair = 1

abbrev pub good : ℕ
good = 2

abbrev pub strong : ℕ
strong = 3

pub data Issue : Type 0 where
  empty_value common_default limited_variety too_short : Issue

pub record StrengthResult : Type 0 where
  pub score : ℕ
  pub combinations : ℕ
  pub length : ℕ
  pub issues : List Issue

abbrev pub common_defaults : List Text
common_defaults =
    codes "changeme"
    ∷ codes "password"
    ∷ codes "password1"
    ∷ codes "password123"
    ∷ codes "secret"
    ∷ codes "admin"
    ∷ codes "root"
    ∷ codes "default"
    ∷ codes "test"
    ∷ codes "example"
    ∷ codes "12345678"
    ∷ codes "123456789"
    ∷ codes "1234567890"
    ∷ codes "qwerty"
    ∷ codes "letmein"
    ∷ codes "welcome"
    ∷ codes "monkey"
    ∷ codes "master"
    ∷ codes "dragon"
    ∷ codes "login"
    ∷ codes "abc123"
    ∷ codes "passw0rd"
    ∷ codes "p@ssw0rd"
    ∷ codes "p@ssword"
    ∷ codes "trustno1"
    ∷ codes "iloveyou"
    ∷ codes "sunshine"
    ∷ codes "princess"
    ∷ codes "football"
    ∷ codes "shadow"
    ∷ []

unfoldable pub is_common_default : Text → Bool
is_common_default s = any (eq_text s) common_defaults

-- The four flags of the loop over the characters.
pub record Classes : Type 0 where
  pub lower : Bool
  pub upper : Bool
  pub digit : Bool
  pub symbol : Bool

abbrev pub no_classes : Classes
no_classes = record { lower = false; upper = false; digit = false; symbol = false }

module _ (u : Tables) where
  unfoldable pub note_class : Classes → ℕ → Classes
  note_class k ch =
      if is_lower u ch
      then record k { lower = true }
      else if is_upper u ch
      then record k { upper = true }
      else if is_digit u ch
      then record k { digit = true }
      else record k { symbol = true }

  unfoldable pub classes_from : Classes → Text → Classes
  classes_from k [] = k
  classes_from k (ch ∷ chs) = classes_from (note_class k ch) chs

abbrev pub weigh : Bool → ℕ → ℕ
weigh b n = if b then n else 0

unfoldable pub class_count : Classes → ℕ
class_count k = weigh k.lower 1 + weigh k.upper 1 + weigh k.digit 1 + weigh k.symbol 1

unfoldable pub charset_size : Classes → ℕ
charset_size k = weigh k.lower 26 + weigh k.upper 26 + weigh k.digit 10 + weigh k.symbol 32

unfoldable pub length_score : ℕ → ℕ
length_score n =
    if ltb n 8 then weak else if ltb n 16 then fair else if ltb n 32 then good else strong

-- The thresholds are 28, 36 and 60 bits.
unfoldable pub entropy_score : ℕ → ℕ
entropy_score c =
    if ltb c (2 ^ 28)
    then weak
    else if ltb c (2 ^ 36)
    then fair
    else if ltb c (2 ^ 60)
    then good
    else strong

-- The score and the issues of a value that is neither empty nor a known default.
unfoldable pub grade : ℕ → Classes → StrengthResult
grade n k =
    let combinations = charset_size k ^ n in
    let base = min (length_score n) (entropy_score combinations) in
    let limited = ltb (class_count k) 2 in
    record {
      score = (if limited then min base fair else base);
      combinations = combinations;
      length = n;
      issues =
          (if limited then limited_variety ∷ [] else [])
          ++ (if ltb n 8 then too_short ∷ [] else []);
    }

unfoldable pub audit_strength : Tables → Text → StrengthResult
unfolding classes_from
audit_strength u value =
    if eq_text value []
    then record { score = weak; combinations = 1; length = 0; issues = empty_value ∷ [] }
    else if is_common_default (to_lower u value)
    then record {
      score = weak;
      combinations = 1;
      length = byte_len value;
      issues = common_default ∷ [];
    }
    else grade (byte_len value) (classes_from u no_classes value)
