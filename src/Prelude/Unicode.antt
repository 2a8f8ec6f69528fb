-- ===== src/Prelude/Unicode.antt =====
-- Package `unicode`. Its tables beyond ASCII are a parameter; up to 127 they are written out.
use secret_rotator.Prelude.{ℕ, ◌+◌, ◌-◌, Bool, ◌&&◌, leb, ltb, if◌then◌else◌, map}
use secret_rotator.Prelude.Text.{Text}

pub record Tables : Type 0 where
  pub lower_beyond : ℕ → Bool
  pub upper_beyond : ℕ → Bool
  pub digit_beyond : ℕ → Bool
  pub to_lower_beyond : ℕ → ℕ
  pub to_upper_beyond : ℕ → ℕ

abbrev pub within : ℕ → ℕ → ℕ → Bool
within lo hi c = leb lo c && leb c hi

module _ (u : Tables) where
  unfoldable pub is_lower : ℕ → Bool
  is_lower c = if ltb c 128 then within b'a' b'z' c else u.lower_beyond c

  unfoldable pub is_upper : ℕ → Bool
  is_upper c = if ltb c 128 then within b'A' b'Z' c else u.upper_beyond c

  unfoldable pub is_digit : ℕ → Bool
  is_digit c = if ltb c 128 then within b'0' b'9' c else u.digit_beyond c

  -- `strings.ToLower` and `strings.ToUpper` map each character.
  unfoldable pub to_lower : Text → Text
  to_lower =
      map
        (λ c. if ltb c 128 then (if within b'A' b'Z' c then c + 32 else c) else u.to_lower_beyond c)

  unfoldable pub to_upper : Text → Text
  to_upper =
      map
        (λ c. if ltb c 128 then (if within b'a' b'z' c then c - 32 else c) else u.to_upper_beyond c)

-- Tables for texts in ASCII.
abbrev pub ascii : Tables
ascii = record {
  lower_beyond = λ c. ltb c 0;
  upper_beyond = λ c. ltb c 0;
  digit_beyond = λ c. ltb c 0;
  to_lower_beyond = λ c. c;
  to_upper_beyond = λ c. c;
}
