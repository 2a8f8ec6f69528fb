-- ===== src/Credentials/Generator.antt =====
-- internal/infrastructure/credential/generator.go, with what it uses of encoding/base64.
pub mod Decode
use secret_rotator.Prelude.{ℕ, ◌+◌, ◌-◌, ◌*◌, ◌/◌, ◌%◌, ◌==◌, ltb, List, [], ◌∷◌, if◌then◌else◌}
use secret_rotator.Prelude.Int.{ℤ, pos, ltb_ℤ, pos_part}
use secret_rotator.Prelude.Result.{Result, ok, err}
use secret_rotator.Prelude.Text.{Text}
use secret_rotator.Domain.Values.{default_password_length}
use secret_rotator.Domain.Target.{Credential}
use secret_rotator.Application.Ports.{Call}

-- A digit of URL-safe base64.
unfoldable pub digit : ℕ → ℕ
digit i =
    if ltb i 26
    then b'A' + i
    else if ltb i 52
    then b'a' + (i - 26)
    else if ltb i 62
    then b'0' + (i - 52)
    else if i == 62
    then b'-'
    else b'_'

-- `base64.RawURLEncoding.EncodeToString`: four digits for three bytes, and no padding.
unfoldable pub encode : List ℕ → Text
unfolding digit
encode [] = []
encode (a ∷ []) = digit (a / 4) ∷ digit (a % 4 * 16) ∷ []
encode (a ∷ b ∷ []) = digit (a / 4) ∷ digit (a % 4 * 16 + b / 16) ∷ digit (b % 16 * 4) ∷ []
encode (a ∷ b ∷ c ∷ rest) =
    digit (a / 4)
    ∷ digit (a % 4 * 16 + b / 16)
    ∷ digit (b % 16 * 4 + c / 64)
    ∷ digit (c % 64)
    ∷ encode rest

-- The number of bytes that are read; it is positive.
unfoldable pub byte_count : ℤ → ℕ
byte_count n = pos_part (if ltb_ℤ (pos 0) n then n else default_password_length)

module _ {W E : Type 0} (read_random : ℕ → Call W E (List ℕ)) where
  unfoldable pub encoded : Result E (List ℕ) × W → Result E Credential × W
  unfolding encode
  encoded (err e, w) = (err e, w)
  encoded (ok bytes, w) = (ok (encode bytes), w)

  -- `Generate`; `rand.Read` is the argument.
  unfoldable pub generate : ℤ → Call W E Credential
  unfolding encoded byte_count
  generate n w = encoded (read_random (byte_count n) w)
