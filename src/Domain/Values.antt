-- ===== src/Domain/Values.antt =====
-- internal/domain/values.go: the validated value types. Named string types are texts.
use secret_rotator.Prelude.{
  ℕ, zero, ◌==◌, leb, Bool, true, false, not, ◌&&◌, ◌||◌, [], ◌∷◌, if◌then◌else◌,
}
use secret_rotator.Prelude.Int.{ℤ, pos, ltb_ℤ}
use secret_rotator.Prelude.Result.{Result, ok, err}
use secret_rotator.Prelude.Text.{Text, codes, eq_text, trim_space, contains_any}
use secret_rotator.Domain.Errors.{
  Invalid, name_required, name_whitespace, env_key_required, env_key_invalid, length_range,
}

unfoldable pub new_secret_name : Text → Result Invalid Text
new_secret_name raw =
    let trimmed = trim_space raw in
    if eq_text trimmed []
    then err name_required
    else if contains_any trimmed (codes " \t\n")
    then err (name_whitespace raw)
    else ok trimmed

-- The test of one character; the flag is `i > 0`.
unfoldable pub valid_key_char : Bool → ℕ → Bool
valid_key_char later r =
    r == b'_'
    || (leb b'A' r && leb r b'Z')
    || (leb b'a' r && leb r b'z')
    || (later && leb b'0' r && leb r b'9')

-- The loop over the characters of a key.
unfoldable pub valid_key_chars : Bool → Text → Bool
valid_key_chars later [] = true
valid_key_chars later (r ∷ rs) = valid_key_char later r && valid_key_chars true rs

unfoldable pub new_env_key : Text → Result Invalid Text
unfolding valid_key_char valid_key_chars
new_env_key raw =
    let trimmed = trim_space raw in
    if eq_text trimmed []
    then err env_key_required
    else if valid_key_chars false trimmed
    then ok trimmed
    else err (env_key_invalid raw)

abbrev pub default_password_length : ℤ
default_password_length = pos 32

abbrev pub min_password_length : ℤ
min_password_length = pos 8

abbrev pub max_password_length : ℤ
max_password_length = pos 256

unfoldable pub new_password_length : ℤ → Result Invalid ℤ
new_password_length (pos zero) = ok default_password_length
new_password_length n =
    if ltb_ℤ n min_password_length || ltb_ℤ max_password_length n then err length_range else ok n

unfoldable pub new_schedule : Text → Text
new_schedule raw = trim_space raw

unfoldable pub schedule_is_set : Text → Bool
schedule_is_set s = not (eq_text s [])
