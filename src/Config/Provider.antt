-- ===== src/Config/Provider.antt =====
-- The provider map of an entry in internal/infrastructure/configfile/translate.go: its keys, its
-- numbers and its placeholders, and the calls of the translation, whose state is the warnings that
-- are collected on the way.
use secret_rotator.Prelude.{
  ℕ, leb, ◌==◌, ◌-◌, Bool, true, not, ◌&&◌, ◌||◌, List, [], ◌∷◌, ◌++◌, is_nil, any, map, Option,
  none, some, if◌then◌else◌,
}
use secret_rotator.Prelude.Int.{ℤ, pos, negsuc}
use secret_rotator.Prelude.Decimal.{is_decimal, value_from}
use secret_rotator.Prelude.Result.{ok, err}
use secret_rotator.Prelude.Text.{Text, codes, eq_text, trim_space}
use secret_rotator.Domain.Errors.{Invalid}
use secret_rotator.Application.Ports.{Call}
use secret_rotator.Containers.Compose.{sort_strings}
use secret_rotator.Config.{SecretConfig, ConfigWarning, value_of}

pub data ConfigError : Type 0 where
  duplicate_name : ℕ → Text → ℕ → ConfigError
  port_not_number : ℕ → Text → Text → ConfigError
  length_not_number : ℕ → Text → Text → ConfigError
  timeout_not_duration : ℕ → Text → Text → ConfigError
  placeholder : ℕ → Text → Text → ConfigError
  invalid : ℕ → Invalid → ConfigError

abbrev pub Translation : Type 0 → Type 0
Translation A = Call (List ConfigWarning) ConfigError A

abbrev pub pure : {A : Type 0} → A → Translation A
pure a w = (ok a, w)

abbrev pub fail : {A : Type 0} → ConfigError → Translation A
fail e w = (err e, w)

abbrev pub warn : List ConfigWarning → Translation (Unit {0})
warn ws w = (ok tt, w ++ ws)

-- The keys of the map `providerKeys`.
abbrev pub provider_keys : List Text
provider_keys =
    codes "host"
    ∷ codes "port"
    ∷ codes "username"
    ∷ codes "password"
    ∷ codes "password_env"
    ∷ codes "database"
    ∷ codes "target_user"
    ∷ codes "target_user_host"
    ∷ codes "length"
    ∷ []

unfoldable pub unknown_keys : List (Text × Text) → List Text
unknown_keys [] = []
unknown_keys ((k, v) ∷ m) =
    let rest = unknown_keys m in if any (eq_text k) provider_keys then rest else k ∷ rest

abbrev pub all_digits : Text → Bool
all_digits [] = true
all_digits (c ∷ cs) = is_decimal c && all_digits cs

-- `strconv.Atoi` of the digits behind a sign; the bound is that of an int64.
unfoldable pub magnitude : Text → ℕ → Option ℕ
magnitude digits bound =
    if is_nil digits || not (all_digits digits)
    then none
    else if leb (value_from 0 digits) bound
    then some (value_from 0 digits)
    else none

abbrev pub minus : ℕ → ℤ
minus n = if n == 0 then pos 0 else negsuc (n - 1)

-- `strconv.Atoi`.
unfoldable pub atoi : Text → Option ℤ
unfolding magnitude
atoi [] = none
atoi (c ∷ cs) =
    if c == b'-'
    then elim (magnitude cs 9223372036854775808) [ none ↦ none | some n ↦ some (minus n) ]
    else elim (magnitude (if c == b'+' then cs else c ∷ cs) 9223372036854775807) [
      | none ↦ none
      | some n ↦ some (pos n)
    ]

-- A value for which an empty text stands for the default.
unfoldable pub number_or : ℤ → ConfigError → Text → Translation ℤ
unfolding atoi
number_or default e raw =
    if eq_text raw [] then pure default else elim (atoi raw) [ none ↦ fail e | some n ↦ pure n ]

abbrev pub ascii_upper : ℕ → ℕ
ascii_upper c = if leb b'a' c && leb c b'z' then c - 32 else c

-- `EqualFold` with TODO, whose letters have no other case forms than those of ASCII.
unfoldable pub is_todo : Text → Bool
is_todo v = eq_text (map ascii_upper (trim_space v)) (codes "TODO")

abbrev pub keys_of : List (Text × Text) → List Text
keys_of [] = []
keys_of ((k, v) ∷ m) = k ∷ keys_of m

unfoldable pub placeholder_loop : List (Text × Text) → List Text → Text
unfolding is_todo
placeholder_loop m [] = []
placeholder_loop m (k ∷ ks) =
    let rest = placeholder_loop m ks in
    if is_todo (value_of m k) then codes "provider." ++ k else rest

-- `placeholderKey`, which looks at the keys in order.
unfoldable pub placeholder_key : SecretConfig → Text
unfolding placeholder_loop
placeholder_key sc = placeholder_loop sc.provider (sort_strings (keys_of sc.provider))
