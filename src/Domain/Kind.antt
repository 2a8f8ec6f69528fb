-- ===== src/Domain/Kind.antt =====
-- internal/domain/kind.go. A `Kind` is one of the five registered names: `ParseKind` is the only
-- way to make one.
use secret_rotator.Prelude.{ℕ, Bool, true, false, [], if◌then◌else◌}
use secret_rotator.Prelude.Result.{Result, ok, err}
use secret_rotator.Prelude.Text.{Text, codes, eq_text, trim_space}
use secret_rotator.Prelude.Unicode.{Tables, to_lower}
use secret_rotator.Domain.Errors.{Invalid, type_required, type_invalid}

pub data Kind : Type 0 where
  mysql postgres redis generic command : Kind

pub record KindTraits : Type 0 where
  pub default_port : ℕ
  pub needs_admin : Bool
  pub needs_database : Bool

-- The map `kinds`.
abbrev pub kinds : Kind → KindTraits
kinds mysql = record { default_port = 3306; needs_admin = true; needs_database = false }
kinds postgres = record { default_port = 5432; needs_admin = true; needs_database = true }
kinds redis = record { default_port = 6379; needs_admin = false; needs_database = false }
kinds generic = record { default_port = 0; needs_admin = false; needs_database = false }
kinds command = record { default_port = 0; needs_admin = false; needs_database = false }

abbrev pub to_string : Kind → Text
to_string mysql = codes "mysql"
to_string postgres = codes "postgres"
to_string redis = codes "redis"
to_string generic = codes "generic"
to_string command = codes "command"

-- The test for presence in `kinds`, on a name that is not empty.
known : Text → Text → Result Invalid Kind
known raw name =
    if eq_text name (to_string mysql)
    then ok mysql
    else if eq_text name (to_string postgres)
    then ok postgres
    else if eq_text name (to_string redis)
    then ok redis
    else if eq_text name (to_string generic)
    then ok generic
    else if eq_text name (to_string command)
    then ok command
    else err (type_invalid raw)

unfoldable pub parse_kind : Tables → Text → Result Invalid Kind
unfolding known
parse_kind u raw =
    let trimmed = to_lower u (trim_space raw) in
    if eq_text trimmed [] then err type_required else known raw trimmed

unfoldable pub default_port : Kind → ℕ
default_port k = (kinds k).default_port

unfoldable pub has_backing_service : Kind → Bool
has_backing_service generic = false
has_backing_service _ = true

unfoldable pub uses_commands : Kind → Bool
uses_commands command = true
uses_commands _ = false

unfoldable pub requires_admin_account : Kind → Bool
requires_admin_account k = (kinds k).needs_admin

unfoldable pub requires_database : Kind → Bool
requires_database k = (kinds k).needs_database
