-- ===== src/Tests/Domain.antt =====
-- Secrets, policies, strengths and keys.
use secret_rotator.Prelude.{
  ◌≤◌, ◌≡◌, ◌≢◌, ◌↔◌, refl, true, List, [], ◌∷◌, ◌++◌, Option, none, arith,
}
use secret_rotator.Prelude.Int.{◌≤ℤ◌, ℤ, pos, ◌-ℤ◌, ltb_ℤ, ◌+ℤ◌, wrap64}
use secret_rotator.Prelude.Decimal.{is_decimal, print, value_from, atoi_digits}
use secret_rotator.Prelude.Result.{ok}
use secret_rotator.Prelude.Text.{
  Text, codes, eq_text, is_space, trim_left, trim_right, trim_space, contains_any, strip_prefix,
  strip_suffix, lookup,
}
use secret_rotator.Prelude.Unicode.{ascii, to_lower, to_upper}
use secret_rotator.Domain.Errors.{Warning}
use secret_rotator.Domain.Kind.{
  postgres, parse_kind, has_backing_service, uses_commands, requires_admin_account,
  requires_database,
}
use secret_rotator.Domain.Values.{
  new_secret_name, valid_key_char, valid_key_chars, new_env_key, new_password_length, new_schedule,
}
use secret_rotator.Domain.Command.{
  CommandSpec, avr, is_set, check_null, validate_argv, validate_all, validate,
}
use secret_rotator.Domain.Command.Valid.{IsRunnable, validate-IsRunnable}
use secret_rotator.Domain.Target.{Target, service_warnings, validate_for}
use secret_rotator.Domain.MaxAge
use secret_rotator.Domain.MaxAge.{
  day, duration_units, consume, consume_extended_units, add_remainder, parse_max_age,
}
use secret_rotator.Domain.MaxAge.Parse.{parse_max_age-to_string}
use secret_rotator.Domain.MaxAge.Overflow.{parse_max_age-wraps}
use secret_rotator.Domain.Secret.{
  Secret, SecretSpec, env_file_loop, new_env_file_set, container_loop, new_secret,
}
use secret_rotator.Domain.Secret.Valid.{IsValid, new_secret-IsValid}
use secret_rotator.Domain.Compliance.{compliant, due, sub_time, age_of, evaluate}
use secret_rotator.Domain.Compliance.Policy.{
  evaluate-compliant_iff, evaluate-overdue_by, evaluate-due_mono,
}
use secret_rotator.Domain.Strength.{good, strong, audit_strength}
use secret_rotator.Domain.Strength.Score.{Earns, audit_strength_iff}
use secret_rotator.Domain.Inspection.{match_suffix, match_key, classify_upper, classify_key}
use secret_rotator.Domain.Inspection.Keys.{classify_key-ne-private_key}

abbrev no_commands : CommandSpec
no_commands = record {
  apply_argv = [];
  verify_argv = [];
  restore_argv = [];
  timeout = pos 0;
  pass_env = [];
  working_dir = [];
}

abbrev database : Target
database = record {
  host = codes "db";
  port = pos 0;
  admin_user = codes "root";
  admin_password = [];
  admin_password_env = [];
  database = codes "app";
  target_user = [];
  target_user_host = [];
  command_spec = no_commands;
}

abbrev spec : SecretSpec
spec = record {
  name = codes " db ";
  kind = codes "Postgres";
  env_key = codes "DB_PASSWORD";
  env_files = codes ".env" ∷ codes "app/.env" ∷ [];
  containers = codes "db" ∷ codes "app" ∷ [];
  target = database;
  schedule = [];
  max_age = codes "30d";
  length = pos 0;
}

-- The secret that the spec describes.
abbrev pub secret : Secret
secret = record {
  name = codes "db";
  kind = postgres;
  env_key = codes "DB_PASSWORD";
  env_files = codes ".env" ∷ codes "app/.env" ∷ [];
  containers = codes "db" ∷ codes "app" ∷ [];
  target = database;
  schedule = [];
  max_age = pos 2592000000000000;
  length = pos 32;
}

abbrev no_durations : Text → Option ℤ
no_durations s = none

secret_built : (ws : List Warning) × (new_secret ascii no_durations avr spec ≡ ok (secret, ws))
unfolding new_secret new_secret_name new_env_key valid_key_char valid_key_chars new_password_length
    new_schedule parse_kind validate_for service_warnings is_set env_file_loop new_env_file_set
    container_loop parse_max_age consume consume_extended_units add_remainder duration_units wrap64
    ◌+ℤ◌ is_decimal atoi_digits value_from eq_text is_space trim_left trim_right trim_space
    contains_any to_lower uses_commands has_backing_service requires_admin_account requires_database
secret_built = (_, refl)

pub secret-IsValid : IsValid secret
secret-IsValid = new_secret-IsValid ascii no_durations avr spec secret_built.1

new_secret-IsValid_example : IsValid secret
new_secret-IsValid_example = new_secret-IsValid ascii no_durations avr spec secret_built.1

parse_max_age-to_string_example :
    parse_max_age no_durations (MaxAge.to_string (λ m. []) (pos 2592000000000000))
    ≡ ok (pos 2592000000000000)
parse_max_age-to_string_example =
    parse_max_age-to_string no_durations (λ m. []) 2592000000000000 (omega arith) (omega arith) refl

parse_max_age-wraps_example :
    parse_max_age no_durations (print 213504 ++ b'd' ∷ []) ≡ ok (pos 1526290448384)
parse_max_age-wraps_example = parse_max_age-wraps no_durations 213504 (omega arith) (omega arith)

-- Forty days behind the last rotation.
due_now : (evaluate secret (pos 0) true true (pos 3456000000000000)).compliance ≡ due
unfolding evaluate age_of sub_time MaxAge.is_set ◌-ℤ◌ ◌+ℤ◌
due_now = refl

evaluate-compliant_iff_example :
    ((evaluate secret (pos 0) true true (pos 86400000000000)).compliance ≡ compliant) ↔ (
      (pos 1 ≤ℤ secret.max_age)
      × (true ≡ true)
      × (true ≡ true)
      × (pos 86400000000000 ≤ℤ pos 0 +ℤ secret.max_age))
evaluate-compliant_iff_example =
    evaluate-compliant_iff secret (pos 0) true true (pos 86400000000000) refl

evaluate-overdue_by_example :
    ((evaluate secret (pos 0) true true (pos 3456000000000000)).overdue_by
      ≡ age_of (pos 0) true (pos 3456000000000000) -ℤ secret.max_age)
    × (ltb_ℤ (pos 0) (evaluate secret (pos 0) true true (pos 3456000000000000)).overdue_by ≡ true)
evaluate-overdue_by_example =
    evaluate-overdue_by secret (pos 0) true true (pos 3456000000000000) due_now

evaluate-due_mono_example :
    (evaluate secret (pos 0) true true (pos 3456000000000001)).compliance ≡ due
evaluate-due_mono_example =
    evaluate-due_mono secret (pos 0) (pos 3456000000000000) (pos 3456000000000001) (ground arith)
      due_now

audit_strength_iff_example :
    ((good ≤ (audit_strength ascii (codes "Tr0ub4dor-and-3")).score)
      ↔ Earns 16 ascii (codes "Tr0ub4dor-and-3"))
    × ((strong ≤ (audit_strength ascii (codes "Tr0ub4dor-and-3")).score)
        ↔ Earns 32 ascii (codes "Tr0ub4dor-and-3"))
audit_strength_iff_example = audit_strength_iff ascii (codes "Tr0ub4dor-and-3")

classify_key-ne-private_key_example :
    (classify_key ascii (codes "tls_private_key")).0 ≢ codes "private_key"
classify_key-ne-private_key_example = classify_key-ne-private_key ascii (codes "tls_private_key")

-- The key of the example is taken for an API key.
private_key_category : (classify_key ascii (codes "tls_private_key")).0 ≡ codes "api_key"
unfolding classify_key classify_upper match_key match_suffix to_upper strip_suffix strip_prefix
    lookup eq_text
private_key_category = refl

abbrev script : CommandSpec
script = record no_commands {
  apply_argv = codes "/bin/rotate" ∷ codes "--now" ∷ [];
  verify_argv = codes "/bin/check" ∷ [];
}

script_validated : validate avr script ≡ ok []
unfolding validate validate_all validate_argv check_null is_set trim_space trim_left trim_right
    is_space eq_text contains_any
script_validated = refl

validate-IsRunnable_example : IsRunnable script
validate-IsRunnable_example = validate-IsRunnable avr script script_validated
