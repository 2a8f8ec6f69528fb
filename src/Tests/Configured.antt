-- ===== src/Tests/Configured.antt =====
-- A configuration with two entries.
use secret_rotator.Prelude.{◌≡◌, refl, List, [], ◌∷◌, Option, none}
use secret_rotator.Prelude.Int.{ℤ, pos}
use secret_rotator.Prelude.Result.{ok}
use secret_rotator.Prelude.Text.{Text, codes, eq_text, lookup, trim_space, contains_any}
use secret_rotator.Prelude.Unicode.{ascii, to_lower}
use secret_rotator.Domain.Command.{avr}
use secret_rotator.Domain.Kind.{parse_kind}
use secret_rotator.Domain.Values.{new_secret_name, new_env_key, new_password_length}
use secret_rotator.Domain.MaxAge.{parse_max_age}
use secret_rotator.Domain.Target.{validate_for}
use secret_rotator.Containers.Compose.{sort_strings}
use secret_rotator.Domain.Secret.{Secret, new_secret}
use secret_rotator.Domain.Secret.Valid.{Distinct}
use secret_rotator.Config.{
  CommandConfig, SecretConfig, Config, Paths, default_config, value_of, block_is_set,
}
use secret_rotator.Config.Translate.{domain_secrets}
use secret_rotator.Config.Loaded.{AllDescribe, names_of, domain_secrets-Loaded}

abbrev no_block : CommandConfig
no_block = record {
  apply_argv = [];
  verify_argv = [];
  restore_argv = [];
  timeout = [];
  pass_env = [];
  work_dir = [];
}

abbrev api : Text → SecretConfig
api name = record {
  name = name;
  kind = codes "generic";
  env_key = codes "API_KEY";
  env_file = codes ".env";
  env_files = [];
  containers = codes "app" ∷ [];
  provider = [];
  command_block = no_block;
  schedule = [];
  max_age = [];
  length = pos 0;
}

abbrev config : Config
config = record default_config { definitions = api (codes "api") ∷ api (codes "jwt ") ∷ [] }

abbrev paths : Paths
paths = record { join = λ base p. p; dir_of = λ p. p; stat = λ p. none }

abbrev no_durations : Text → Option ℤ
no_durations s = none

translated :
    (secrets : List Secret) × ((domain_secrets ascii no_durations avr paths config []).0
      ≡ ok secrets)
unfolding domain_secrets eq_text lookup value_of block_is_set sort_strings new_secret
    new_secret_name trim_space contains_any parse_kind to_lower new_env_key new_password_length
    parse_max_age validate_for
translated = (_, refl)

domain_secrets-Loaded_example :
    AllDescribe config.definitions translated.0 × Distinct (names_of config.definitions)
domain_secrets-Loaded_example =
    domain_secrets-Loaded ascii no_durations avr paths config [] translated.1
