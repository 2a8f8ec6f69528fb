-- ===== src/Config/Translate.antt =====
-- internal/infrastructure/configfile/translate.go: from the entries of the file to the aggregates of
-- the domain. The warnings that are collected on the way are the state of the calls.
use secret_rotator.Prelude.{
  ℕ, suc, Bool, not, ◌&&◌, List, [], ◌∷◌, ◌++◌, is_nil, map, Option, none, some, if◌then◌else◌,
}
use secret_rotator.Prelude.Int.{ℤ, pos}
use secret_rotator.Prelude.Result.{Result, ok, err}
use secret_rotator.Prelude.Text.{Text, codes, eq_text, lookup, trim_space}
use secret_rotator.Prelude.Unicode.{Tables}
use secret_rotator.Domain.Errors.{Invalid, Warning}
use secret_rotator.Domain.Command.{CommandSpec, MapOrder}
use secret_rotator.Domain.Target.{Target}
use secret_rotator.Domain.Secret.{Secret, SecretSpec, new_secret}
use secret_rotator.Application.Calls.{◌>>=◌, ◌>>◌}
use secret_rotator.Containers.Compose.{sort_strings}
use secret_rotator.Config.{
  CommandConfig, SecretConfig, ConfigWarning, unrecognised_keys, program_absent, of_secret, Config,
  Paths, dir, is_abs, has_separator, block_is_set, value_of,
}
use secret_rotator.Config.Provider.{
  duplicate_name, port_not_number, length_not_number, timeout_not_duration, placeholder, invalid,
  Translation, pure, fail, warn, unknown_keys, number_or, placeholder_key,
}

-- `envFilesOf`.
unfoldable pub env_files_of : SecretConfig → List Text
env_files_of sc = if not (eq_text sc.env_file []) then sc.env_file ∷ [] else sc.env_files

abbrev pub no_command : CommandSpec
no_command = record {
  apply_argv = [];
  verify_argv = [];
  restore_argv = [];
  timeout = pos 0;
  pass_env = [];
  working_dir = [];
}

module _ (u : Tables) (parse_duration : Text → Option ℤ) (o : MapOrder) (paths : Paths) where
  open paths use {join, stat}

  -- `anchorProgram`.
  unfoldable pub anchor_program : Text → List Text → List Text
  anchor_program base [] = []
  anchor_program base (program ∷ args) =
      if has_separator program && not (is_abs program)
      then join base program ∷ args
      else program ∷ args

  -- The warning about a program that is named by path and is not there.
  unfoldable pub absent_program : Text → List Text → List ConfigWarning
  absent_program name [] = []
  absent_program name (program ∷ args) =
      if not (has_separator program)
      then []
      else elim (stat program) [ none ↦ program_absent name program ∷ [] | some is_dir ↦ [] ]

  abbrev pub block_is_empty : CommandConfig → Bool
  block_is_empty c =
      not (block_is_set c) && eq_text c.timeout [] && is_nil c.pass_env && eq_text c.work_dir []

  unfoldable pub working_dir_of : Text → Text → Text
  working_dir_of base work_dir =
      if eq_text work_dir []
      then base
      else if not (is_abs work_dir)
      then join base work_dir
      else work_dir

  unfoldable pub timeout_of : ℕ → Text → Text → Translation ℤ
  timeout_of i name timeout =
      let raw = trim_space timeout in
      if eq_text raw [] then pure (pos 0) else elim (parse_duration raw) [
        | none ↦ fail (timeout_not_duration i name raw)
        | some d ↦ pure d
      ]

  -- `commandFor`, on the directory of the configuration.
  unfoldable pub command_for : Text → ℕ → SecretConfig → Translation CommandSpec
  unfolding anchor_program absent_program working_dir_of timeout_of
  command_for base i sc =
      let block = sc.command_block in
      let apply_argv = anchor_program base block.apply_argv in
      let verify_argv = anchor_program base block.verify_argv in
      let restore_argv = anchor_program base block.restore_argv in
      if block_is_empty block
      then pure no_command
      else timeout_of i sc.name block.timeout >>= λ timeout.
          warn (
            absent_program sc.name apply_argv
            ++ (absent_program sc.name verify_argv ++ absent_program sc.name restore_argv))
          >> pure (record {
            apply_argv = apply_argv;
            verify_argv = verify_argv;
            restore_argv = restore_argv;
            timeout = timeout;
            pass_env = block.pass_env;
            working_dir = working_dir_of base block.work_dir;
          })

  abbrev pub unrecognised : SecretConfig → List ConfigWarning
  unrecognised sc =
      let unknown = unknown_keys sc.provider in
      if is_nil unknown then [] else unrecognised_keys sc.name (sort_strings unknown) ∷ []

  -- `targetFor`.
  unfoldable pub target_for : Text → ℕ → SecretConfig → Translation (Target × ℤ)
  unfolding number_or command_for placeholder_key unknown_keys
  target_for base i sc = do
    let get = value_of sc.provider
    warn (unrecognised sc)
    port ← number_or (pos 0) (port_not_number i sc.name (get (codes "port"))) (get (codes "port"))
    length ←
        number_or sc.length (length_not_number i sc.name (get (codes "length")))
          (get (codes "length"))
    command_spec ← command_for base i sc
    let target : Target = record {
      host = get (codes "host");
      port = port;
      admin_user = get (codes "username");
      admin_password = get (codes "password");
      admin_password_env = get (codes "password_env");
      database = get (codes "database");
      target_user = get (codes "target_user");
      target_user_host = get (codes "target_user_host");
      command_spec = command_spec;
    }
    let key = placeholder_key sc
    if eq_text key [] then pure (target, length) else fail (placeholder i sc.name key)

  -- `specFor`.
  unfoldable pub spec_for : Text → ℕ → SecretConfig → Translation SecretSpec
  unfolding target_for env_files_of
  spec_for base i sc = target_for base i sc >>= λ t. pure (record {
    name = sc.name;
    kind = sc.kind;
    env_key = sc.env_key;
    env_files = env_files_of sc;
    containers = sc.containers;
    target = t.0;
    schedule = sc.schedule;
    max_age = sc.max_age;
    length = t.1;
  })

  abbrev pub built : ℕ → Result Invalid (Secret × List Warning) → Translation Secret
  built i (err e) = fail (invalid i e)
  built i (ok (secret, warnings)) = warn (map of_secret warnings) >> pure secret

  unfoldable pub secret_for : Text → ℕ → SecretConfig → Translation Secret
  unfolding spec_for
  secret_for base i sc = spec_for base i sc >>= λ spec. built i (new_secret u parse_duration o spec)

  -- `seen[name]`, for a name that is not empty.
  abbrev pub seen_before : List (Text × ℕ) → Text → Option ℕ
  seen_before seen name = if eq_text name [] then none else lookup name seen

  abbrev pub unless_seen : {A : Type 0} → ℕ → Text → Option ℕ → Translation A → Translation A
  unless_seen i name (some prev) rest = fail (duplicate_name i name prev)
  unless_seen i name none rest = rest

  -- The loop of `DomainSecrets`.
  unfoldable pub secret_loop :
      Text → ℕ → List (Text × ℕ) → List SecretConfig → Translation (List Secret)
  unfolding secret_for
  secret_loop base i seen [] = pure []
  secret_loop base i seen (sc ∷ scs) =
      let rest = secret_loop base (suc i) ((sc.name, i) ∷ seen) scs in
      unless_seen i sc.name (seen_before seen sc.name)
        (secret_for base i sc >>= λ secret. rest >>= λ secrets. pure (secret ∷ secrets))

  -- `DomainSecrets`.
  unfoldable pub domain_secrets : Config → Translation (List Secret)
  unfolding secret_loop
  domain_secrets c = secret_loop (dir paths c) 0 [] c.definitions
