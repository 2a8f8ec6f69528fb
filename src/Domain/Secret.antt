-- ===== src/Domain/Secret.antt =====
-- internal/domain/secret.go: the secret aggregate. Its fields are private in Go, so every secret
-- comes from `new_secret` and the `with_…` copies.
pub mod Valid
use secret_rotator.Prelude.{Bool, true, false, ◌||◌, List, [], ◌∷◌, Option, if◌then◌else◌, any}
use secret_rotator.Prelude.Int.{ℤ}
use secret_rotator.Prelude.Result.{Result, ok, err, ◌>>=◌}
use secret_rotator.Prelude.Text.{Text, eq_text}
use secret_rotator.Prelude.Unicode.{Tables}
use secret_rotator.Domain.Errors.{
  Invalid, env_file_required, env_file_empty, env_file_twice, container_empty, Warning,
}
use secret_rotator.Domain.Kind.{Kind, parse_kind, has_backing_service}
use secret_rotator.Domain.Values.{new_secret_name, new_env_key, new_password_length, new_schedule}
use secret_rotator.Domain.Command.{MapOrder}
use secret_rotator.Domain.Target.{Target, validate_for}
use secret_rotator.Domain.MaxAge.{parse_max_age}

pub record Secret : Type 0 where
  pub name : Text
  pub kind : Kind
  pub env_key : Text
  pub env_files : List Text
  pub containers : List Text
  pub target : Target
  pub schedule : Text
  pub max_age : ℤ
  pub length : ℤ

pub record SecretSpec : Type 0 where
  pub name : Text
  pub kind : Text
  pub env_key : Text
  pub env_files : List Text
  pub containers : List Text
  pub target : Target
  pub schedule : Text
  pub max_age : Text
  pub length : ℤ

-- The loop of `newEnvFileSet`; `seen` holds the paths before.
unfoldable pub env_file_loop : List Text → List Text → Result Invalid (List Text)
env_file_loop seen [] = ok []
env_file_loop seen (p ∷ ps) =
    if eq_text p []
    then err env_file_empty
    else if any (eq_text p) seen
    then err (env_file_twice p)
    else env_file_loop (p ∷ seen) ps >>= λ paths. ok (p ∷ paths)

unfoldable pub new_env_file_set : List Text → Result Invalid (List Text)
unfolding env_file_loop
new_env_file_set [] = err env_file_required
new_env_file_set (p ∷ ps) = env_file_loop [] (p ∷ ps)

-- The loop over the containers of a spec.
unfoldable pub container_loop : List Text → Result Invalid (List Text)
container_loop [] = ok []
container_loop (c ∷ cs) =
    if eq_text c [] then err container_empty else container_loop cs >>= λ refs. ok (c ∷ refs)

module _ (u : Tables) (parse_duration : Text → Option ℤ) (o : MapOrder) where
  unfoldable pub new_secret : SecretSpec → Result Invalid (Secret × List Warning)
  unfolding new_env_file_set container_loop
  new_secret spec = do
    name ← new_secret_name spec.name
    kind ← parse_kind u spec.kind
    env_key ← new_env_key spec.env_key
    env_files ← new_env_file_set spec.env_files
    length ← new_password_length spec.length
    max_age ← parse_max_age parse_duration spec.max_age
    warnings ← validate_for o spec.target kind
    containers ← container_loop spec.containers
    ok (
      record {
        name = name;
        kind = kind;
        env_key = env_key;
        env_files = env_files;
        containers = containers;
        target = spec.target;
        schedule = new_schedule spec.schedule;
        max_age = max_age;
        length = length;
      },
      warnings,
    )

-- `envFiles[0]`. The aggregate is never without a file; Go would panic where this gives "".
unfoldable pub primary_of : List Text → Text
primary_of [] = []
primary_of (p ∷ ps) = p

unfoldable pub primary_env_file : Secret → Text
unfolding primary_of
primary_env_file s = primary_of s.env_files

unfoldable pub needs_verification : Secret → Bool
needs_verification s = has_backing_service s.kind

unfoldable pub with_containers : Secret → List Text → Secret
with_containers s refs = record s { containers = refs }

unfoldable pub with_target : Secret → Target → Secret
with_target s t = record s { target = t }

unfoldable pub with_schedule : Secret → Text → Secret
with_schedule s sc = record s { schedule = sc }
