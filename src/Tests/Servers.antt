-- ===== src/Tests/Servers.antt =====
-- The rotators of databases and of programs.
use secret_rotator.Prelude.{
  ◌≡◌, refl, ap, false, List, [], ◌∷◌, ◌++◌, Option, none, some, inl, inr, Bool-cases,
  if◌then◌else◌,
}
use secret_rotator.Prelude.Int.{pos}
use secret_rotator.Prelude.Result.{Result, ok, err}
use secret_rotator.Prelude.Text.{Text, codes, eq_text, eq_text_iff, strip_prefix}
use secret_rotator.Domain.Target.{
  Target, Credential, effective_target_user, effective_target_user_host,
}
use secret_rotator.Credentials.MySql.{alter_user_stmt}
use secret_rotator.Credentials.MySql.Literal.{
  read_alter_user, strip_prefix-append, read_alter_user-alter_user_stmt,
}
use secret_rotator.Credentials.Postgres
use secret_rotator.Credentials.Postgres.Server.{Alters, Set, rotate-restore}
use secret_rotator.Credentials.Postgres.Literal.{read_literal}
use secret_rotator.Credentials.Redis
use secret_rotator.Credentials.Redis.Server.{AllOrNothing, apply-AllOrNothing}
use secret_rotator.Credentials.Programs.{Host, succeeded, apply, verify, restore}
use secret_rotator.Credentials.Programs.Isolation.{command_rotator-Isolated}
use secret_rotator.Tests.Coding.{encoded, first_of, first_of-encoded}

abbrev U : Type 0
U = Unit {0}

-- A password with a quote and a backslash, for the account that it is the password of.
abbrev target : Target
target = record {
  host = codes "db";
  port = pos 0;
  admin_user = codes "root";
  admin_password = codes "old";
  admin_password_env = [];
  database = codes "app";
  target_user = [];
  target_user_host = [];
  command_spec = record {
    apply_argv = codes "./apply" ∷ [];
    verify_argv = [];
    restore_argv = [];
    timeout = pos 0;
    pass_env = codes "LANG" ∷ [];
    working_dir = [];
  };
}

abbrev next : Credential
next = codes "it's \\ new"

read_alter_user-alter_user_stmt_example :
    read_alter_user (alter_user_stmt target next)
    ≡ some (effective_target_user target, effective_target_user_host target, next)
read_alter_user-alter_user_stmt_example = read_alter_user-alter_user_stmt target next

-- Passwords by role.
abbrev Passwords : Type 0
Passwords = Text → Text

abbrev set_password : Text → Option (Text × Text) → Passwords → Result U U × Passwords
set_password role none w = (err tt, w)
set_password role (some (new, rest)) w = (ok tt, λ q. if eq_text q role then new else w q)

abbrev alter : Text → Option Text → Passwords → Result U U × Passwords
alter role none w = (err tt, w)
alter role (some literal) w = set_password role (read_literal literal) w

abbrev alter_named : Option (Text × Text) → Passwords → Result U U × Passwords
alter_named none w = (err tt, w)
alter_named (some (role, rest)) w = alter role (strip_prefix (codes " WITH PASSWORD '") rest) w

abbrev execute_stmt : Option Text → Passwords → Result U U × Passwords
execute_stmt none w = (err tt, w)
execute_stmt (some rest) w = alter_named (first_of rest) w

abbrev postgres_driver : Postgres.Driver Passwords U U
postgres_driver = record {
  dial = λ u w. (if eq_text (w u.user) u.password then ok tt else err tt, w);
  exec = λ _ stmt w. execute_stmt (strip_prefix (codes "ALTER ROLE ") stmt) w;
  close = λ _ w. w;
  sanitize = λ role. encoded role [];
}

execute-Alters :
    (stmt role new : Text) (w : Passwords)
    → Alters postgres_driver stmt role new
    → execute_stmt (strip_prefix (codes "ALTER ROLE ") stmt) w
      ≡ (ok tt, λ q. if eq_text q role then new else w q)
execute-Alters stmt role new w (literal, shape, value) =
    rw
      (
        shape,
        strip_prefix-append (codes "ALTER ROLE ")
            (encoded role [] ++ (codes " WITH PASSWORD '" ++ literal)),
        first_of-encoded role (codes " WITH PASSWORD '" ++ literal),
        strip_prefix-append (codes " WITH PASSWORD '") literal,
        value,
      )
      refl

unfoldable postgres_server : Postgres.Server.Server postgres_driver
postgres_server = record {
  password = λ w. w;
  dial_ok = λ u w h. (tt, rw ((eq_text_iff (w u.user) u.password).1 h) refl);
  dial_frame = λ u w. refl;
  close_frame = λ _ w. refl;
  exec_ok = λ _ stmt role new w h. (
    ap (λ r. r.0) (execute-Alters stmt role new w h),
    λ q. ap (λ r. r.1 q) (execute-Alters stmt role new w h),
  );
}

abbrev all_old : Passwords
all_old role = codes "old"

-- The administrative role is the one that is rotated.
rotate-restore_example :
    let applied = Postgres.apply postgres_driver target next all_old in
    let verified = Postgres.verify postgres_driver target next applied.1 in
    let restored = Postgres.restore postgres_driver target (codes "old") next verified.1 in
    (applied.0 ≡ ok tt)
    × (verified.0 ≡ ok tt)
    × (restored.0 ≡ ok tt)
    × Set postgres_driver postgres_server target (codes "old") all_old restored.1
unfolding postgres_server
rotate-restore_example =
    rotate-restore postgres_driver postgres_server target next (codes "old") all_old refl

-- The password in memory and the one in the file.
abbrev Memory : Type 0
Memory = Text × Text

-- CONFIG REWRITE fails.
abbrev redis_driver : Redis.Driver Memory U
redis_driver = record {
  ping = λ c w. (if eq_text w.0 c.password then ok tt else err tt, w);
  config_set =
      λ c parameter value w. if eq_text w.0 c.password then (ok tt, (value, w.1)) else (err tt, w);
  config_rewrite = λ c w. (err tt, w);
  close = λ c w. w;
}

redis_server : Redis.Server.Server redis_driver
redis_server = record {
  memory = λ w. w.0;
  file = λ w. w.1;
  set_law = λ c value w. elim (Bool-cases (eq_text w.0 c.password)) [
    | inl accepted ↦ rw accepted ((eq_text_iff w.0 c.password).0 accepted, refl, refl)
    | inr refused ↦ rw refused (refl, refl)
  ];
  rewrite_law = λ c w. (refl, refl);
  close_law = λ c w. (refl, refl);
}

apply-AllOrNothing_example :
    AllOrNothing redis_driver redis_server next
      (codes "old", codes "old")
      (Redis.apply redis_driver target next (codes "old", codes "old"))
apply-AllOrNothing_example =
    apply-AllOrNothing redis_driver redis_server target next (codes "old", codes "old")

abbrev host : Host U U
host = record {
  create_sink = λ dir w. (ok (dir ++ codes "/sink"), w);
  read_all = λ _ w. some [];
  remove_sink = λ _ w. w;
  run_process = λ _ _ w. (succeeded, w);
}

abbrev bare : Text → Option Text
bare name = none

-- An environment that holds the key of the audit trail.
abbrev with_key : Text → Option Text
with_key name = if eq_text name (codes "MASTER_KEY") then some (codes "k") else none

abbrev as_given : List (Text × Credential) → List (Text × Credential)
as_given values = values

bare-with_key :
    (name : Text) → eq_text name (codes "MASTER_KEY") ≡ false → bare name ≡ with_key name
bare-with_key name other = rw other refl

command_rotator-Isolated_example :
    (apply host bare as_given target next ≡ apply host with_key as_given target next)
    × (verify host bare as_given target next ≡ verify host with_key as_given target next)
    × (restore host bare as_given target (codes "old") next
        ≡ restore host with_key as_given target (codes "old") next)
unfolding eq_text
command_rotator-Isolated_example =
    command_rotator-Isolated bare with_key as_given target refl refl refl (refl, tt) host
      (codes "old") next next
