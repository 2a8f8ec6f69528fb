-- ===== src/Credentials/Postgres.antt =====
-- internal/infrastructure/credential/postgres.go. The driver pgx is the argument `Driver`: connecting
-- with a URL, running a statement, closing, and the quoting of an identifier.
pub mod Literal
pub mod Server
use secret_rotator.Prelude.{
  Bool, List, [], ◌∷◌, ◌++◌, ◌==◌, Option, none, some, if◌then◌else◌, ◌&&◌,
}
use secret_rotator.Prelude.Result.{Result, ok, err}
use secret_rotator.Prelude.Text.{Text, codes, eq_text, strip_prefix}
use secret_rotator.Domain.Kind.{Kind}
use secret_rotator.Domain.Target.{Target, Credential, addr, effective_target_user}
use secret_rotator.Application.Ports.{Call, Rotator}
use secret_rotator.Application.Calls.{and_then, ◌>>=◌, done, wrapping, deferring, or_else}

-- The `url.URL` of a connection, with the scheme postgres.
pub record PgUrl : Type 0 where
  pub user : Text
  pub password : Text
  pub host : Text
  pub path : Text

pub record Driver (W E C : Type 0) : Type 0 where
  pub dial : PgUrl → Call W E C
  pub exec : C → Text → Call W E (Unit {0})
  pub close : C → W → W
  pub sanitize : Text → Text

pub data PgError (E : Type 0) : Type 0 where
  connecting : Text → E → PgError E
  authenticating : Text → E → PgError E
  connecting_to_restore : Text → E → PgError E
  alter_role : Text → E → PgError E

-- `strings.ReplaceAll` of a quote by two.
unfoldable pub double_quotes : Text → Text
double_quotes [] = []
double_quotes (c ∷ cs) =
    let rest = double_quotes cs in if c == b'\'' then b'\'' ∷ b'\'' ∷ rest else c ∷ rest

-- `strings.TrimPrefix`.
abbrev pub trim_prefix : Text → Text → Text
trim_prefix p s = elim (strip_prefix p s) [ none ↦ s | some rest ↦ rest ]

unfoldable pub url_for : Target → Text → Credential → PgUrl
url_for t user pass = record {
  user = user;
  password = pass;
  host = addr t Kind.postgres;
  path = codes "/" ++ trim_prefix (codes "/") t.database;
}

module _ {W E C : Type 0} (driver : Driver W E C) where
  open driver use {dial, exec, close, sanitize}

  unfoldable pub alter_role_stmt : Target → Credential → Text
  unfolding double_quotes
  alter_role_stmt t c =
      codes "ALTER ROLE "
      ++ (sanitize (effective_target_user t)
          ++ (codes " WITH PASSWORD '" ++ (double_quotes c ++ codes "'")))

  unfoldable pub connect : Target → Text → Credential → Call W E C
  connect t user pass = dial (url_for t user pass)

  unfoldable pub alter_password : C → Target → Credential → Call W (PgError E) (Unit {0})
  unfolding alter_role_stmt
  alter_password conn t c =
      wrapping (alter_role (sanitize (effective_target_user t))) (exec conn (alter_role_stmt t c))

  unfoldable pub apply : Target → Credential → Call W (PgError E) (Unit {0})
  unfolding connect alter_password
  apply t next = do
    conn ← wrapping (connecting t.admin_user) (connect t t.admin_user t.admin_password)
    deferring (close conn) (alter_password conn t next)

  unfoldable pub verify : Target → Credential → Call W (PgError E) (Unit {0})
  unfolding connect
  verify t c = do
    conn ←
        wrapping (authenticating (effective_target_user t)) (connect t (effective_target_user t) c)
    deferring (close conn) done

  -- The second attempt, if the administrative role is the one that was rotated.
  unfoldable pub connect_again : Target → Credential → E → Call W E C
  unfolding connect
  connect_again t current e =
      if eq_text t.admin_user (effective_target_user t)
      then connect t t.admin_user current
      else λ w. (err e, w)

  unfoldable pub restore : Target → Credential → Credential → Call W (PgError E) (Unit {0})
  unfolding connect_again alter_password
  restore t previous current = do
    conn ←
        wrapping (connecting_to_restore t.admin_user)
          (or_else (connect t t.admin_user t.admin_password) (connect_again t current))
    deferring (close conn) (alter_password conn t previous)

  unfoldable pub postgres_rotator : Rotator W (PgError E)
  unfolding apply verify restore
  postgres_rotator = record { apply = apply; verify = verify; restore = restore }
