-- ===== src/Credentials/MySql.antt =====
-- internal/infrastructure/credential/mysql.go. The driver is the argument `Driver`: opening a handle,
-- pinging it, which logs in, and running a statement.
pub mod Literal
use secret_rotator.Prelude.{Bool, true, false, List, [], ◌∷◌, ◌++◌, ◌==◌, if◌then◌else◌}
use secret_rotator.Prelude.Result.{Result, ok, err}
use secret_rotator.Prelude.Text.{Text, codes, eq_text}
use secret_rotator.Domain.Kind.{Kind}
use secret_rotator.Domain.Target.{
  Target, Credential, addr, effective_target_user, effective_target_user_host,
}
use secret_rotator.Application.Ports.{Call, Rotator}
use secret_rotator.Application.Calls.{and_then, ◌>>=◌, ◌>>◌, done, wrapping, deferring, or_else}

-- The fields of `mysql.Config` that the code sets to what depends on its arguments.
pub record Config : Type 0 where
  pub net_addr : Text
  pub user : Text
  pub passwd : Text
  pub db_name : Text

pub record Driver (W E C : Type 0) : Type 0 where
  pub sql_open : Config → Call W E C
  pub ping : C → Call W E (Unit {0})
  pub exec : C → Text → Call W E (Unit {0})
  pub close : C → W → W

pub data MySqlError (E : Type 0) : Type 0 where
  connecting : Text → E → MySqlError E
  authenticating : Text → E → MySqlError E
  connecting_to_restore : Text → E → MySqlError E
  alter_user : Text → E → MySqlError E

-- `escapeMySQLLiteral`.
unfoldable pub escape_mysql_literal : Text → Text
escape_mysql_literal [] = []
escape_mysql_literal (c ∷ cs) =
    let rest = escape_mysql_literal cs in
    if c == b'\\'
    then b'\\' ∷ b'\\' ∷ rest
    else if c == b'\''
    then b'\\' ∷ b'\'' ∷ rest
    else c ∷ rest

unfoldable pub account_of : Target → Text
unfolding escape_mysql_literal
account_of t =
    codes "'"
    ++ (escape_mysql_literal (effective_target_user t)
        ++ (codes "'@'" ++ (escape_mysql_literal (effective_target_user_host t) ++ codes "'")))

unfoldable pub alter_user_stmt : Target → Credential → Text
unfolding account_of
alter_user_stmt t c =
    codes "ALTER USER "
    ++ (account_of t ++ (codes " IDENTIFIED BY '" ++ (escape_mysql_literal c ++ codes "'")))

unfoldable pub admin_is_target : Target → Bool
admin_is_target t = eq_text t.admin_user (effective_target_user t)

unfoldable pub config_for : Target → Text → Credential → Config
config_for t user pass = record {
  net_addr = addr t Kind.mysql;
  user = user;
  passwd = pass;
  db_name = t.database;
}

module _ {W E C : Type 0} (driver : Driver W E C) where
  open driver use {sql_open, ping, exec, close}

  -- A handle that does not answer is closed.
  unfoldable pub pinged : C → Call W E C
  pinged db = or_else (ping db) (λ e w. (err e, close db w)) >>= λ _ w. (ok db, w)

  unfoldable pub connect : Target → Text → Credential → Call W E C
  unfolding pinged config_for
  connect t user pass = sql_open (config_for t user pass) >>= pinged

  unfoldable pub alter_password : C → Target → Credential → Call W (MySqlError E) (Unit {0})
  unfolding alter_user_stmt
  alter_password db t c = wrapping (alter_user (account_of t)) (exec db (alter_user_stmt t c))

  unfoldable pub apply : Target → Credential → Call W (MySqlError E) (Unit {0})
  unfolding connect alter_password
  apply t next = do
    db ← wrapping (connecting t.admin_user) (connect t t.admin_user t.admin_password)
    deferring (close db) (alter_password db t next)

  unfoldable pub verify : Target → Credential → Call W (MySqlError E) (Unit {0})
  unfolding connect
  verify t c = do
    db ← wrapping (authenticating (effective_target_user t)) (connect t (effective_target_user t) c)
    deferring (close db) done

  -- The second attempt, if the administrative account is the one that was rotated.
  unfoldable pub connect_again : Target → Credential → E → Call W E C
  unfolding connect admin_is_target
  connect_again t current e =
      if admin_is_target t then connect t t.admin_user current else λ w. (err e, w)

  unfoldable pub restore : Target → Credential → Credential → Call W (MySqlError E) (Unit {0})
  unfolding connect_again alter_password
  restore t previous current = do
    db ←
        wrapping (connecting_to_restore t.admin_user)
          (or_else (connect t t.admin_user t.admin_password) (connect_again t current))
    deferring (close db) (alter_password db t previous)

  unfoldable pub mysql_rotator : Rotator W (MySqlError E)
  unfolding apply verify restore
  mysql_rotator = record { apply = apply; verify = verify; restore = restore }
