-- ===== src/Domain/Target.antt =====
-- internal/domain/target.go: the backing service whose credential is rotated.
use secret_rotator.Prelude.{suc, Bool, not, ◌&&◌, List, [], ◌∷◌, ◌++◌, if◌then◌else◌}
use secret_rotator.Prelude.Int.{ℤ, pos, negsuc, ltb_ℤ}
use secret_rotator.Prelude.Decimal.{print}
use secret_rotator.Prelude.Result.{Result, ok, err}
use secret_rotator.Prelude.Text.{Text, codes, eq_text}
use secret_rotator.Domain.Errors.{
  Invalid, host_required, username_required, Warning, command_ignored, empty_password, no_database,
}
use secret_rotator.Domain.Kind.{
  Kind, default_port, has_backing_service, uses_commands, requires_admin_account, requires_database,
}
use secret_rotator.Domain.Command.{CommandSpec, is_set, MapOrder, validate}

-- credential.go: a credential is the text that it wraps; the redaction of printed credentials
-- has no part in what the pipeline computes.
abbrev pub Credential : Type 0
Credential = Text

abbrev pub is_zero : Credential → Bool
is_zero c = eq_text c []

pub record Target : Type 0 where
  pub host : Text
  pub port : ℤ
  pub admin_user : Text
  pub admin_password : Credential
  pub admin_password_env : Text
  pub database : Text
  pub target_user : Text
  pub target_user_host : Text
  pub command_spec : CommandSpec

unfoldable pub effective_port : Target → Kind → ℤ
unfolding default_port
effective_port t k = if ltb_ℤ (pos 0) t.port then t.port else pos (default_port k)

unfoldable pub effective_target_user : Target → Text
effective_target_user t = if not (eq_text t.target_user []) then t.target_user else t.admin_user

unfoldable pub effective_target_user_host : Target → Text
effective_target_user_host t =
    if not (eq_text t.target_user_host []) then t.target_user_host else codes "%"

abbrev pub with_admin_password : Target → Credential → Target
with_admin_password t c = record t { admin_password = c }

-- The warnings on a target whose host and account are there, behind those collected before.
unfoldable pub service_warnings : Target → Kind → List Warning → List Warning
service_warnings t k found =
    let found' =
      if requires_admin_account k && is_zero t.admin_password && eq_text t.admin_password_env []
      then found ++ empty_password ∷ []
      else found in
    if requires_database k && eq_text t.database [] then found' ++ no_database ∷ [] else found'

unfoldable pub validate_for : MapOrder → Target → Kind → Result Invalid (List Warning)
unfolding service_warnings uses_commands has_backing_service requires_admin_account
validate_for o t k =
    if uses_commands k
    then validate o t.command_spec
    else let ignored = if is_set t.command_spec then command_ignored ∷ [] else [] in
      if not (has_backing_service k)
      then ok ignored
      else if eq_text t.host []
      then err host_required
      else if requires_admin_account k && eq_text t.admin_user []
      then err username_required
      else ok (service_warnings t k ignored)

-- `%d` of an int.
abbrev pub show_int : ℤ → Text
show_int (pos n) = print n
show_int (negsuc n) = b'-' ∷ print (suc n)

-- `Addr`.
unfoldable pub addr : Target → Kind → Text
unfolding effective_port
addr t k = t.host ++ (b':' ∷ show_int (effective_port t k))
