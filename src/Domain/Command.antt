-- ===== src/Domain/Command.antt =====
-- internal/domain/command.go: the programs that rotate a credential, and their validation.
pub mod Valid
use secret_rotator.Prelude.{
  ℕ, zero, suc, ◌+◌, ◌==◌, ltb, Bool, true, false, not, ◌&&◌, List, [], ◌∷◌, is_nil, length,
  if◌then◌else◌, any,
}
use secret_rotator.Prelude.Int.{ℤ, pos, ltb_ℤ}
use secret_rotator.Prelude.Result.{Result, ok, err, ◌>>=◌}
use secret_rotator.Prelude.Text.{Text, codes, eq_text, trim_space, contains_any}
use secret_rotator.Domain.Errors.{
  Label, apply, verify, restore, Invalid, command_apply_required, command_empty_program,
  command_shell_line, command_null_byte, command_negative_timeout, Warning, no_verify,
}

-- A nil slice and an empty one are both `[]`: the code only looks at their length.
pub record CommandSpec : Type 0 where
  pub apply_argv : List Text
  pub verify_argv : List Text
  pub restore_argv : List Text
  pub timeout : ℤ
  pub pass_env : List Text
  pub working_dir : Text

-- 30 s, in nanoseconds.
abbrev pub default_command_timeout : ℤ
default_command_timeout = pos 30000000000

unfoldable pub is_set : CommandSpec → Bool
is_set c = not (is_nil c.apply_argv)

unfoldable pub effective_timeout : CommandSpec → ℤ
effective_timeout c = if ltb_ℤ (pos 0) c.timeout then c.timeout else default_command_timeout

-- The flag says whether the program is the dedicated one.
unfoldable pub restore_command : CommandSpec → List Text × Bool
restore_command c =
    if not (is_nil c.restore_argv) then (c.restore_argv, true) else (c.apply_argv, false)

-- The loop over the arguments, from argument `i`.
unfoldable pub check_null : Label → ℕ → List Text → Result Invalid (Unit {0})
check_null label i [] = ok tt
check_null label i (arg ∷ args) =
    let rest = check_null label (suc i) args in
    if any (λ c. c == 0) arg then err (command_null_byte label i) else rest

unfoldable pub validate_argv : Label → List Text → Result Invalid (Unit {0})
unfolding check_null
validate_argv label [] = ok tt
validate_argv label (first ∷ args) =
    let program = trim_space first in
    if eq_text program []
    then err (command_empty_program label)
    else if is_nil args && contains_any program (codes " \t")
    then err (command_shell_line label program)
    else check_null label 0 (first ∷ args)

abbrev pub argv_of : CommandSpec → Label → List Text
argv_of c apply = c.apply_argv
argv_of c verify = c.verify_argv
argv_of c restore = c.restore_argv

-- Go ranges over the map of the three argv lists in an order of its own choice.
pub data MapOrder : Type 0 where
  avr arv var vra rav rva : MapOrder

abbrev pub labels : MapOrder → List Label
labels avr = apply ∷ verify ∷ restore ∷ []
labels arv = apply ∷ restore ∷ verify ∷ []
labels var = verify ∷ apply ∷ restore ∷ []
labels vra = verify ∷ restore ∷ apply ∷ []
labels rav = restore ∷ apply ∷ verify ∷ []
labels rva = restore ∷ verify ∷ apply ∷ []

unfoldable pub validate_all : CommandSpec → List Label → Result Invalid (Unit {0})
unfolding validate_argv
validate_all c [] = ok tt
validate_all c (l ∷ ls) = validate_argv l (argv_of c l) >>= λ _. validate_all c ls

unfoldable pub validate : MapOrder → CommandSpec → Result Invalid (List Warning)
unfolding is_set validate_all
validate o c =
    if not (is_set c)
    then err command_apply_required
    else validate_all c (labels o) >>= λ _.
        if ltb_ℤ c.timeout (pos 0)
        then err command_negative_timeout
        else ok (if is_nil c.verify_argv then no_verify ∷ [] else [])
