-- ===== src/Domain/Command/Valid.antt =====
-- The validation of internal/domain/command.go.
use secret_rotator.Prelude.{
  ℕ, suc, ◌==◌, ◌≡◌, ◌≢◌, inl, inr, Bool, false, ◌&&◌, List, [], ◌∷◌, arith, is_nil, any, All,
  Bool-cases,
}
use secret_rotator.Prelude.Int.{pos, ◌≤ℤ◌}
use secret_rotator.Prelude.Result.{ok, bind-eq-ok}
use secret_rotator.Prelude.Text.{Text, codes, eq_text_iff, trim_space, contains_any}
use secret_rotator.Domain.Errors.{Label, Warning}
use secret_rotator.Domain.Command.{
  CommandSpec, check_null, validate_argv, argv_of, MapOrder, avr, arv, var, vra, rav, rva, labels,
  validate_all, validate, is_set,
}

abbrev has_null : Text → Bool
has_null arg = any (λ c. c == 0) arg

abbrev IsProgram : Text → List Text → Type 0
IsProgram first args =
    (trim_space first ≢ []) × (is_nil args && contains_any (trim_space first) (codes " \t") ≡ false)

-- An argv list that runs as written: a program, no shell line in its place, no null byte.
abbrev pub IsArgv : List Text → Type 0
IsArgv [] = Unit
IsArgv (first ∷ args) = IsProgram first args × All (λ arg. has_null arg ≡ false) (first ∷ args)

pub record IsRunnable (c : CommandSpec) : Type 0 where
  pub has_apply : c.apply_argv ≢ []
  pub apply_runs : IsArgv c.apply_argv
  pub verify_runs : IsArgv c.verify_argv
  pub restore_runs : IsArgv c.restore_argv
  pub timeout_nonneg : pos 0 ≤ℤ c.timeout

check_null-ok :
    (l : Label) (i : ℕ) (args : List Text)
    → check_null l i args ≡ ok tt
    → All (λ arg. has_null arg ≡ false) args
unfolding check_null
check_null-ok l i [] h = tt
check_null-ok l i (a ∷ args) h = ground (arith, check_null-ok l (suc i) args)

validate_argv-IsArgv : (l : Label) (argv : List Text) → validate_argv l argv ≡ ok tt → IsArgv argv
unfolding validate_argv
validate_argv-IsArgv l [] h = tt
validate_argv-IsArgv l (first ∷ args) h =
    ground (arith, eq_text_iff (trim_space first) [], check_null-ok l 0 (first ∷ args))

validate_all-IsArgv :
    (c : CommandSpec) (ls : List Label)
    → validate_all c ls ≡ ok tt
    → All (λ l. IsArgv (argv_of c l)) ls
unfolding validate_all
validate_all-IsArgv c [] h = tt
validate_all-IsArgv c (l ∷ ls) h =
    let (_, first, rest) = bind-eq-ok (validate_argv l (argv_of c l)) (λ _. validate_all c ls) h in
    (validate_argv-IsArgv l (argv_of c l) first, validate_all-IsArgv c ls rest)

-- Whatever order Go ranges in, all three lists are checked.
All-labels :
    (c : CommandSpec) (o : MapOrder)
    → All (λ l. IsArgv (argv_of c l)) (labels o)
    → IsArgv c.apply_argv × IsArgv c.verify_argv × IsArgv c.restore_argv
All-labels c avr (a, (v, (r, _))) = (a, v, r)
All-labels c arv (a, (r, (v, _))) = (a, v, r)
All-labels c var (v, (a, (r, _))) = (a, v, r)
All-labels c vra (v, (r, (a, _))) = (a, v, r)
All-labels c rav (r, (a, (v, _))) = (a, v, r)
All-labels c rva (r, (v, (a, _))) = (a, v, r)

-- A command block that validation accepts, in whatever order Go ranges over the argv lists, has a
-- program to apply with, three argv lists that are empty or name a program, are no single shell
-- line and hold no null byte, and a timeout that is not negative.
pub validate-IsRunnable :
    (o : MapOrder) (c : CommandSpec) {ws : List Warning} → validate o c ≡ ok ws → IsRunnable c
unfolding validate
validate-IsRunnable o c h = elim (Bool-cases (is_set c)) [
  | inr unset ↦ absurd (ground (arith, unset))
  | inl set ↦
      let (_, checked, rest) = bind-eq-ok (validate_all c (labels o)) _ (rw set at h) in
      let (a, v, r) = All-labels c o (validate_all-IsArgv c (labels o) checked) in
      record {
        has_apply = λ e. unfold is_set in ground arith;
        apply_runs = a;
        verify_runs = v;
        restore_runs = r;
        timeout_nonneg = ground arith;
      }
]
