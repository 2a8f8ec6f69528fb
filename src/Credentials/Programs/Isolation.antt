-- ===== src/Credentials/Programs/Isolation.antt =====
-- What the programs of internal/infrastructure/credential/command.go learn of the rotator's own
-- environment.
use secret_rotator.Prelude.{
  ◌≡◌, refl, ap, List, [], ◌∷◌, ◌++◌, All, Option, is_nil, inl, inr, Bool-cases, if◌then◌else◌,
}
use secret_rotator.Prelude.Text.{Text, codes, eq_text}
use secret_rotator.Domain.Target.{Target, Credential, effective_target_user}
use secret_rotator.Credentials.Programs.{
  Invocation, Host, or_empty, getenv, temp_dir, or_default, path_or_default, entry, exposed,
  port_entry, pass_one, passed, build_env, run_argv, run, apply, verify, restore,
}

passed-same :
    (a b : Text → Option Text) (names : List Text)
    → All (λ name. a name ≡ b name) names
    → passed a names ≡ passed b names
unfolding passed
passed-same a b [] h = refl
passed-same a b (name ∷ names) (first, rest) =
    λ i. pass_one name (first i) (passed-same a b names rest i)

module _ (a b : Text → Option Text) (order : List (Text × Credential) → List (Text × Credential))
    (t : Target) (path : a (codes "PATH") ≡ b (codes "PATH"))
    (home : a (codes "HOME") ≡ b (codes "HOME")) (temp : a (codes "TMPDIR") ≡ b (codes "TMPDIR"))
    (listed : All (λ name. a name ≡ b name) t.command_spec.pass_env) where
  build_env-same : (inv : Invocation) → build_env a order t inv ≡ build_env b order t inv
  unfolding build_env
  build_env-same inv =
      let same_path : path_or_default a ≡ path_or_default b =
        unfold path_or_default in ap (λ (p : Option Text). or_default (or_empty p)) path in
      let same_home : getenv a (codes "HOME") ≡ getenv b (codes "HOME") = ap or_empty home in
      let same_rest = passed-same a b t.command_spec.pass_env listed in
      λ i.
        (entry (codes "PATH") (same_path i)
          ∷ entry (codes "HOME") (same_home i)
          ∷ entry (codes "ROTATOR_OPERATION") inv.operation
          ∷ entry (codes "ROTATOR_HOST") t.host
          ∷ entry (codes "ROTATOR_USERNAME") t.admin_user
          ∷ entry (codes "ROTATOR_TARGET_USER") (effective_target_user t)
          ∷ entry (codes "ROTATOR_DATABASE") t.database
          ∷ [])
        ++ (port_entry t ++ (exposed (order inv.values) ++ same_rest i))

  module _ {W E : Type 0} (host : Host W E) where
    run-same : (inv : Invocation) → run host a order t inv ≡ run host b order t inv
    unfolding run
    run-same inv =
        let same_dir : temp_dir a ≡ temp_dir b =
          ap (λ (p : Option Text). if eq_text (or_empty p) [] then codes "/tmp" else or_empty p)
            temp in
        let same_path : getenv a (codes "PATH") ≡ getenv b (codes "PATH") = ap or_empty path in
        λ i.
          run_argv host t inv.operation (build_env-same inv i) (same_dir i) (same_path i) inv.argv

    verify-same : (c : Credential) → verify host a order t c ≡ verify host b order t c
    unfolding verify
    verify-same c = elim (Bool-cases (is_nil t.command_spec.verify_argv)) [
      | inl without ↦ rw without refl
      | inr given ↦ rw given (run-same _)
    ]

    -- Two environments of the rotator that agree on PATH, on HOME, on TMPDIR and on what the
    -- secret's pass_env names make no difference to Apply, Verify and Restore of a command
    -- rotator: the programs are looked up in the same PATH and run with the same arguments and the
    -- same environment, and everything that follows is the same.
    pub command_rotator-Isolated :
        (previous current next : Credential)
        → (apply host a order t next ≡ apply host b order t next)
          × (verify host a order t next ≡ verify host b order t next)
          × (restore host a order t previous current ≡ restore host b order t previous current)
    unfolding apply restore
    command_rotator-Isolated previous current next = (run-same _, verify-same next, run-same _)
