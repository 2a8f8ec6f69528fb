-- ===== src/Application/PlanRotation/Named.antt =====
-- The files and containers that the actions of internal/application/plan.go name.
use secret_rotator.Prelude.{
  ◌≡◌, refl, sym, ◌∙◌, ap, List, [], ◌∷◌, ◌++◌, append_assoc, append-nil, inl, inr, Bool-cases,
  is_nil,
}
use secret_rotator.Prelude.Text.{Text}
use secret_rotator.Domain.Kind.{has_backing_service, uses_commands}
use secret_rotator.Domain.Secret.{Secret}
use secret_rotator.Application.PlanRotation.{
  Description, write_key, restart_container, PlannedAction, service_actions, file_actions,
  restart_actions, no_restart, plan_actions,
}

abbrev pub written_by : Description → List Text
written_by (write_key key path) = path ∷ []
written_by _ = []

abbrev pub restarted_by : Description → List Text
restarted_by (restart_container c) = c ∷ []
restarted_by _ = []

-- What the descriptions of a plan name: the files that it writes, and the containers that it
-- restarts.
abbrev pub named : (Description → List Text) → List PlannedAction → List Text
named f [] = []
named f (a ∷ rest) = f a.description ++ named f rest

named-append :
    (f : Description → List Text) (xs ys : List PlannedAction)
    → named f (xs ++ ys) ≡ named f xs ++ named f ys
named-append f [] ys = refl
named-append f (x ∷ xs) ys =
    ap (λ r. f x.description ++ r) (named-append f xs ys)
    ∙ sym (append_assoc (f x.description) (named f xs) (named f ys))

file_actions-written : (key : Text) (ps : List Text) → named written_by (file_actions key ps) ≡ ps
unfolding file_actions
file_actions-written key [] = refl
file_actions-written key (p ∷ ps) = ap (λ r. p ∷ r) (file_actions-written key ps)

file_actions-restarted :
    (key : Text) (ps : List Text) → named restarted_by (file_actions key ps) ≡ []
unfolding file_actions
file_actions-restarted key [] = refl
file_actions-restarted key (p ∷ ps) = file_actions-restarted key ps

restart_actions-written : (cs : List Text) → named written_by (restart_actions cs) ≡ []
unfolding restart_actions
restart_actions-written [] = refl
restart_actions-written (c ∷ cs) = restart_actions-written cs

restart_actions-restarted : (cs : List Text) → named restarted_by (restart_actions cs) ≡ cs
unfolding restart_actions
restart_actions-restarted [] = refl
restart_actions-restarted (c ∷ cs) = ap (λ r. c ∷ r) (restart_actions-restarted cs)

no_restart-named :
    (cs : List Text)
    → (named written_by (no_restart cs) ≡ []) × (named restarted_by (no_restart cs) ≡ [])
no_restart-named [] = (refl, refl)
no_restart-named (c ∷ cs) = (refl, refl)

service_actions-named :
    (s : Secret)
    → (named written_by (service_actions s) ≡ []) × (named restarted_by (service_actions s) ≡ [])
unfolding service_actions
service_actions-named s = elim (Bool-cases (uses_commands s.kind)) [
  | inl commands ↦ elim (Bool-cases (is_nil s.target.command_spec.verify_argv)) [
    | inl unverified ↦ rw (commands, unverified) (refl, refl)
    | inr verified ↦ rw (commands, verified) (refl, refl)
  ]
  | inr builtin ↦ elim (Bool-cases (has_backing_service s.kind)) [
    | inl backed ↦ rw (builtin, backed) (refl, refl)
    | inr generic ↦ rw (builtin, generic) (refl, refl)
  ]
]

pub plan_actions-named :
    (s : Secret) (cs : List Text)
    → (named written_by (plan_actions s cs) ≡ s.env_files)
      × (named restarted_by (plan_actions s cs) ≡ cs)
unfolding plan_actions
plan_actions-named s cs = (
  simp (
    named-append,
    (service_actions-named s).0,
    file_actions-written,
    restart_actions-written,
    (no_restart-named cs).0,
    append-nil,
  ),
  simp (
    named-append,
    (service_actions-named s).1,
    file_actions-restarted,
    restart_actions-restarted,
    (no_restart-named cs).1,
    append-nil,
  ),
)
