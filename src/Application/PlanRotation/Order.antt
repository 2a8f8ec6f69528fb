-- ===== src/Application/PlanRotation/Order.antt =====
-- The order of the steps of a plan of internal/application/plan.go.
use secret_rotator.Prelude.{
  ℕ, leb, ◌≡◌, refl, true, List, [], ◌∷◌, ◌++◌, arith, inl, inr, Bool-cases, All, is_nil,
}
use secret_rotator.Prelude.Text.{Text}
use secret_rotator.Domain.Kind.{has_backing_service, uses_commands}
use secret_rotator.Domain.Secret.{Secret}
use secret_rotator.Domain.Rotation.{rank}
use secret_rotator.Application.PlanRotation.{
  PlannedAction, service_actions, file_actions, restart_actions, no_restart, plan_actions,
}

-- No step is below the floor, and none below the one before it.
abbrev pub Ordered : ℕ → List PlannedAction → Type 0
Ordered floor [] = Unit
Ordered floor (a ∷ rest) = (leb floor (rank a.step) ≡ true) × Ordered (rank a.step) rest

Ordered-weaken : (f k : ℕ) (xs : List PlannedAction) → leb f k ≡ true → Ordered k xs → Ordered f xs
Ordered-weaken f k [] h o = tt
Ordered-weaken f k (x ∷ xs) h (first, rest) = (ground arith, rest)

-- Actions of one step in front of later ones.
Ordered-append :
    (f k : ℕ) (xs ys : List PlannedAction)
    → leb f k ≡ true
    → All (λ (a : PlannedAction). rank a.step ≡ k) xs
    → Ordered k ys
    → Ordered f (xs ++ ys)
Ordered-append f k [] ys h same o = Ordered-weaken f k ys h o
Ordered-append f k (x ∷ xs) ys h (e, same) o =
    rw e (h, Ordered-append k k xs ys (ground arith) same o)

file_actions-step :
    (key : Text) (paths : List Text)
    → All (λ (a : PlannedAction). rank a.step ≡ 5) (file_actions key paths)
unfolding file_actions
file_actions-step key [] = tt
file_actions-step key (p ∷ ps) = (refl, file_actions-step key ps)

restart_actions-step :
    (cs : List Text) → All (λ (a : PlannedAction). rank a.step ≡ 6) (restart_actions cs)
unfolding restart_actions
restart_actions-step [] = tt
restart_actions-step (c ∷ cs) = (refl, restart_actions-step cs)

no_restart-step : (cs : List Text) → All (λ (a : PlannedAction). rank a.step ≡ 6) (no_restart cs)
no_restart-step [] = (refl, tt)
no_restart-step (c ∷ cs) = tt

-- The actions on the service, in front of those on the files.
service_actions-Ordered :
    (s : Secret) (ys : List PlannedAction) → Ordered 4 ys → Ordered 2 (service_actions s ++ ys)
unfolding service_actions
service_actions-Ordered s ys o = elim (Bool-cases (uses_commands s.kind)) [
  | inl commands ↦ elim (Bool-cases (is_nil s.target.command_spec.verify_argv)) [
    | inl unverified ↦ rw (commands, unverified) (refl, (refl, o))
    | inr verified ↦ rw (commands, verified) (refl, (refl, o))
  ]
  | inr builtin ↦ elim (Bool-cases (has_backing_service s.kind)) [
    | inl backed ↦ rw (builtin, backed) (refl, (refl, o))
    | inr generic ↦ rw (builtin, generic) (refl, Ordered-weaken 3 4 ys refl o)
  ]
]

-- The steps of a plan are in the order of the pipeline.
pub plan_actions-Ordered :
    (s : Secret) (containers : List Text) → Ordered 1 (plan_actions s containers)
unfolding plan_actions
plan_actions-Ordered s cs = (
  refl,
  (
    refl,
    service_actions-Ordered s _ (
        Ordered-append 4 5 (file_actions s.env_key s.env_files) _ refl
          (file_actions-step s.env_key s.env_files)
          (Ordered-append 5 6 (restart_actions cs) _ refl (restart_actions-step cs)
            (Ordered-append 6 6 (no_restart cs) _ refl (no_restart-step cs) (refl, tt)))),
  ),
)
