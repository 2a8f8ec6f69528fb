-- ===== src/Application/PlanRotation/Steps.antt =====
-- Plans built by internal/application/plan.go, with the files of the world.
use secret_rotator.Prelude.{◌≡◌, refl, ◌∙◌, ap, List, Option, none, some}
use secret_rotator.Prelude.Result.{Result, ok, err}
use secret_rotator.Prelude.Text.{Text}
use secret_rotator.Domain.Target.{Credential}
use secret_rotator.Domain.Secret.{Secret, primary_env_file}
use secret_rotator.Domain.Inspection.{Document}
use secret_rotator.Application.Ports.{Ports, Rotator}
use secret_rotator.Application.Files.{FileView, SameFiles, Opened, StoreLaws, Frames}
use secret_rotator.Application.PlanRotation.{
  PlanResult, plan_resolved, plan_found, plan_opened, plan_with, build,
}
use secret_rotator.Application.PlanRotation.Order.{Ordered, plan_actions-Ordered}
use secret_rotator.Application.PlanRotation.Named.{
  written_by, restarted_by, named, plan_actions-named,
}

module _ (p : Ports) (v : FileView p) (frames : Frames p v) (laws : StoreLaws p v) where
  open p use {World, Error}
  open v use {view}

  -- A plan has the steps of the pipeline in order, writes exactly the files of the secret and
  -- restarts exactly the containers that it names; and no file was changed to find that out.
  abbrev pub IsPlan : Secret → World → PlanResult p → Type 0
  IsPlan s w (err e, w') = SameFiles p v w w'
  IsPlan s w (ok plan, w') =
      SameFiles p v w w'
      × Ordered 1 plan.actions
      × (named written_by plan.actions ≡ s.env_files)
      × (named restarted_by plan.actions ≡ plan.containers)
      × (plan.secret ≡ s)
      × ((p.resolve s.containers (p.open_env (primary_env_file s) w).1).0 ≡ ok plan.containers)

  plan_resolved-IsPlan :
      (s : Secret) (w : World) (x : Result Error (List Text) × World)
      → (p.resolve s.containers (p.open_env (primary_env_file s) w).1).0 ≡ x.0
      → SameFiles p v w x.1
      → IsPlan s w (plan_resolved p s x)
  unfolding plan_resolved
  plan_resolved-IsPlan s w (err e, w') resolved same = same
  plan_resolved-IsPlan s w (ok cs, w') resolved same = (
    same,
    plan_actions-Ordered s cs,
    (plan_actions-named s cs).0,
    (plan_actions-named s cs).1,
    refl,
    resolved,
  )

  plan_found-IsPlan :
      (s : Secret) (w w' : World) (o : Option Credential)
      → (p.open_env (primary_env_file s) w).1 ≡ w'
      → SameFiles p v w w'
      → IsPlan s w (plan_found p s o w')
  unfolding plan_found
  plan_found-IsPlan s w w' none opened same = same
  plan_found-IsPlan s w w' (some current) opened same =
      plan_resolved-IsPlan s w (p.resolve s.containers w')
        (ap (λ u. (p.resolve s.containers u).0) opened)
        (λ q. frames.resolve_frame s.containers w' q ∙ same q)

  plan_opened-IsPlan :
      (s : Secret) (w : World) (x : Result Error Document × World)
      → (p.open_env (primary_env_file s) w).1 ≡ x.1
      → Opened p v (primary_env_file s) w x
      → IsPlan s w (plan_opened p s x)
  unfolding plan_opened
  plan_opened-IsPlan s w (err e, w') opened same = same
  plan_opened-IsPlan s w (ok doc, w') opened (held, same) =
      plan_found-IsPlan s w w' (doc.lookup_key s.env_key) opened same

  plan_with-IsPlan :
      (s : Secret) (w : World) (x : Result Error (Rotator World Error))
      → IsPlan s w (plan_with p s x w)
  unfolding plan_with
  plan_with-IsPlan s w (err e) = λ q. refl
  plan_with-IsPlan s w (ok rotator) =
      plan_opened-IsPlan s w (p.open_env (primary_env_file s) w) refl
        (laws.open_law (primary_env_file s) w)

  -- Building a plan changes no file, over ports whose store keeps its contract and whose other
  -- calls leave the files alone. A plan is of the secret it is asked for; its steps are in the
  -- order of the pipeline, the files that it writes are those of the secret, and the containers
  -- that it restarts are those that the fleet resolved the secret's containers to, each once and
  -- in order.
  pub build-IsPlan : (s : Secret) (w : World) → IsPlan s w (build p s w)
  unfolding build
  build-IsPlan s w = plan_with-IsPlan s w (p.rotator_for s.kind)
