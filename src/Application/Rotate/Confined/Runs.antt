-- ===== src/Application/Rotate/Confined/Runs.antt =====
-- RotateSecret.Execute of internal/application/rotate.go over a store that refuses some paths:
-- the pipeline.
use secret_rotator.Prelude.{
  ◌≡◌, refl, Bool, true, not, List, [], ◌∷◌, is_nil, All, Option, none, some, inl, inr, Bool-cases,
}
use secret_rotator.Prelude.Int.{ℤ}
use secret_rotator.Prelude.Result.{Result, ok, err}
use secret_rotator.Prelude.Text.{Text}
use secret_rotator.Domain.Kind.{has_backing_service}
use secret_rotator.Domain.Target.{Target, Credential}
use secret_rotator.Domain.Secret.{Secret, primary_env_file, needs_verification}
use secret_rotator.Domain.Rotation
use secret_rotator.Domain.Rotation.{
  Step, rank, Rotation, Record, advance, begin_rotation, record_current_value, record_generated,
  record_applied, record_verified, record_file_written, record_restarted, CompensationAction,
  restore_file, restart_containers, restore_credential, restore_files, compensation_plan,
}
use secret_rotator.Domain.Inspection.{Document}
use secret_rotator.Application.Ports.{Ports, Rotator}
use secret_rotator.Application.Rotate.{
  after_record, audit, compensate, fail, Progress, Stage, proceed, after_apply, apply_stage,
  after_verify, verify_stage, after_write, write_stage, after_restart, restart_stage, stages,
  conclude, after_generate, after_lookup, after_open, after_resolve, with_rotator, execute,
}
use secret_rotator.Application.Rotate.Confined.{
  confined, Inside, Inside-advance, Inside-current, Inside-concat, compensation_plan-IsInside,
  undo_all-confined,
}

module _ (p : Ports) (inside : Text → Bool) (refused : p.Error) where
  open p use {World, Error}

  abbrev c : Ports
  c = confined p inside refused

  module _ (secret : Secret) (rotator : Rotator World Error) (target : Target)
      (next : Credential) where
    -- The same progress, of a journal whose written files are inside.
    abbrev Agrees : Progress c → Progress p → Type 0
    Agrees x y = (x ≡ y) × Inside p inside refused y.1

    after_apply-Agrees :
        (r : Rotation) (x : Result Error (Unit {0}) × World)
        → Inside p inside refused r
        → Agrees
            (after_apply c secret rotator target next r x)
            (after_apply p secret rotator target next r x)
    unfolding after_apply record_applied
    after_apply-Agrees r (err e, w) h = (refl, h)
    after_apply-Agrees r (ok _, w) h = (refl, Inside-advance p inside refused r Rotation.applied h)

    apply_stage-Agrees :
        (r : Rotation) (w : World)
        → Inside p inside refused r
        → Agrees
            (apply_stage c secret rotator target next r w)
            (apply_stage p secret rotator target next r w)
    unfolding apply_stage
    apply_stage-Agrees r w h = elim (Bool-cases (has_backing_service secret.kind)) [
      | inl backed ↦ rw backed (after_apply-Agrees r (rotator.apply target next w) h)
      | inr bare ↦ rw bare (refl, h)
    ]

    after_verify-Agrees :
        (r : Rotation) (x : Result Error (Unit {0}) × World)
        → Inside p inside refused r
        → Agrees
            (after_verify c secret rotator target next r x)
            (after_verify p secret rotator target next r x)
    unfolding after_verify record_verified
    after_verify-Agrees r (err e, w) h = (refl, h)
    after_verify-Agrees r (ok _, w) h =
        (refl, Inside-advance p inside refused r Rotation.verified h)

    verify_stage-Agrees :
        (r : Rotation) (w : World)
        → Inside p inside refused r
        → Agrees
            (verify_stage c secret rotator target next r w)
            (verify_stage p secret rotator target next r w)
    unfolding verify_stage
    verify_stage-Agrees r w h = elim (Bool-cases (needs_verification secret)) [
      | inl needed ↦ rw needed (after_verify-Agrees r (rotator.verify target next w) h)
      | inr skipped ↦ rw skipped (refl, h)
    ]

    after_write-Agrees :
        (path : Text) (rest : Stage c) (rest' : Stage p) (r : Rotation)
        (x : Result Error Text × World)
        → inside path ≡ true
        → Inside p inside refused r
        → ((r : Rotation) (w : World) → Inside p inside refused r → Agrees (rest r w) (rest' r w))
        → Agrees
            (after_write c secret rotator target next path rest r x)
            (after_write p secret rotator target next path rest' r x)
    unfolding after_write record_file_written
    after_write-Agrees path rest rest' r (err e, w) here h ih = (refl, h)
    after_write-Agrees path rest rest' r (ok before, w) here h ih = ih _ _ (
        Inside-advance p inside refused _ Rotation.files_updated
          (Inside-concat p inside refused r.written_files path h here))

    write_stage-Agrees :
        (paths : List Text) (r : Rotation) (w : World)
        → All (λ q. inside q ≡ true) paths
        → Inside p inside refused r
        → Agrees
            (write_stage c secret rotator target next paths r w)
            (write_stage p secret rotator target next paths r w)
    unfolding write_stage
    write_stage-Agrees [] r w hs h = (refl, h)
    write_stage-Agrees (path ∷ paths) r w (here, hs) h = rw here (
        after_write-Agrees path _ _ r (p.write_env path secret.env_key next w) here h
          (λ r w h. write_stage-Agrees paths r w hs h))

    after_restart-Agrees :
        (cs : List Text) (r : Rotation) (x : Result Error (Unit {0}) × World)
        → Inside p inside refused r
        → Agrees
            (after_restart c secret rotator target next cs r x)
            (after_restart p secret rotator target next cs r x)
    unfolding after_restart record_restarted
    after_restart-Agrees cs r (err e, w) h =
        (refl, Inside-advance p inside refused _ Rotation.restarted h)
    after_restart-Agrees cs r (ok _, w) h =
        (refl, Inside-advance p inside refused _ Rotation.restarted h)

    restart_stage-Agrees :
        (cs : List Text) (r : Rotation) (w : World)
        → Inside p inside refused r
        → Agrees
            (restart_stage c secret rotator target next cs r w)
            (restart_stage p secret rotator target next cs r w)
    unfolding restart_stage
    restart_stage-Agrees cs r w h = elim (Bool-cases (not (is_nil cs))) [
      | inl some_given ↦ rw some_given (after_restart-Agrees cs r (p.restart cs w) h)
      | inr none_given ↦ rw none_given (refl, h)
    ]

    proceed-Agrees :
        (t : Stage c) (t' : Stage p) (x : Progress c) (y : Progress p)
        → ((r : Rotation) (w : World) → Inside p inside refused r → Agrees (t r w) (t' r w))
        → Agrees x y
        → Agrees (proceed c t x) (proceed p t' y)
    proceed-Agrees t t' x (none, r, w) ih (same, h) = rw same (ih r w h)
    proceed-Agrees t t' x (some e, r, w) ih (same, h) = rw same (refl, h)

    stages-Agrees :
        (cs : List Text) (r : Rotation) (w : World)
        → All (λ q. inside q ≡ true) secret.env_files
        → Inside p inside refused r
        → Agrees
            (stages c secret rotator target next cs r w)
            (stages p secret rotator target next cs r w)
    unfolding stages
    stages-Agrees cs r w hs h = proceed-Agrees _ _ _ _ (restart_stage-Agrees cs) (
        proceed-Agrees _ _ _ _ (λ r w. write_stage-Agrees secret.env_files r w hs)
          (proceed-Agrees _ _ _ _ verify_stage-Agrees (apply_stage-Agrees r w h)))

    conclude-confined :
        (x : Progress c) (y : Progress p)
        → Agrees x y
        → conclude c secret rotator target next x ≡ conclude p secret rotator target next y
    unfolding conclude compensate audit after_record
    conclude-confined x (none, r, w) (same, h) = rw same refl
    conclude-confined x (some e, r, w) (same, h) =
        rw
          (
            same,
            undo_all-confined p inside refused rotator target r (compensation_plan r) w
                (compensation_plan-IsInside p inside refused r h),
          )
          refl

  module _ (secret : Secret) (first : inside (primary_env_file secret) ≡ true)
      (all : All (λ q. inside q ≡ true) secret.env_files) where
    after_generate-confined :
        (rotator : Rotator World Error) (target : Target) (cs : List Text) (r : Rotation)
        (x : Result Error Credential × World)
        → Inside p inside refused r
        → after_generate c secret rotator target cs r x
          ≡ after_generate p secret rotator target cs r x
    unfolding after_generate fail audit after_record record_generated
    after_generate-confined rotator target cs r (err e, w) h = refl
    after_generate-confined rotator target cs r (ok next, w) h =
        conclude-confined secret rotator target next _ _ (
          stages-Agrees secret rotator target next cs _ _ all
            (Inside-advance p inside refused _ Rotation.generated h))

    after_lookup-confined :
        (rotator : Rotator World Error) (cs : List Text) (started : ℤ) (doc : Document)
        (o : Option Credential) (w : World)
        → after_lookup c secret rotator cs started doc o w
          ≡ after_lookup p secret rotator cs started doc o w
    unfolding after_lookup begin_rotation
    after_lookup-confined rotator cs started doc none w = refl
    after_lookup-confined rotator cs started doc (some current) w =
        after_generate-confined rotator _ cs _ _
          (Inside-current p inside refused (begin_rotation secret started) current doc.snapshot tt)

    after_open-confined :
        (rotator : Rotator World Error) (cs : List Text) (started : ℤ)
        (x : Result Error Document × World)
        → after_open c secret rotator cs started x ≡ after_open p secret rotator cs started x
    unfolding after_open
    after_open-confined rotator cs started (err e, w) = refl
    after_open-confined rotator cs started (ok doc, w) =
        after_lookup-confined rotator cs started doc (doc.lookup_key secret.env_key) w

    after_resolve-confined :
        (rotator : Rotator World Error) (x : Result Error (List Text) × World)
        → after_resolve c secret rotator x ≡ after_resolve p secret rotator x
    unfolding after_resolve
    after_resolve-confined rotator (err e, w) = refl
    after_resolve-confined rotator (ok cs, w) =
        let (started, w') = p.now w in
        rw first (after_open-confined rotator cs started (p.open_env (primary_env_file secret) w'))

    with_rotator-confined :
        (x : Result Error (Rotator World Error)) (w : World)
        → with_rotator c secret x w ≡ with_rotator p secret x w
    unfolding with_rotator
    with_rotator-confined (err e) w = refl
    with_rotator-confined (ok rotator) w =
        after_resolve-confined rotator (p.resolve secret.containers w)

    -- A rotation reads and writes no path but the files of its secret.
    pub execute-confined : (w : World) → execute c secret w ≡ execute p secret w
    unfolding execute
    execute-confined w = with_rotator-confined (p.rotator_for secret.kind) w
