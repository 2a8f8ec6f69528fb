-- ===== src/Application/Rotate/Atomic.antt =====
-- The files behind a failed run of internal/application/rotate.go.
use secret_rotator.Prelude.{
  ◌≡◌, ◌⊎◌, refl, sym, ◌∙◌, true, false, List, [], ◌∷◌, Option, none, some, arith, inl, inr,
  Bool-cases,
}
use secret_rotator.Prelude.Int.{ℤ}
use secret_rotator.Prelude.Result.{Result, ok, err}
use secret_rotator.Prelude.Text.{Text, eq_text, eq_text_iff, lookup}
use secret_rotator.Domain.Target.{Target, Credential}
use secret_rotator.Domain.Secret.{Secret, primary_env_file}
use secret_rotator.Domain.Rotation
use secret_rotator.Domain.Rotation.{
  rank, Rotation, begin_rotation, record_current_value, record_generated, advance,
  compensation_plan, failed_record, succeeded, record_done, Record,
}
use secret_rotator.Domain.Inspection.{Document}
use secret_rotator.Application.Ports.{Ports, Rotator, Cause}
use secret_rotator.Application.Files.{FileView, SameFiles, Opened, StoreLaws, RotatorFrame, Frames}
use secret_rotator.Application.Rotate.{
  RotateError, no_rotator, resolving, reading, key_missing, not_generated, rolled_back,
  rollback_failed, Failure, after_record, audit, rollback_error, undo_all, compensate, fail,
  Progress, conclude, after_generate, after_lookup, after_open, after_resolve, with_rotator,
  execute,
}
use secret_rotator.Application.Rotate.Journal.{Journal}
use secret_rotator.Application.Rotate.Keeps.{Keeps-stages}
use secret_rotator.Application.Rotate.Undo.{undo_all-SameFiles}

module _ (p : Ports) (v : FileView p) where
  open p use {World, Error}
  open v use {view}

  -- An error other than a failed rollback comes with files that are the same.
  abbrev pub Atomic : World → Result (RotateError Error) (Unit {0}) × World → Type 0
  Atomic w (ok _, w') = Unit
  Atomic w (err (rollback_failed c fs), w') = Unit
  Atomic w (err (rolled_back c), w') = SameFiles p v w w'
  Atomic w (err (not_generated c), w') = SameFiles p v w w'
  Atomic w (err (key_missing k f), w') = SameFiles p v w w'
  Atomic w (err (reading f e), w') = SameFiles p v w w'
  Atomic w (err (resolving e), w') = SameFiles p v w w'
  Atomic w (err (no_rotator e), w') = SameFiles p v w w'

  module _ (frames : Frames p v) (laws : StoreLaws p v) where
    after_record-SameFiles :
        (w : World) (x : Result Error (Unit {0}) × World)
        → SameFiles p v w x.1
        → SameFiles p v w (after_record p x)
    unfolding after_record
    after_record-SameFiles w (ok _, w') h = h
    after_record-SameFiles w (err e, w') h = λ q. frames.warn_frame w' q ∙ h q

    pub audit-SameFiles :
        (entry : Record (Cause Error)) (w : World) → SameFiles p v w (audit p entry w)
    unfolding audit
    audit-SameFiles entry w = after_record-SameFiles w _ (frames.audit_frame entry w)

    rollback_error-Atomic :
        (start w : World) (c : Cause Error) (fs : List (Failure Error))
        → (fs ≡ [] → SameFiles p v start w)
        → Atomic start (err (rollback_error p c fs), w)
    rollback_error-Atomic start w c [] h = h refl
    rollback_error-Atomic start w c (f ∷ fs) h = tt

    module _ (start : World) (rotator : Rotator World Error) (rf : RotatorFrame p v rotator) where
      compensate-Atomic :
          (r : Rotation) (target : Target) (c : Cause Error) (w : World)
          → Journal p v start r w
          → Atomic start (compensate p r rotator target c w)
      unfolding compensate
      compensate-Atomic r target c w j =
          let (failures, w1) = undo_all p rotator target r (compensation_plan r) w in
          let (t, w2) = p.now w1 in
          rollback_error-Atomic start _ c failures (λ e q.
            audit-SameFiles (failed_record r t (some c)) w2 q
            ∙ frames.now_frame w1 q
            ∙ undo_all-SameFiles p v frames laws rotator rf target start r w j e q)

      conclude-Atomic :
          (secret : Secret) (target : Target) (next : Credential) (x : Progress p)
          → Journal p v start x.1 x.2
          → Atomic start (conclude p secret rotator target next x)
      unfolding conclude
      conclude-Atomic secret target next (some c, r, w) j = compensate-Atomic r target c w j
      conclude-Atomic secret target next (none, r, w) j = tt

      after_generate-Atomic :
          (secret : Secret) (target : Target) (refs : List Text) (r : Rotation)
          (x : Result Error Credential × World)
          → SameFiles p v start x.1
          → ((next : Credential) (w : World)
              → SameFiles p v start w
              → Journal p v start (record_generated r next) w)
          → Atomic start (after_generate p secret rotator target refs r x)
      unfolding after_generate fail
      after_generate-Atomic secret target refs r (err e, w) same j =
          λ q. audit-SameFiles _ _ q ∙ frames.now_frame w q ∙ same q
      after_generate-Atomic secret target refs r (ok next, w) same j =
          conclude-Atomic secret target next _ (
            Keeps-stages p v start frames laws secret rotator rf target next refs _ _
              (j next _ (λ q. frames.step_frame Rotation.generated w q ∙ same q)))

      -- The journal at the start of the stages holds the primary file's snapshot.
      first-Journal :
          (secret : Secret) (started : ℤ) (current : Credential) (snapshot : Text)
          → view start (primary_env_file secret) ≡ some snapshot
          → (next : Credential) (w : World) → SameFiles p v start w
          → Journal p v start
              (record_generated
                (record_current_value (begin_rotation secret started) current snapshot)
                next)
              w
      unfolding record_generated record_current_value begin_rotation lookup
      first-Journal secret started current snapshot h next w same = record {
        backed =
            λ q s found. backed_one q s found (Bool-cases (eq_text (primary_env_file secret) q));
        complete = λ q written. cc;
        untouched = λ q fresh. same q;
        begun = omega arith;
      }
        where
          backed_one :
              (q s : Text)
              → lookup q ((primary_env_file secret, snapshot) ∷ []) ≡ some s
              → (eq_text (primary_env_file secret) q ≡ true)
                ⊎ (eq_text (primary_env_file secret) q ≡ false)
              → view start q ≡ some s
          backed_one q s found (inl same') =
              rw (← (eq_text_iff (primary_env_file secret) q).0 same') (h ∙ (rw same' at found))
          backed_one q s found (inr other) = absurd (cc (rw other at found))

      after_lookup-Atomic :
          (secret : Secret) (refs : List Text) (started : ℤ) (doc : Document)
          (o : Option Credential) (w : World)
          → view start (primary_env_file secret) ≡ some doc.snapshot
          → SameFiles p v start w
          → Atomic start (after_lookup p secret rotator refs started doc o w)
      unfolding after_lookup
      after_lookup-Atomic secret refs started doc none w h same = same
      after_lookup-Atomic secret refs started doc (some current) w h same =
          after_generate-Atomic secret _ refs _ _
            (λ q.
              frames.generate_frame secret.length _ q
              ∙ frames.step_frame Rotation.read w q
              ∙ same q)
            (first-Journal secret started current doc.snapshot h)

      after_open-Atomic :
          (secret : Secret) (refs : List Text) (started : ℤ) (w : World)
          (x : Result Error Document × World)
          → SameFiles p v start w
          → Opened p v (primary_env_file secret) w x
          → Atomic start (after_open p secret rotator refs started x)
      unfolding after_open
      after_open-Atomic secret refs started w (err e, w') same opened = λ q. opened q ∙ same q
      after_open-Atomic secret refs started w (ok doc, w') same (held, opened) =
          after_lookup-Atomic secret refs started doc _ w' (sym (same _) ∙ held)
            (λ q. opened q ∙ same q)

      after_resolve-Atomic :
          (secret : Secret) (x : Result Error (List Text) × World)
          → SameFiles p v start x.1
          → Atomic start (after_resolve p secret rotator x)
      unfolding after_resolve
      after_resolve-Atomic secret (err e, w) same = same
      after_resolve-Atomic secret (ok refs, w) same =
          let (started, w') = p.now w in
          after_open-Atomic secret refs started w' _ (λ q. frames.now_frame w q ∙ same q)
            (laws.open_law (primary_env_file secret) w')

    with_rotator-Atomic :
        (secret : Secret) (x : Result Error (Rotator World Error)) (w : World)
        → p.rotator_for secret.kind ≡ x
        → Atomic w (with_rotator p secret x w)
    unfolding with_rotator
    with_rotator-Atomic secret (err e) w h = λ q. refl
    with_rotator-Atomic secret (ok rotator) w h =
        after_resolve-Atomic w rotator (frames.rotator_frame secret.kind rotator h) secret _
          (frames.resolve_frame secret.containers w)

    -- Over any ports whose store keeps its contract and whose other calls leave the files alone, a
    -- rotation that returns an error leaves every file as it was, unless the error says that the
    -- rollback failed.
    pub execute-Atomic : (secret : Secret) (w : World) → Atomic w (execute p secret w)
    unfolding execute
    execute-Atomic secret w = with_rotator-Atomic secret _ w refl
