-- ===== src/Application/Rotate/Success.antt =====
-- The files behind a successful run of internal/application/rotate.go.
use secret_rotator.Prelude.{
  ◌≡◌, refl, ◌∙◌, ap, true, List, Option, none, some, inl, inr, Bool-cases, if◌then◌else◌,
}
use secret_rotator.Prelude.Int.{ℤ}
use secret_rotator.Prelude.Result.{Result, ok, err}
use secret_rotator.Prelude.Text.{Text}
use secret_rotator.Domain.Target.{Target, Credential}
use secret_rotator.Domain.Secret.{Secret, primary_env_file}
use secret_rotator.Domain.Secret.Valid.{Distinct, IsValid}
use secret_rotator.Domain.Rotation
use secret_rotator.Domain.Rotation.{Rotation, record_file_written}
use secret_rotator.Domain.Inspection.{Document}
use secret_rotator.Application.Ports.{Ports, Rotator}
use secret_rotator.Application.Files.{FileView, SameFiles, Opened, StoreLaws, RotatorFrame, Frames}
use secret_rotator.Application.Rotate.{
  RotateError, compensate, fail, Progress, conclude, after_generate, after_lookup, after_open,
  after_resolve, with_rotator, execute,
}
use secret_rotator.Application.Rotate.Journal.{is_in}
use secret_rotator.Application.Rotate.Atomic.{audit-SameFiles}
use secret_rotator.Application.Rotate.Updated.{
  Updated, UpdatedBy, Updated-after, UpdatedBy-before, stages-UpdatedBy,
}

module _ (p : Ports) (v : FileView p) where
  open p use {World, Error}
  open v use {view, updated, has_key}

  -- A file that held the key and holds its updated text now.
  abbrev pub NewText : Text → Credential → Option Text → Option Text → Type 0
  NewText key next o o' =
      (before : Text) × (o ≡ some before)
      × (has_key key before ≡ true)
      × (o' ≡ some (updated key next before))

  -- On success some value that the generator returned is in every file of the secret, which held
  -- the key, and the other files are as before.
  abbrev pub Rotated : Secret → World → Result (RotateError Error) (Unit {0}) × World → Type 0
  Rotated secret w (err e, w') = Unit
  Rotated secret w (ok _, w') =
      (next : Credential) × ((wg : World) × ((p.generate secret.length wg).0 ≡ ok next))
      × ((q : Text)
          → if is_in q secret.env_files
            then NewText secret.env_key next (view w q) (view w' q)
            else (view w' q ≡ view w q))

  Updated-NewText :
      (key : Text) (next : Credential) (paths : List Text) (w w' : World) (q : Text)
      → Updated p v key next paths w w'
      → if is_in q paths then NewText key next (view w q) (view w' q) else (view w' q ≡ view w q)
  Updated-NewText key next paths w w' q u = elim (Bool-cases (is_in q paths)) [
    | inl listed ↦ rw listed ((u q).0 listed)
    | inr other ↦ rw other ((u q).1 other)
  ]

  module _ (frames : Frames p v) (laws : StoreLaws p v) where
    module _ (secret : Secret) (d : Distinct secret.env_files) (start : World)
        (rotator : Rotator World Error) (rf : RotatorFrame p v rotator) where
      conclude-Rotated :
          (target : Target) (next : Credential) (x : Progress p) (wg : World)
          → (p.generate secret.length wg).0 ≡ ok next
          → UpdatedBy p v secret.env_key next secret.env_files start x
          → Rotated secret start (conclude p secret rotator target next x)
      unfolding conclude compensate
      conclude-Rotated target next (some c, r, w) wg g u = tt
      conclude-Rotated target next (none, r, w) wg g u = (
        next,
        (wg, g),
        λ q. Updated-NewText secret.env_key next secret.env_files start _ q (
            Updated-after p v secret.env_key next secret.env_files start w _ u
              (λ q. audit-SameFiles p v frames laws _ _ q ∙ frames.now_frame w q)),
      )

      after_generate-Rotated :
          (target : Target) (refs : List Text) (r : Rotation) (wg : World)
          (x : Result Error Credential × World)
          → p.generate secret.length wg ≡ x
          → SameFiles p v start x.1
          → Rotated secret start (after_generate p secret rotator target refs r x)
      unfolding after_generate fail
      after_generate-Rotated target refs r wg (err e, w) g same = tt
      after_generate-Rotated target refs r wg (ok next, w) g same =
          conclude-Rotated target next _ wg (ap (λ x. x.0) g) (
            UpdatedBy-before p v secret.env_key next secret.env_files start _ _
              (λ q. frames.step_frame Rotation.generated w q ∙ same q)
              (stages-UpdatedBy p v frames laws secret rotator rf target next refs _ _ d))

      after_lookup-Rotated :
          (refs : List Text) (started : ℤ) (doc : Document) (o : Option Credential) (w : World)
          → SameFiles p v start w
          → Rotated secret start (after_lookup p secret rotator refs started doc o w)
      unfolding after_lookup
      after_lookup-Rotated refs started doc none w same = tt
      after_lookup-Rotated refs started doc (some current) w same =
          after_generate-Rotated _ refs _ _ _ refl (λ q.
            frames.generate_frame secret.length _ q ∙ frames.step_frame Rotation.read w q ∙ same q)

      after_open-Rotated :
          (refs : List Text) (started : ℤ) (w : World) (x : Result Error Document × World)
          → SameFiles p v start w
          → Opened p v (primary_env_file secret) w x
          → Rotated secret start (after_open p secret rotator refs started x)
      unfolding after_open
      after_open-Rotated refs started w (err e, w') same opened = tt
      after_open-Rotated refs started w (ok doc, w') same (held, opened) =
          after_lookup-Rotated refs started doc _ w' (λ q. opened q ∙ same q)

      after_resolve-Rotated :
          (x : Result Error (List Text) × World)
          → SameFiles p v start x.1
          → Rotated secret start (after_resolve p secret rotator x)
      unfolding after_resolve
      after_resolve-Rotated (err e, w) same = tt
      after_resolve-Rotated (ok refs, w) same =
          let (started, w') = p.now w in
          after_open-Rotated refs started w' _ (λ q. frames.now_frame w q ∙ same q)
            (laws.open_law (primary_env_file secret) w')

    with_rotator-Rotated :
        (secret : Secret) (d : Distinct secret.env_files) (x : Result Error (Rotator World Error))
        (w : World)
        → p.rotator_for secret.kind ≡ x
        → Rotated secret w (with_rotator p secret x w)
    unfolding with_rotator
    with_rotator-Rotated secret d (err e) w h = tt
    with_rotator-Rotated secret d (ok rotator) w h =
        after_resolve-Rotated secret d w rotator (frames.rotator_frame secret.kind rotator h) _
          (frames.resolve_frame secret.containers w)

    -- Over any ports whose store keeps its contract and whose other calls leave the files alone, a
    -- successful rotation of a valid secret has put one value that the generator returned into
    -- every listed file, each of which held the key, and has changed no other file.
    pub execute-Rotated :
        (secret : Secret) (w : World) → IsValid secret → Rotated secret w (execute p secret w)
    unfolding execute
    execute-Rotated secret w valid = with_rotator-Rotated secret valid.files_distinct _ w refl
