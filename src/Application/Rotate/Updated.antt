-- ===== src/Application/Rotate/Updated.antt =====
-- The files behind the writing stage of internal/application/rotate.go.
use secret_rotator.Prelude.{
  ◌≡◌, refl, sym, ◌∙◌, true, false, List, [], ◌∷◌, none, some, arith, inl, inr, Bool-cases,
}
use secret_rotator.Prelude.Result.{Result, ok, err}
use secret_rotator.Prelude.Text.{Text, eq_text, eq_text_iff, eq_text_refl}
use secret_rotator.Domain.Kind.{has_backing_service}
use secret_rotator.Domain.Target.{Target, Credential}
use secret_rotator.Domain.Secret.{Secret, needs_verification}
use secret_rotator.Domain.Secret.Valid.{Distinct}
use secret_rotator.Domain.Rotation
use secret_rotator.Domain.Rotation.{Rotation, record_file_written}
use secret_rotator.Application.Ports.{Ports, Rotator}
use secret_rotator.Application.Files.{
  FileView, SameFiles, Changed, Wrote, StoreLaws, RotatorFrame, Frames,
}
use secret_rotator.Application.Rotate.{
  Stage, Progress, proceed, after_apply, apply_stage, after_verify, verify_stage, after_write,
  write_stage, after_restart, restart_stage, stages,
}
use secret_rotator.Application.Rotate.Journal.{is_in}

module _ (p : Ports) (v : FileView p) where
  open p use {World, Error}
  open v use {view, updated, has_key}

  -- Every path of the list held something, and now holds that with the new value; the other files
  -- are the same.
  abbrev pub Updated : Text → Credential → List Text → World → World → Type 0
  Updated key next paths w w' =
      (q : Text)
      → (is_in q paths ≡ true
          → (before : Text) × (view w q ≡ some before)
            × (has_key key before ≡ true)
            × (view w' q ≡ some (updated key next before)))
        × (is_in q paths ≡ false → view w' q ≡ view w q)

  -- For a part of the pipeline that did not end it.
  abbrev pub UpdatedBy : Text → Credential → List Text → World → Progress p → Type 0
  UpdatedBy key next paths w (none, r, w') = Updated key next paths w w'
  UpdatedBy key next paths w (some c, r, w') = Unit

  abbrev SameBy : World → Progress p → Type 0
  SameBy w (none, r, w') = SameFiles p v w w'
  SameBy w (some c, r, w') = Unit

  Updated-before :
      (key : Text) (next : Credential) (paths : List Text) (w0 w w' : World)
      → SameFiles p v w0 w
      → Updated key next paths w w'
      → Updated key next paths w0 w'
  Updated-before key next paths w0 w w' same u = λ q.
      ((λ h. let (b, e, k, f) = (u q).0 h in (b, sym (same q) ∙ e, k, f)), λ h. (u q).1 h ∙ same q)

  pub Updated-after :
      (key : Text) (next : Credential) (paths : List Text) (w w' w'' : World)
      → Updated key next paths w w'
      → SameFiles p v w' w''
      → Updated key next paths w w''
  Updated-after key next paths w w' w'' u same =
      λ q. ((λ h. let (b, e, k, f) = (u q).0 h in (b, e, k, same q ∙ f)), λ h. same q ∙ (u q).1 h)

  SameBy-trans : (w w' : World) (y : Progress p) → SameFiles p v w w' → SameBy w' y → SameBy w y
  SameBy-trans w w' (some c, r, w'') same s = tt
  SameBy-trans w w' (none, r, w'') same s = λ q. s q ∙ same q

  pub UpdatedBy-before :
      (key : Text) (next : Credential) (paths : List Text) (w w' : World) (y : Progress p)
      → SameFiles p v w w'
      → UpdatedBy key next paths w' y
      → UpdatedBy key next paths w y
  UpdatedBy-before key next paths w w' (some c, r, w'') same u = tt
  UpdatedBy-before key next paths w w' (none, r, w'') same u =
      Updated-before key next paths w w' w'' same u

  UpdatedBy-after :
      (key : Text) (next : Credential) (paths : List Text) (w w' : World) (y : Progress p)
      → Updated key next paths w w'
      → SameBy w' y
      → UpdatedBy key next paths w y
  UpdatedBy-after key next paths w w' (some c, r, w'') u same = tt
  UpdatedBy-after key next paths w w' (none, r, w'') u same =
      Updated-after key next paths w w' w'' u same

  -- One more file in front of those that the rest of the loop has written.
  UpdatedBy-cons :
      (key : Text) (next : Credential) (path before : Text) (paths : List Text) (w w1 : World)
      (x : Progress p)
      → is_in path paths ≡ false
      → view w path ≡ some before
      → has_key key before ≡ true
      → Changed p v path (updated key next before) w w1
      → UpdatedBy key next paths w1 x
      → UpdatedBy key next (path ∷ paths) w x
  UpdatedBy-cons key next path before paths w w1 (some c, r, w') fresh held has changed u = tt
  UpdatedBy-cons key next path before paths w w1 (none, r, w') fresh held has changed u = λ q.
      elim (Bool-cases (eq_text q path)) [
        | inl same ↦
            let e : q ≡ path = (eq_text_iff q path).0 same in
            let now : view w1 path ≡ some (updated key next before) =
              changed path ∙ (rw (eq_text_refl path)) in
            (
              (λ h. (before, (rw e held), has, (rw e ((u path).1 fresh ∙ now)))),
              (λ h. absurd (ground (arith, h, same))),
            )
        | inr other ↦
            let other' : eq_text path q ≡ false =
              ground (arith, eq_text_iff q path, eq_text_iff path q) in
            let before_q : view w1 q ≡ view w q = changed q ∙ (rw other') in
            (
              (λ h.
                  let (b, e, k, f) = (u q).0 (ground (arith, h, other)) in
                  (b, sym before_q ∙ e, k, f)),
              (λ h. (u q).1 (ground (arith, h, other)) ∙ before_q),
            )
      ]

  module _ (frames : Frames p v) (laws : StoreLaws p v) where
    module _ (secret : Secret) (rotator : Rotator World Error) (rf : RotatorFrame p v rotator)
        (target : Target) (next : Credential) where
      after_write-UpdatedBy :
          (path : Text) (paths : List Text) (r : Rotation) (w : World)
          (x : Result Error Text × World)
          → is_in path paths ≡ false
          → Wrote p v path secret.env_key next w x
          → ((r' : Rotation) (w' : World)
              → UpdatedBy secret.env_key next paths w'
                  (write_stage p secret rotator target next paths r' w'))
          → UpdatedBy secret.env_key next (path ∷ paths) w (
              after_write p secret rotator target next path
                (write_stage p secret rotator target next paths)
                r
                x)
      unfolding after_write
      after_write-UpdatedBy path paths r w (err e, w') fresh wrote ih = tt
      after_write-UpdatedBy path paths r w (ok before, w') fresh (held, has, changed) ih =
          UpdatedBy-cons secret.env_key next path before paths w _ _ fresh held has
            (λ q. frames.step_frame Rotation.files_updated w' q ∙ changed q) (ih _ _)

      write-UpdatedBy :
          (paths : List Text) (r : Rotation) (w : World)
          → Distinct paths
          → UpdatedBy secret.env_key next paths w
              (write_stage p secret rotator target next paths r w)
      unfolding write_stage
      write-UpdatedBy [] r w d = λ q. ((λ h. cc), λ h. refl)
      write-UpdatedBy (path ∷ paths) r w (fresh, d) =
          after_write-UpdatedBy path paths r w _ fresh (laws.write_law path secret.env_key next w)
            (λ r' w'. write-UpdatedBy paths r' w' d)

      SameBy-after_apply :
          (r : Rotation) (w : World) (x : Result Error (Unit {0}) × World)
          → SameFiles p v w x.1
          → SameBy w (after_apply p secret rotator target next r x)
      unfolding after_apply
      SameBy-after_apply r w (err e, w') same = tt
      SameBy-after_apply r w (ok _, w') same = λ q. frames.step_frame Rotation.applied w' q ∙ same q

      SameBy-apply :
          (r : Rotation) (w : World) → SameBy w (apply_stage p secret rotator target next r w)
      unfolding apply_stage
      SameBy-apply r w = elim (Bool-cases (has_backing_service secret.kind)) [
        | inr none_there ↦ rw none_there (λ q. refl)
        | inl there ↦ rw there (SameBy-after_apply r w _ (rf.apply_frame target next w))
      ]

      SameBy-after_verify :
          (r : Rotation) (w : World) (x : Result Error (Unit {0}) × World)
          → SameFiles p v w x.1
          → SameBy w (after_verify p secret rotator target next r x)
      unfolding after_verify
      SameBy-after_verify r w (err e, w') same = tt
      SameBy-after_verify r w (ok _, w') same =
          λ q. frames.step_frame Rotation.verified w' q ∙ same q

      SameBy-verify :
          (r : Rotation) (w : World) → SameBy w (verify_stage p secret rotator target next r w)
      unfolding verify_stage
      SameBy-verify r w = elim (Bool-cases (needs_verification secret)) [
        | inr none_there ↦ rw none_there (λ q. refl)
        | inl there ↦ rw there (SameBy-after_verify r w _ (rf.verify_frame target next w))
      ]

      SameBy-after_restart :
          (refs : List Text) (r : Rotation) (w : World) (x : Result Error (Unit {0}) × World)
          → SameFiles p v w x.1
          → SameBy w (after_restart p secret rotator target next refs r x)
      unfolding after_restart
      SameBy-after_restart refs r w (err e, w') same = tt
      SameBy-after_restart refs r w (ok _, w') same =
          λ q. frames.step_frame Rotation.restarted w' q ∙ same q

      SameBy-restart :
          (refs : List Text) (r : Rotation) (w : World)
          → SameBy w (restart_stage p secret rotator target next refs r w)
      unfolding restart_stage
      SameBy-restart [] r w = λ q. refl
      SameBy-restart (ref ∷ refs) r w =
          SameBy-after_restart (ref ∷ refs) r w _ (frames.restart_frame (ref ∷ refs) w)

      SameBy-proceed :
          (t : Stage p) (w : World) (x : Progress p)
          → SameBy w x
          → ((r : Rotation) (w' : World) → SameBy w' (t r w'))
          → SameBy w (proceed p t x)
      SameBy-proceed t w (some c, r, w') same k = tt
      SameBy-proceed t w (none, r, w') same k = SameBy-trans w w' (t r w') same (k r w')

      Updated-proceed :
          (t : Stage p) (w : World) (x : Progress p)
          → SameBy w x
          → ((r : Rotation) (w' : World)
              → UpdatedBy secret.env_key next secret.env_files w' (t r w'))
          → UpdatedBy secret.env_key next secret.env_files w (proceed p t x)
      Updated-proceed t w (some c, r, w') same k = tt
      Updated-proceed t w (none, r, w') same k =
          UpdatedBy-before secret.env_key next secret.env_files w w' (t r w') same (k r w')

      proceed-Same :
          (t : Stage p) (w : World) (x : Progress p)
          → UpdatedBy secret.env_key next secret.env_files w x
          → ((r : Rotation) (w' : World) → SameBy w' (t r w'))
          → UpdatedBy secret.env_key next secret.env_files w (proceed p t x)
      proceed-Same t w (some c, r, w') u k = tt
      proceed-Same t w (none, r, w') u k =
          UpdatedBy-after secret.env_key next secret.env_files w w' (t r w') u (k r w')

      pub stages-UpdatedBy :
          (refs : List Text) (r : Rotation) (w : World)
          → Distinct secret.env_files
          → UpdatedBy secret.env_key next secret.env_files w
              (stages p secret rotator target next refs r w)
      unfolding stages
      stages-UpdatedBy refs r w d =
          let x = apply_stage p secret rotator target next r w in
          let y = proceed p (verify_stage p secret rotator target next) x in
          let z = proceed p (write_stage p secret rotator target next secret.env_files) y in
          proceed-Same (restart_stage p secret rotator target next refs) w z
            (Updated-proceed (write_stage p secret rotator target next secret.env_files) w y
              (SameBy-proceed (verify_stage p secret rotator target next) w x (SameBy-apply r w)
                SameBy-verify)
              (λ r' w'. write-UpdatedBy secret.env_files r' w' d))
            (SameBy-restart refs)
