-- ===== src/Application/Rotate/Keeps.antt =====
-- The journal through the stages of internal/application/rotate.go.
use secret_rotator.Prelude.{List, [], ◌∷◌, none, some, inl, inr, Bool-cases}
use secret_rotator.Prelude.Result.{Result, ok, err}
use secret_rotator.Prelude.Text.{Text}
use secret_rotator.Domain.Kind.{has_backing_service}
use secret_rotator.Domain.Target.{Target, Credential}
use secret_rotator.Domain.Secret.{Secret, needs_verification}
use secret_rotator.Domain.Rotation.{
  Step, applied, verified, files_updated, restarted, Rotation, advance, record_applied,
  record_verified, record_file_written, record_restarted,
}
use secret_rotator.Application.Ports.{Ports, Rotator}
use secret_rotator.Application.Files.{FileView, Wrote, StoreLaws, RotatorFrame, Frames}
use secret_rotator.Application.Rotate.{
  Stage, Progress, proceed, after_apply, after_verify, after_write, after_restart, apply_stage,
  verify_stage, write_stage, restart_stage, stages,
}
use secret_rotator.Application.Rotate.Journal.{
  Journal, Journal-with_refs, Journal-SameFiles, Journal-advance, Journal-written,
}

module _ (p : Ports) (v : FileView p) where
  open p use {World, Error}
  open v use {view, updated}

  module _ (start : World) where
    abbrev Keeps : Stage p → Type 0
    Keeps s =
        (r : Rotation) (w : World) → Journal p v start r w → Journal p v start (s r w).1 (s r w).2

    Keeps-proceed :
        (t : Stage p) (x : Progress p)
        → Keeps t
        → Journal p v start x.1 x.2
        → Journal p v start (proceed p t x).1 (proceed p t x).2
    Keeps-proceed t (none, r, w) k j = k r w j
    Keeps-proceed t (some c, r, w) k j = j

    module _ (frames : Frames p v) (laws : StoreLaws p v) (secret : Secret)
        (rotator : Rotator World Error) (rf : RotatorFrame p v rotator) (target : Target)
        (next : Credential) where
      reported :
          (r : Rotation) (s : Step) (w : World)
          → Journal p v start r w
          → Journal p v start r (p.report_step s w)
      reported r s w = Journal-SameFiles p v start r w _ (frames.step_frame s w)

      Keeps-after_apply :
          (r : Rotation) (x : Result Error (Unit {0}) × World)
          → Journal p v start r x.1
          → let y = after_apply p secret rotator target next r x in Journal p v start y.1 y.2
      unfolding after_apply record_applied
      Keeps-after_apply r (err e, w) j = j
      Keeps-after_apply r (ok _, w) j =
          reported (advance r applied) applied w (Journal-advance p v start r applied w j)

      Keeps-apply : Keeps (apply_stage p secret rotator target next)
      unfolding apply_stage
      Keeps-apply r w j = elim (Bool-cases (has_backing_service secret.kind)) [
        | inr none_there ↦ rw none_there j
        | inl there ↦ rw there (
            Keeps-after_apply r (rotator.apply target next w)
              (Journal-SameFiles p v start r w _ (rf.apply_frame target next w) j))
      ]

      Keeps-after_verify :
          (r : Rotation) (x : Result Error (Unit {0}) × World)
          → Journal p v start r x.1
          → let y = after_verify p secret rotator target next r x in Journal p v start y.1 y.2
      unfolding after_verify record_verified
      Keeps-after_verify r (err e, w) j = j
      Keeps-after_verify r (ok _, w) j =
          reported (advance r verified) verified w (Journal-advance p v start r verified w j)

      Keeps-verify : Keeps (verify_stage p secret rotator target next)
      unfolding verify_stage
      Keeps-verify r w j = elim (Bool-cases (needs_verification secret)) [
        | inr none_there ↦ rw none_there j
        | inl there ↦ rw there (
            Keeps-after_verify r (rotator.verify target next w)
              (Journal-SameFiles p v start r w _ (rf.verify_frame target next w) j))
      ]

      Keeps-after_restart :
          (refs : List Text) (r : Rotation) (x : Result Error (Unit {0}) × World)
          → Journal p v start r x.1
          → let y = after_restart p secret rotator target next refs r x in Journal p v start y.1 y.2
      unfolding after_restart record_restarted
      Keeps-after_restart refs r (err e, w) j =
          Journal-advance p v start (record r { restarted_refs = refs }) restarted w
            (Journal-with_refs p v start refs r w j)
      Keeps-after_restart refs r (ok _, w) j = reported _ restarted w (
          Journal-advance p v start (record r { restarted_refs = refs }) restarted w
            (Journal-with_refs p v start refs r w j))

      Keeps-after_write :
          (path : Text) (rest : Stage p) (r : Rotation) (w : World) (x : Result Error Text × World)
          → Keeps rest
          → Journal p v start r w
          → Wrote p v path secret.env_key next w x
          → let y = after_write p secret rotator target next path rest r x in
            Journal p v start y.1 y.2
      unfolding after_write record_file_written
      Keeps-after_write path rest r w (err e, w') k j wrote =
          Journal-SameFiles p v start r w w' wrote j
      Keeps-after_write path rest r w (ok before, w') k j (held, has, changed) = k _ _ (
          reported _ _ _ (
            Journal-advance p v start _ files_updated w'
              (Journal-written p v start r path before _ w w' j held changed)))

      Keeps-write : (paths : List Text) → Keeps (write_stage p secret rotator target next paths)
      unfolding write_stage
      Keeps-write [] r w j = j
      Keeps-write (path ∷ paths) r w j =
          Keeps-after_write path _ r w _ (Keeps-write paths) j
            (laws.write_law path secret.env_key next w)

      Keeps-restart : (refs : List Text) → Keeps (restart_stage p secret rotator target next refs)
      unfolding restart_stage
      Keeps-restart [] r w j = j
      Keeps-restart (ref ∷ refs) r w j =
          Keeps-after_restart (ref ∷ refs) r (p.restart (ref ∷ refs) w)
            (Journal-SameFiles p v start r w _ (frames.restart_frame (ref ∷ refs) w) j)

      -- Whatever the stages do, and wherever they stop, the journal has what undoes it.
      pub Keeps-stages :
          (refs : List Text) (r : Rotation) (w : World)
          → Journal p v start r w
          → let y = stages p secret rotator target next refs r w in Journal p v start y.1 y.2
      unfolding stages
      Keeps-stages refs r w j =
          let x = apply_stage p secret rotator target next r w in
          let y = proceed p (verify_stage p secret rotator target next) x in
          let z = proceed p (write_stage p secret rotator target next secret.env_files) y in
          Keeps-proceed (restart_stage p secret rotator target next refs) z (Keeps-restart refs) (
            Keeps-proceed (write_stage p secret rotator target next secret.env_files) y
              (Keeps-write secret.env_files)
              (Keeps-proceed (verify_stage p secret rotator target next) x Keeps-verify
                (Keeps-apply r w j)))
