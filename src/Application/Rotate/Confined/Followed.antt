-- ===== src/Application/Rotate/Confined/Followed.antt =====
-- RotateSecret.Execute of internal/application/rotate.go, where only some of the files are left alone
-- by the ports other than the store.
use secret_rotator.Prelude.{
  ◌≡◌, refl, ap, subst, Bool, true, false, All, Option, none, some, inl, inr, Bool-cases,
}
use secret_rotator.Prelude.Result.{Result, ok, err}
use secret_rotator.Prelude.Text.{Text, eq_text, eq_text_iff}
use secret_rotator.Domain.Target.{Credential}
use secret_rotator.Domain.Secret.{Secret, primary_env_file}
use secret_rotator.Domain.Secret.Valid.{IsValid}
use secret_rotator.Domain.Inspection.{Document}
use secret_rotator.Application.Ports.{Ports, Rotator}
use secret_rotator.Application.Files.{
  FileView, SameFiles, Changed, Wrote, Restored, Opened, StoreLaws, RotatorFrame, Frames,
}
use secret_rotator.Application.Rotate.{execute}
use secret_rotator.Application.Rotate.Atomic.{Atomic, execute-Atomic}
use secret_rotator.Application.Rotate.Success.{Rotated, execute-Rotated}
use secret_rotator.Application.Rotate.Confined.{confined}
use secret_rotator.Application.Rotate.Confined.Runs.{execute-confined}

abbrev pub seen : Bool → Option Text → Option Text
seen true o = o
seen false o = none

-- The files of the secret are among those that are followed.
abbrev pub Within : (Text → Bool) → Secret → Type 0
Within followed secret =
    (followed (primary_env_file secret) ≡ true) × All (λ q. followed q ≡ true) secret.env_files

module _ (p : Ports) (v : FileView p) (followed : Text → Bool) where
  open p use {World, Error}

  -- Of the files, those that are followed.
  abbrev pub follow : FileView p
  follow = record {
    view = λ w q. seen (followed q) (v.view w q);
    updated = v.updated;
    has_key = v.has_key;
  }

  module _ (refused : Error) where
    abbrev c : Ports
    c = confined p followed refused

    abbrev seen_by_c : FileView c
    seen_by_c = record {
      view = λ w q. seen (followed q) (v.view w q);
      updated = v.updated;
      has_key = v.has_key;
    }

    SameFiles-followed : (w w' : World) → SameFiles p v w w' → SameFiles c seen_by_c w w'
    SameFiles-followed w w' h = λ q. ap (seen (followed q)) (h q)

    Changed-followed :
        (path text : Text) (w w' : World)
        → followed path ≡ true
        → Changed p v path text w w'
        → Changed c seen_by_c path text w w'
    Changed-followed path text w w' here h = λ q. elim (Bool-cases (eq_text path q)) [
      | inl same ↦
          let e = (eq_text_iff path q).0 same in
          let here' : followed q ≡ true = rw (← e) here in
          let now : v.view w' q ≡ some text = rw same at (h q) in rw (same, here') now
      | inr other ↦
          let kept : v.view w' q ≡ v.view w q = rw other at (h q) in
          rw other (ap (seen (followed q)) kept)
    ]

    Wrote-followed :
        (path key : Text) (value : Credential) (w : World) (x : Result Error Text × World)
        → followed path ≡ true
        → Wrote p v path key value w x
        → Wrote c seen_by_c path key value w x
    Wrote-followed path key value w (err e, w') here h = SameFiles-followed w w' h
    Wrote-followed path key value w (ok before, w') here (held, has, h) =
        (rw here held, has, Changed-followed path (v.updated key value before) w w' here h)

    Restored-followed :
        (path text : Text) (w : World) (x : Result Error (Unit {0}) × World)
        → followed path ≡ true
        → Restored p v path text w x
        → Restored c seen_by_c path text w x
    Restored-followed path text w (err e, w') here h = SameFiles-followed w w' h
    Restored-followed path text w (ok _, w') here h = Changed-followed path text w w' here h

    Opened-followed :
        (path : Text) (w : World) (x : Result Error Document × World)
        → followed path ≡ true
        → Opened p v path w x
        → Opened c seen_by_c path w x
    Opened-followed path w (err e, w') here h = SameFiles-followed w w' h
    Opened-followed path w (ok doc, w') here (held, h) = (rw here held, SameFiles-followed w w' h)

    confined-StoreLaws : StoreLaws p v → StoreLaws c seen_by_c
    confined-StoreLaws laws = record {
      write_law = λ path key value w. elim (Bool-cases (followed path)) [
        | inl here ↦
            rw here (Wrote-followed path key value w _ here (laws.write_law path key value w))
        | inr out ↦ rw out (λ q. refl)
      ];
      restore_law = λ path text w. elim (Bool-cases (followed path)) [
        | inl here ↦ rw here (Restored-followed path text w _ here (laws.restore_law path text w))
        | inr out ↦ rw out (λ q. refl)
      ];
      open_law = λ path w. elim (Bool-cases (followed path)) [
        | inl here ↦ rw here (Opened-followed path w _ here (laws.open_law path w))
        | inr out ↦ rw out (λ q. refl)
      ];
    }

    confined-RotatorFrame :
        (r : Rotator World Error) → RotatorFrame p follow r → RotatorFrame c seen_by_c r
    confined-RotatorFrame r f = record {
      apply_frame = f.apply_frame;
      verify_frame = f.verify_frame;
      restore_frame = f.restore_frame;
    }

    confined-Frames : Frames p follow → Frames c seen_by_c
    confined-Frames f = record {
      rotator_frame = λ k r h. confined-RotatorFrame r (f.rotator_frame k r h);
      resolve_frame = f.resolve_frame;
      restart_frame = f.restart_frame;
      now_frame = f.now_frame;
      generate_frame = f.generate_frame;
      audit_frame = f.audit_frame;
      step_frame = f.step_frame;
      warn_frame = f.warn_frame;
    }

  module _ (refused : Error) (frames : Frames p follow) (laws : StoreLaws p v) (secret : Secret)
      (within : Within followed secret) (w : World) where
    pub execute-Atomic_followed : Atomic p follow w (execute p secret w)
    execute-Atomic_followed =
        subst (Atomic p follow w) (execute-confined p followed refused secret within.0 within.1 w) (
          execute-Atomic (c refused) (seen_by_c refused) (confined-Frames refused frames)
            (confined-StoreLaws refused laws) secret w)

    pub execute-Rotated_followed : IsValid secret → Rotated p follow secret w (execute p secret w)
    execute-Rotated_followed valid =
        subst (Rotated p follow secret w)
          (execute-confined p followed refused secret within.0 within.1 w)
          (execute-Rotated (c refused) (seen_by_c refused) (confined-Frames refused frames)
            (confined-StoreLaws refused laws) secret w valid)
