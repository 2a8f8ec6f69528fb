-- ===== src/System/Beside.antt =====
-- Adapters with a state of their own, beside the disk, as adapters that leave the disk alone; and
-- such as have the file of the rotation history on it.
use secret_rotator.Prelude.{◌≡◌, refl, ap, subst, Bool, false, Option, inl, inr, Bool-cases}
use secret_rotator.Prelude.Int.{ℤ}
use secret_rotator.Prelude.Result.{Result, ok, err, ok-injective}
use secret_rotator.Prelude.Text.{Text, eq_text, eq_text_iff}
use secret_rotator.Domain.Rotation.{Record}
use secret_rotator.Envstore.Disk.{StoredFile, Disk, put}
use secret_rotator.Application.Ports.{Call, Cause, Rotator}
use secret_rotator.Application.Files.{SameFiles, RotatorFrame, Frames}
use secret_rotator.Application.Rotate.Confined.Followed.{seen, follow}
use secret_rotator.System.{
  SystemError, Outside, outside, rotator_outside, registered, ports, contents_of,
}
use secret_rotator.System.Contract.{disk_view}

abbrev pub clock : {W : Type 0} → Disk → ℤ × W → ℤ × (Disk × W)
clock d (t, w) = (t, (d, w))

module _ {W E : Type 0} where
  abbrev pub kept : {A : Type 0} → Disk → Result E A × W → Result E A × (Disk × W)
  kept d (r, w) = (r, (d, w))

  abbrev pub quiet : {A : Type 0} → Call W E A → Call (Disk × W) E A
  quiet call (d, w) = kept d (call w)

  abbrev pub quiet_rotator : Rotator W E → Rotator (Disk × W) E
  quiet_rotator r = record {
    apply = λ t next. quiet (r.apply t next);
    verify = λ t next. quiet (r.verify t next);
    restore = λ t previous current. quiet (r.restore t previous current);
  }

  abbrev pub quiet_found : Result E (Rotator W E) → Result E (Rotator (Disk × W) E)
  quiet_found (ok r) = ok (quiet_rotator r)
  quiet_found (err e) = err e

  abbrev pub beside_disk : Outside W E → Outside (Disk × W) E
  beside_disk o = record {
    rotator_for = λ k. quiet_found (o.rotator_for k);
    resolve = λ refs. quiet (o.resolve refs);
    restart = λ refs. quiet (o.restart refs);
    now = λ s. clock s.0 (o.now s.1);
    generate = λ n. quiet (o.generate n);
    record_audit = λ entry. quiet (o.record_audit entry);
    report_step = λ st s. (s.0, o.report_step st s.1);
    report_warn = λ s. (s.0, o.report_warn s.1);
  }

module _ {W E : Type 0} (o : Outside (Disk × W) E) where
  kept-same :
      {A : Type 0} (d : Disk) (w : W) (call : Call W E A) (r : Result E A × W)
      → call w ≡ r
      → SameFiles (ports o) (disk_view o) (d, w) (outside (quiet call) (d, w)).1
  kept-same d w call (ok a, w') h = rw h (λ q. refl)
  kept-same d w call (err e, w') h = rw h (λ q. refl)

  quiet-same :
      {A : Type 0} (call : Call W E A) (s : Disk × W)
      → SameFiles (ports o) (disk_view o) s (outside (quiet call) s).1
  quiet-same call s = kept-same s.0 s.1 call (call s.1) refl

  quiet-RotatorFrame :
      (r : Rotator W E) → RotatorFrame (ports o) (disk_view o) (rotator_outside (quiet_rotator r))
  quiet-RotatorFrame r = record {
    apply_frame = λ t next. quiet-same (r.apply t next);
    verify_frame = λ t next. quiet-same (r.verify t next);
    restore_frame = λ t previous current. quiet-same (r.restore t previous current);
  }

  found-RotatorFrame :
      (x : Result E (Rotator W E)) (r : Rotator (Disk × W) (SystemError E))
      → registered (quiet_found x) ≡ ok r
      → RotatorFrame (ports o) (disk_view o) r
  found-RotatorFrame (err e) r h = cc
  found-RotatorFrame (ok r') r h =
      subst (RotatorFrame (ports o) (disk_view o)) (ok-injective h) (quiet-RotatorFrame r')

pub beside_disk-Frames :
    {W E : Type 0} (o : Outside W E) → Frames (ports (beside_disk o)) (disk_view (beside_disk o))
beside_disk-Frames o =
    let o' = beside_disk o in
    record {
      rotator_frame = λ k r h. found-RotatorFrame o' (o.rotator_for k) r h;
      resolve_frame = λ refs. quiet-same o' (o.resolve refs);
      restart_frame = λ refs. quiet-same o' (o.restart refs);
      now_frame = λ s q. refl;
      generate_frame = λ n. quiet-same o' (o.generate n);
      audit_frame = λ entry. quiet-same o' (o.record_audit entry);
      step_frame = λ st s q. refl;
      warn_frame = λ s q. refl;
    }

module _ {W E : Type 0} (o : Outside (Disk × W) E) where
  -- The other adapters do not change the contents of a file that is followed.
  abbrev pub LeavesFiles : (Text → Bool) → Type 0
  LeavesFiles followed = Frames (ports o) (follow (ports o) (disk_view o) followed)

  -- Adapters of which the one for the history writes a file on the disk.
  abbrev pub with_history :
      Text → (Record (Cause (SystemError E)) → StoredFile) → Outside (Disk × W) E
  with_history path log = record o {
    record_audit =
        λ entry s. (ok tt, (record (s.0) { files = put path (log entry) s.0.files }, s.1));
  }

  with_history-RotatorFrame :
      (path : Text) (log : Record (Cause (SystemError E)) → StoredFile) (followed : Text → Bool)
      (r : Rotator (Disk × W) (SystemError E))
      → RotatorFrame (ports o) (disk_view o) r
      → RotatorFrame
          (ports (with_history path log))
          (follow (ports (with_history path log)) (disk_view (with_history path log)) followed)
          r
  with_history-RotatorFrame path log followed r f = record {
    apply_frame = λ t next s q. ap (seen (followed q)) (f.apply_frame t next s q);
    verify_frame = λ t next s q. ap (seen (followed q)) (f.verify_frame t next s q);
    restore_frame =
        λ t previous current s q. ap (seen (followed q)) (f.restore_frame t previous current s q);
  }

  history-unseen :
      (path q : Text) (file : StoredFile) (files : Text → Option StoredFile)
      (followed : Text → Bool)
      → followed path ≡ false
      → seen (followed q) (contents_of (put path file files q))
        ≡ seen (followed q) (contents_of (files q))
  history-unseen path q file files followed h = elim (Bool-cases (eq_text path q)) [
    | inl same ↦ let h' : followed q ≡ false = rw (← (eq_text_iff path q).0 same) h in rw h' refl
    | inr other ↦ rw other refl
  ]

-- A history in a file that is not followed changes no file that is.
pub with_history-LeavesFiles :
    {W E : Type 0} (o : Outside (Disk × W) E) (path : Text)
    (log : Record (Cause (SystemError E)) → StoredFile) (followed : Text → Bool)
    → followed path ≡ false
    → Frames (ports o) (disk_view o)
    → LeavesFiles (with_history o path log) followed
with_history-LeavesFiles o path log followed h f = record {
  rotator_frame =
      λ k r found. with_history-RotatorFrame o path log followed r (f.rotator_frame k r found);
  resolve_frame = λ refs s q. ap (seen (followed q)) (f.resolve_frame refs s q);
  restart_frame = λ refs s q. ap (seen (followed q)) (f.restart_frame refs s q);
  now_frame = λ s q. ap (seen (followed q)) (f.now_frame s q);
  generate_frame = λ n s q. ap (seen (followed q)) (f.generate_frame n s q);
  audit_frame = λ entry s q. history-unseen o path q (log entry) s.0.files followed h;
  step_frame = λ st s q. ap (seen (followed q)) (f.step_frame st s q);
  warn_frame = λ s q. ap (seen (followed q)) (f.warn_frame s q);
}
