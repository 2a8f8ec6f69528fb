-- ===== src/Tests/Rotation.antt =====
-- Rotations over a disk with two .env files, with a restart that works and one that fails once.
use secret_rotator.Prelude.{
  ℕ, arith, List, [], ◌∷◌, ◌≡◌, refl, subst, All, Bool, true, false, not, Option, none, some,
}
use secret_rotator.Prelude.Int.{pos}
use secret_rotator.Prelude.Result.{Result, ok, err, ok-injective}
use secret_rotator.Prelude.Text.{
  Text, codes, split, join, cut, trim_space, trim_left, trim_right, is_space, strip_prefix,
  strip_suffix, lookup, eq_text,
}
use secret_rotator.Domain.Kind.{has_backing_service}
use secret_rotator.Domain.Secret.{needs_verification, primary_env_file, primary_of}
use secret_rotator.Domain.Rotation.{
  begin_rotation, advance, record_current_value, record_generated, record_applied, record_verified,
  record_file_written, record_restarted, record_done, add_backup, compensation_plan, restore_files,
  succeeded, failed_record,
}
use secret_rotator.Envstore.Line.{
  parse_line, parse_trimmed, assignment, unquote, strip_export, set_line,
}
use secret_rotator.Envstore.File.{get, parse, parse_lines, index_from, set_key, set_at, render}
use secret_rotator.Envstore.Disk.{
  StoredFile, Disk, read_file, stat_mode, create_temp, write_file, flush, chmod, rename, remove,
}
use secret_rotator.Envstore.Store.{open_env, write, restore, write_atomic}
use secret_rotator.Envstore.Line.Reparse.{Plain}
use secret_rotator.Application.Ports.{Rotator}
use secret_rotator.Application.Files.{StoreLaws, Frames}
use secret_rotator.Application.Rotate.{
  RotateError, rolled_back, execute, with_rotator, after_resolve, after_open, after_lookup,
  after_generate, resolve_admin_password, conclude, compensate, undo_all, undo, note_failure, audit,
  stages, apply_stage, after_apply, verify_stage, after_verify, write_stage, after_write,
  restart_stage, after_restart,
}
use secret_rotator.Application.Rotate.Atomic.{Atomic, execute-Atomic}
use secret_rotator.Application.Rotate.Success.{Rotated, execute-Rotated}
use secret_rotator.Application.Rotate.Confined.Followed.{Within}
use secret_rotator.Credentials.Generator.{digit, encode, encoded, generate}
use secret_rotator.Credentials.Generator.Decode.{IsByte, decode, generate-Plain, generate-decode}
use secret_rotator.System.{Outside, ports}
use secret_rotator.System.Contract.{disk_view, ports-StoreLaws}
use secret_rotator.System.Beside.{
  beside_disk, beside_disk-Frames, with_history, with_history-LeavesFiles,
}
use secret_rotator.System.OnDisk.{
  GeneratesPlain, ReadsBack, followed_view, execute-Atomic_on_disk, execute-ReadsBack,
}
use secret_rotator.Tests.Domain.{secret, secret-IsValid}
use secret_rotator.Tests.Files.{sound_disk}

-- Whether a restart has failed already.
abbrev W : Type 0
W = Bool

abbrev done : {A : Type 0} → A → W → Result (Unit {0}) A × W
done a w = (ok a, w)

abbrev rotator : Rotator W (Unit {0})
rotator = record {
  apply = λ t next. done tt;
  verify = λ t next. done tt;
  restore = λ t previous current. done tt;
}

abbrev random_bytes : List ℕ
random_bytes = 251 ∷ 240 ∷ 0 ∷ 17 ∷ []

-- Adapters that succeed, with the restart that is given.
abbrev adapters : (W → Result (Unit {0}) (Unit {0}) × W) → Outside W (Unit {0})
adapters restart = record {
  rotator_for = λ k. ok rotator;
  resolve = λ refs. done refs;
  restart = λ refs. restart;
  now = λ w. (pos 0, w);
  generate = generate (λ k. done random_bytes);
  record_audit = λ entry. done tt;
  report_step = λ s w. w;
  report_warn = λ w. w;
}

abbrev pub working : Outside (Disk × W) (Unit {0})
working = beside_disk (adapters (done tt))

pub working-Frames : Frames (ports working) (disk_view working)
working-Frames = beside_disk-Frames (adapters (done tt))

abbrev fails_once : W → Result (Unit {0}) (Unit {0}) × W
fails_once true = (ok tt, true)
fails_once false = (err tt, true)

abbrev broken : Outside (Disk × W) (Unit {0})
broken = beside_disk (adapters fails_once)

broken-Frames : Frames (ports broken) (disk_view broken)
broken-Frames = beside_disk-Frames (adapters fails_once)

abbrev history_path : Text
history_path = codes "history.json"

-- Every file but that of the history.
abbrev followed : Text → Bool
followed q = not (eq_text q history_path)

abbrev log : {A : Type 0} → A → StoredFile
log entry = record { contents = codes "[]"; mode = 384 }

-- The same adapters, with the history in a file on the disk.
abbrev working_log : Outside (Disk × W) (Unit {0})
working_log = with_history working history_path log

abbrev broken_log : Outside (Disk × W) (Unit {0})
broken_log = with_history broken history_path log

history-unfollowed : followed history_path ≡ false
unfolding eq_text
history-unfollowed = refl

secret-Within : Within followed secret
unfolding eq_text primary_env_file primary_of
secret-Within = (refl, (refl, (refl, tt)))

execute-Atomic_on_disk_example :
    Atomic
      (ports broken_log)
      (followed_view broken_log followed)
      (sound_disk, false)
      (execute (ports broken_log) secret (sound_disk, false))
execute-Atomic_on_disk_example =
    execute-Atomic_on_disk broken_log followed
      (with_history-LeavesFiles broken history_path log followed history-unfollowed broken-Frames)
      secret secret-Within (sound_disk, false)

working-GeneratesPlain : GeneratesPlain working_log
working-GeneratesPlain n (d, w) a h = generate-Plain (λ k. done random_bytes) n w a h

random-IsByte : (bytes : List ℕ) → (done random_bytes false).0 ≡ ok bytes → All IsByte bytes
random-IsByte bytes h =
    subst (All IsByte) (ok-injective h)
      (ground arith, (ground arith, (ground arith, (ground arith, tt))))

generated : (generate (λ k. done random_bytes) (pos 4) false).0 ≡ ok (codes "-_AAEQ")
unfolding generate encoded encode digit
generated = refl

generate-decode_example :
    All Plain (codes "-_AAEQ") × ((done random_bytes false).0 ≡ ok (decode (codes "-_AAEQ")))
generate-decode_example =
    generate-decode (λ k. done random_bytes) (pos 4) false (codes "-_AAEQ") random-IsByte generated

execute-ReadsBack_example :
    ReadsBack working_log secret (execute (ports working_log) secret (sound_disk, false))
execute-ReadsBack_example =
    execute-ReadsBack working_log followed
      (with_history-LeavesFiles working history_path log followed history-unfollowed working-Frames)
      secret secret-Within (sound_disk, false) working-GeneratesPlain secret-IsValid

execute-Atomic_example :
    Atomic
      (ports broken)
      (disk_view broken)
      (sound_disk, false)
      (execute (ports broken) secret (sound_disk, false))
execute-Atomic_example =
    execute-Atomic (ports broken) (disk_view broken) broken-Frames (ports-StoreLaws broken) secret
      (sound_disk, false)

execute-Rotated_example :
    Rotated
      (ports working)
      (disk_view working)
      secret
      (sound_disk, false)
      (execute (ports working) secret (sound_disk, false))
execute-Rotated_example =
    execute-Rotated (ports working) (disk_view working) working-Frames (ports-StoreLaws working)
      secret (sound_disk, false) secret-IsValid

ports-StoreLaws_example : StoreLaws (ports working) (disk_view working)
ports-StoreLaws_example = ports-StoreLaws working

-- What a run returned, without the state it left.
abbrev returned : {E A S : Type 0} → Result E A × S → Option A
returned (ok a, s) = some a
returned (err e, s) = none

abbrev was_rolled_back : {E A S : Type 0} → Result (RotateError E) A × S → Bool
was_rolled_back (err (rolled_back c), s) = true
was_rolled_back (err _, s) = false
was_rolled_back (ok a, s) = false

working_run : returned (execute (ports working_log) secret (sound_disk, false)) ≡ some tt
unfolding execute with_rotator after_resolve after_open after_lookup after_generate
    resolve_admin_password conclude compensate undo_all undo note_failure audit stages apply_stage
    after_apply verify_stage after_verify write_stage after_write restart_stage after_restart
    generate encoded encode digit begin_rotation advance record_current_value record_generated
    record_applied record_verified record_file_written record_restarted record_done add_backup
    compensation_plan restore_files succeeded failed_record has_backing_service needs_verification
    primary_env_file primary_of open_env write restore write_atomic read_file stat_mode create_temp
    write_file flush chmod rename remove get parse parse_lines index_from set_key set_at render
    parse_line parse_trimmed assignment unquote strip_export set_line split join cut trim_space
    trim_left trim_right is_space strip_prefix strip_suffix lookup eq_text
working_run = refl

broken_run : was_rolled_back (execute (ports broken_log) secret (sound_disk, false)) ≡ true
unfolding execute with_rotator after_resolve after_open after_lookup after_generate
    resolve_admin_password conclude compensate undo_all undo note_failure audit stages apply_stage
    after_apply verify_stage after_verify write_stage after_write restart_stage after_restart
    generate encoded encode digit begin_rotation advance record_current_value record_generated
    record_applied record_verified record_file_written record_restarted record_done add_backup
    compensation_plan restore_files succeeded failed_record has_backing_service needs_verification
    primary_env_file primary_of open_env write restore write_atomic read_file stat_mode create_temp
    write_file flush chmod rename remove get parse parse_lines index_from set_key set_at render
    parse_line parse_trimmed assignment unquote strip_export set_line split join cut trim_space
    trim_left trim_right is_space strip_prefix strip_suffix lookup eq_text
broken_run = refl
