-- ===== src/Credentials/Programs.antt =====
-- internal/infrastructure/credential/command.go: rotation by running programs. What the operating
-- system does is the argument `Host`; the environment of the rotator is the argument `ambient`, and
-- the order in which Go ranges over the map of credentials is the argument `order`.
pub mod Isolation
use secret_rotator.Prelude.{
  ℕ, zero, suc, ◌+◌, ◌-◌, ◌/◌, ◌%◌, leb, ltb, Bool, true, false, not, List, [], ◌∷◌, ◌++◌, is_nil,
  map, Option, none, some, if◌then◌else◌,
}
use secret_rotator.Prelude.Int.{ℤ, pos, ltb_ℤ}
use secret_rotator.Prelude.Result.{Result, ok, err}
use secret_rotator.Prelude.Text.{Text, codes, eq_text, trim_space, width, byte_len}
use secret_rotator.Domain.Kind.{Kind}
use secret_rotator.Domain.Command.{CommandSpec, effective_timeout, restore_command}
use secret_rotator.Domain.Target.{
  Target, Credential, effective_port, effective_target_user, show_int,
}
use secret_rotator.Application.Ports.{Call, Rotator}
use secret_rotator.Application.Calls.{done, leaving}

pub record Invocation : Type 0 where
  pub operation : Text
  pub argv : List Text
  pub values : List (Text × Credential)

-- What `exec.CommandContext` is set up with; there is no standard input, and the output goes to the
-- sink. The program is looked up in the rotator's own PATH.
pub record Process : Type 0 where
  pub program : Text
  pub search_path : Text
  pub args : List Text
  pub dir : Text
  pub env : List Text
  pub timeout : ℤ

-- How `cmd.Run` ends: a failure says whether the deadline has passed, and the status if the program
-- exited.
pub data Exit (E : Type 0) : Type 0 where
  succeeded : Exit E
  failed : Bool → Option ℤ → E → Exit E

pub record Host (W E : Type 0) : Type 0 where
  -- os.CreateTemp in a directory, os.Open with io.ReadAll, and Close with os.Remove
  pub create_sink : Text → Call W E Text
  pub read_all : Text → W → Option Text
  pub remove_sink : Text → W → W
  pub run_process : Process → Text → W → Exit E × W

pub data CommandError (E : Type 0) : Type 0 where
  no_command : Text → CommandError E
  no_capture : E → CommandError E
  timed_out : Text → ℤ → Text → CommandError E
  exited : Text → Text → ℤ → Text → CommandError E
  could_not_run : Text → Text → E → CommandError E

-- The bytes of a character in UTF-8; a byte that is no part of valid UTF-8 stands for itself.
unfoldable pub utf8 : ℕ → List ℕ
utf8 c =
    if ltb c 0x80
    then c ∷ []
    else if ltb c 0x800
    then (0xc0 + c / 64) ∷ (0x80 + c % 64) ∷ []
    else if ltb c 0x10000
    then (0xe0 + c / 4096) ∷ (0x80 + c / 64 % 64) ∷ (0x80 + c % 64) ∷ []
    else if ltb c 1114112
    then (0xf0 + c / 262144) ∷ (0x80 + c / 4096 % 64) ∷ (0x80 + c / 64 % 64) ∷ (0x80 + c % 64) ∷ []
    else (c - 1114112) ∷ []

abbrev pub first_bytes : ℕ → List ℕ → List ℕ
first_bytes zero bs = []
first_bytes (suc n) [] = []
first_bytes (suc n) (b ∷ bs) = b ∷ first_bytes n bs

-- `s[:n]`, which may cut a character into single bytes.
unfoldable pub take_bytes : ℕ → Text → Text
unfolding utf8 width
take_bytes n [] = []
take_bytes n (c ∷ cs) =
    let rest = take_bytes (n - width c) cs in
    if leb (width c) n then c ∷ rest else map (λ b. 1114112 + b) (first_bytes n (utf8 c))

abbrev pub max_command_output : ℕ
max_command_output = 2000

-- `summarise`.
unfoldable pub summarise : Text → Text
unfolding take_bytes trim_space byte_len
summarise out =
    let trimmed = trim_space out in
    if eq_text trimmed []
    then []
    else if ltb max_command_output (byte_len trimmed)
    then codes ": " ++ (take_bytes max_command_output trimmed ++ codes "... (output truncated)")
    else codes ": " ++ trimmed

-- `readSink`: one byte more than what is shown.
unfoldable pub read_sink : Option Text → Text
unfolding take_bytes
read_sink none = []
read_sink (some out) = take_bytes (suc max_command_output) out

abbrev pub or_empty : Option Text → Text
or_empty none = []
or_empty (some value) = value

-- `os.Getenv`.
abbrev pub getenv : (Text → Option Text) → Text → Text
getenv ambient name = or_empty (ambient name)

-- `os.TempDir` on Unix, where `os.CreateTemp("", ...)` creates its file.
abbrev pub temp_dir : (Text → Option Text) → Text
temp_dir ambient =
    let dir = getenv ambient (codes "TMPDIR") in if eq_text dir [] then codes "/tmp" else dir

abbrev pub default_path : Text
default_path = codes "/usr/local/sbin:/usr/local/bin:/usr/sbin:/usr/bin:/sbin:/bin"

abbrev pub or_default : Text → Text
or_default p = if not (eq_text p []) then p else default_path

unfoldable pub path_or_default : (Text → Option Text) → Text
path_or_default ambient = or_default (getenv ambient (codes "PATH"))

-- NAME=VALUE.
abbrev pub entry : Text → Text → Text
entry name value = name ++ (b'=' ∷ value)

unfoldable pub exposed : List (Text × Credential) → List Text
exposed [] = []
exposed ((name, value) ∷ values) = entry name value ∷ exposed values

abbrev pub pass_one : Text → Option Text → List Text → List Text
pass_one name none rest = rest
pass_one name (some value) rest = entry name value ∷ rest

-- The variables that the configuration passes on, those that are set.
unfoldable pub passed : (Text → Option Text) → List Text → List Text
passed ambient [] = []
passed ambient (name ∷ names) = pass_one name (ambient name) (passed ambient names)

unfoldable pub port_entry : Target → List Text
port_entry t =
    let port = effective_port t Kind.command in
    if ltb_ℤ (pos 0) port then entry (codes "ROTATOR_PORT") (show_int port) ∷ [] else []

module _ (ambient : Text → Option Text)
    (order : List (Text × Credential) → List (Text × Credential)) where
  -- `buildEnv`.
  unfoldable pub build_env : Target → Invocation → List Text
  unfolding path_or_default exposed passed port_entry
  build_env t inv =
      (entry (codes "PATH") (path_or_default ambient)
        ∷ entry (codes "HOME") (getenv ambient (codes "HOME"))
        ∷ entry (codes "ROTATOR_OPERATION") inv.operation
        ∷ entry (codes "ROTATOR_HOST") t.host
        ∷ entry (codes "ROTATOR_USERNAME") t.admin_user
        ∷ entry (codes "ROTATOR_TARGET_USER") (effective_target_user t)
        ∷ entry (codes "ROTATOR_DATABASE") t.database
        ∷ [])
      ++ (port_entry t ++ (exposed (order inv.values) ++ passed ambient t.command_spec.pass_env))

module _ {W E : Type 0} (host : Host W E) where
  open host use {create_sink, read_all, remove_sink, run_process}

  abbrev pub Outcome : Type 0
  Outcome = Result (CommandError E) (Unit {0}) × W

  -- The error that a failed run is reported with.
  abbrev pub failure : Target → Text → Text → Bool → Option ℤ → E → Text → CommandError E
  failure t operation program true status e detail =
      timed_out operation (effective_timeout t.command_spec) detail
  failure t operation program false (some status) e detail = exited operation program status detail
  failure t operation program false none e detail = could_not_run operation program e

  abbrev pub after_run : Target → Text → Text → Text → Exit E × W → Outcome
  after_run t operation program sink (succeeded, w) = (ok tt, w)
  after_run t operation program sink (failed late status e, w) =
      (err (failure t operation program late status e (summarise (read_sink (read_all sink w)))), w)

  abbrev pub process_for : Target → List Text → Text → Text → List Text → Process
  process_for t env path program args = record {
    program = program;
    search_path = path;
    args = args;
    dir = t.command_spec.working_dir;
    env = env;
    timeout = effective_timeout t.command_spec;
  }

  abbrev pub after_sink :
      Target → Text → List Text → Text → Text → List Text → Result E Text × W → Outcome
  after_sink t operation env path program args (err e, w) = (err (no_capture e), w)
  after_sink t operation env path program args (ok sink, w) = leaving (remove_sink sink) (
      after_run t operation program sink (run_process (process_for t env path program args) sink w))

  abbrev pub run_argv :
      Target → Text → List Text → Text → Text → List Text → Call W (CommandError E) (Unit {0})
  run_argv t operation env dir path [] w = (err (no_command operation), w)
  run_argv t operation env dir path (program ∷ args) w =
      after_sink t operation env path program args (create_sink dir w)

  module _ (ambient : Text → Option Text)
      (order : List (Text × Credential) → List (Text × Credential)) where
    unfoldable pub run : Target → Invocation → Call W (CommandError E) (Unit {0})
    unfolding build_env summarise read_sink
    run t inv =
        run_argv t inv.operation (build_env ambient order t inv) (temp_dir ambient)
          (getenv ambient (codes "PATH")) inv.argv

    unfoldable pub apply : Target → Credential → Call W (CommandError E) (Unit {0})
    unfolding run
    apply t next = run t (record {
      operation = codes "apply";
      argv = t.command_spec.apply_argv;
      values = (codes "ROTATOR_NEW_SECRET", next) ∷ [];
    })

    -- Without a verify command there is nothing to do.
    unfoldable pub verify : Target → Credential → Call W (CommandError E) (Unit {0})
    unfolding run
    verify t c =
        if is_nil t.command_spec.verify_argv
        then done
        else run t (record {
          operation = codes "verify";
          argv = t.command_spec.verify_argv;
          values = (codes "ROTATOR_NEW_SECRET", c) ∷ [];
        })

    -- Without a restore command, the apply command gets the previous value as the new one too.
    abbrev pub restore_values : Bool → Credential → Credential → List (Text × Credential)
    restore_values dedicated previous current =
        (codes "ROTATOR_PREVIOUS_SECRET", previous)
        ∷ (codes "ROTATOR_CURRENT_SECRET", current)
        ∷ (if dedicated then [] else (codes "ROTATOR_NEW_SECRET", previous) ∷ [])

    unfoldable pub restore : Target → Credential → Credential → Call W (CommandError E) (Unit {0})
    unfolding run restore_command
    restore t previous current =
        let (argv, dedicated) = restore_command t.command_spec in
        run t (record {
          operation = codes "restore";
          argv = argv;
          values = restore_values dedicated previous current;
        })

    unfoldable pub command_rotator : Rotator W (CommandError E)
    unfolding apply verify restore
    command_rotator = record { apply = apply; verify = verify; restore = restore }
