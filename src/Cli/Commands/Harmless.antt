-- ===== src/Cli/Commands/Harmless.antt =====
-- What the rotate command of internal/interfaces/cli/rotate.go leaves of the files.
use secret_rotator.Prelude.{◌≡◌, Bool, true, false}
use secret_rotator.Prelude.Result.{Result, ok, err}
use secret_rotator.Prelude.Text.{Text}
use secret_rotator.Domain.Secret.{Secret}
use secret_rotator.Application.Ports.{Ports}
use secret_rotator.Application.Files.{FileView, SameFiles, StoreLaws, Frames}
use secret_rotator.Application.Rotate.{rollback_failed}
use secret_rotator.Application.Rotate.Atomic.{Atomic}
use secret_rotator.Config.{Config}
use secret_rotator.Cli.Commands.{CliError, rotating_failed, Printed, planned, rotated}

module _ (p : Ports) (v : FileView p) (frames : Frames p v) (laws : StoreLaws p v) where
  open p use {World, Error}

  -- A dry run changes no file and ends with a plan, if it ends well; a run that is none ends with a
  -- rotation. No file has changed either, unless a secret was rotated or its rotation could not be
  -- undone.
  abbrev pub Harmless : Bool → World → Result (CliError Error) Printed × World → Type 0
  Harmless dry_run w (ok (rotated s), w') = dry_run ≡ false
  Harmless dry_run w (ok (planned plan), w') = (dry_run ≡ true) × SameFiles p v w w'
  Harmless dry_run w (err (rotating_failed (rollback_failed c fs)), w') = dry_run ≡ false
  Harmless dry_run w (err e, w') = SameFiles p v w w'
