-- ===== src/Domain/Errors.antt =====
-- The errors that wrap `ErrInvalidSecret`, and the warnings, of internal/domain: a constructor for
-- each message, with the values that the message shows.
use secret_rotator.Prelude.{ℕ}
use secret_rotator.Prelude.Text.{Text}

-- The key of a command block that a message is about.
pub data Label : Type 0 where
  apply verify restore : Label

pub data Invalid : Type 0 where
  name_required : Invalid
  name_whitespace : Text → Invalid
  type_required : Invalid
  type_invalid : Text → Invalid
  env_key_required : Invalid
  env_key_invalid : Text → Invalid
  env_file_required : Invalid
  env_file_empty : Invalid
  env_file_twice : Text → Invalid
  length_range : Invalid
  max_age_not_duration : Text → Invalid
  max_age_number : Text → Invalid
  max_age_not_positive : Text → Invalid
  container_empty : Invalid
  host_required : Invalid
  username_required : Invalid
  command_apply_required : Invalid
  command_empty_program : Label → Invalid
  command_shell_line : Label → Text → Invalid
  command_null_byte : Label → ℕ → Invalid
  command_negative_timeout : Invalid

pub data Warning : Type 0 where
  no_verify : Warning
  command_ignored : Warning
  empty_password : Warning
  no_database : Warning
