-- ===== src/Config.antt =====
-- internal/infrastructure/configfile: rotator.yml as the decoder leaves it. Decoding YAML and
-- overlaying the environment are an argument of `Config.Load`; a nil map or slice is an empty one. A
-- Go map of texts is an association list with one entry for a key.
pub mod Normalize
pub mod Provider
pub mod Translate
pub mod Loaded
pub mod Discover
use secret_rotator.Prelude.{
  Bool, true, false, not, ◌&&◌, ◌||◌, ◌==◌, List, [], ◌∷◌, is_nil, any, Option, none, some,
  if◌then◌else◌,
}
use secret_rotator.Prelude.Int.{ℤ}
use secret_rotator.Prelude.Text.{Text, codes, eq_text, lookup}
use secret_rotator.Domain.Errors.{Warning}
use secret_rotator.Domain.Secret.{Secret}
use secret_rotator.Notifier.{NotifyConfig}

pub record CommandConfig : Type 0 where
  pub apply_argv : List Text
  pub verify_argv : List Text
  pub restore_argv : List Text
  pub timeout : Text
  pub pass_env : List Text
  pub work_dir : Text

pub record SecretConfig : Type 0 where
  pub name : Text
  pub kind : Text
  pub env_key : Text
  pub env_file : Text
  pub env_files : List Text
  pub containers : List Text
  pub provider : List (Text × Text)
  pub command_block : CommandConfig
  pub schedule : Text
  pub max_age : Text
  pub length : ℤ

pub data ConfigWarning : Type 0 where
  unrecognised_keys : Text → List Text → ConfigWarning
  program_absent : Text → Text → ConfigWarning
  both_set : Text → Text → Text → ConfigWarning
  deprecated_key : Text → Text → Text → ConfigWarning
  of_secret : Warning → ConfigWarning

pub record Config : Type 0 where
  pub master_key_env : Text
  pub compose_file : Text
  pub definitions : List SecretConfig
  pub notifications : List NotifyConfig
  pub path : Text
  pub warnings : List ConfigWarning
  pub secrets : List Secret
  pub searched : List Text

-- `DefaultConfig`.
abbrev pub default_config : Config
default_config = record {
  master_key_env = [];
  compose_file = [];
  definitions = [];
  notifications = [];
  path = [];
  warnings = [];
  secrets = [];
  searched = [];
}

-- `CommandConfig.IsSet`.
unfoldable pub block_is_set : CommandConfig → Bool
block_is_set c =
    not (is_nil c.apply_argv) || not (is_nil c.verify_argv) || not (is_nil c.restore_argv)

-- What package filepath and os.Stat answer: a path joined onto a base, the directory of a path, and
-- what stands at a path, with whether it is a directory.
pub record Paths : Type 0 where
  pub join : Text → Text → Text
  pub dir_of : Text → Text
  pub stat : Text → Option Bool

-- `filepath.IsAbs` on Unix.
abbrev pub is_abs : Text → Bool
is_abs [] = false
is_abs (c ∷ cs) = c == b'/'

abbrev pub has_separator : Text → Bool
has_separator s = any (λ c. c == b'/') s

abbrev pub or_empty : Option Text → Text
or_empty none = []
or_empty (some v) = v

-- `m[key]` of a map of texts.
unfoldable pub value_of : List (Text × Text) → Text → Text
value_of m key = or_empty (lookup key m)

-- `m[key] = value`, and `delete(m, key)`.
unfoldable pub put_value : List (Text × Text) → Text → Text → List (Text × Text)
put_value [] key value = (key, value) ∷ []
put_value ((k, v) ∷ m) key value =
    let rest = put_value m key value in if eq_text k key then (key, value) ∷ m else (k, v) ∷ rest

unfoldable pub delete_key : List (Text × Text) → Text → List (Text × Text)
delete_key [] key = []
delete_key ((k, v) ∷ m) key =
    let rest = delete_key m key in if eq_text k key then rest else (k, v) ∷ rest

module _ (paths : Paths) where
  open paths use {join, dir_of, stat}

  -- `Dir`.
  unfoldable pub dir : Config → Text
  dir c = if eq_text c.path [] then codes "." else dir_of c.path

  -- `resolveRelative`.
  unfoldable pub resolve_relative : Text → Text → Text
  resolve_relative base path = if eq_text path [] || is_abs path then path else join base path

  abbrev pub compose_file_names : List Text
  compose_file_names =
      codes "compose.yaml"
      ∷ codes "compose.yml"
      ∷ codes "docker-compose.yaml"
      ∷ codes "docker-compose.yml"
      ∷ []

  abbrev pub is_file : Option Bool → Bool
  is_file none = false
  is_file (some is_dir) = not is_dir

  unfoldable pub first_compose : Text → List Text → Text
  first_compose base [] = []
  first_compose base (name ∷ names) =
      let rest = first_compose base names in
      if is_file (stat (join base name)) then join base name else rest

  abbrev pub if_there : Text → Option Text
  if_there path = elim (stat path) [ none ↦ none | some is_dir ↦ some path ]

  -- `ResolveComposeFile`: none is the error that a configured file is not there.
  unfoldable pub resolve_compose_file : Config → Option Text
  unfolding dir first_compose
  resolve_compose_file c =
      if not (eq_text c.compose_file [])
      then if_there (if is_abs c.compose_file then c.compose_file else join (dir c) c.compose_file)
      else some (first_compose (dir c) compose_file_names)

-- `Find`.
unfoldable pub find_secret : List Secret → Text → Option Secret
find_secret [] name = none
find_secret (s ∷ ss) name =
    let rest = find_secret ss name in if eq_text s.name name then some s else rest

-- `SecretNames`.
unfoldable pub secret_names : List Secret → List Text
secret_names [] = []
secret_names (s ∷ ss) = s.name ∷ secret_names ss
