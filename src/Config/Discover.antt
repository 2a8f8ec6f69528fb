-- ===== src/Config/Discover.antt =====
-- internal/infrastructure/configfile/discover.go, and `Load` of config.go: where the configuration is
-- looked for, and how it is loaded. The environment, the working directory and the decoder, which
-- reads the YAML and overlays ROTATOR_ variables, are arguments.
use secret_rotator.Prelude.{
  Bool, true, false, not, List, [], ◌∷◌, ◌++◌, is_nil, Option, none, some, if◌then◌else◌,
}
use secret_rotator.Prelude.Int.{ℤ}
use secret_rotator.Prelude.Result.{Result, ok, err}
use secret_rotator.Prelude.Text.{Text, codes, eq_text}
use secret_rotator.Prelude.Unicode.{Tables}
use secret_rotator.Domain.Command.{MapOrder}
use secret_rotator.Domain.Secret.{Secret}
use secret_rotator.Config.{Config, ConfigWarning, Paths, default_config, is_abs, is_file, or_empty}
use secret_rotator.Config.Normalize.{DeprecatedOrder, normalize}
use secret_rotator.Config.Translate.{domain_secrets}
use secret_rotator.Config.Provider.{ConfigError}

abbrev pub search_paths : List Text
search_paths =
    codes "rotator.yml"
    ∷ codes "rotator.yaml"
    ∷ codes ".rotator.yml"
    ∷ codes "/config/rotator.yml"
    ∷ codes "/config/rotator.yaml"
    ∷ codes "/etc/rotator/rotator.yml"
    ∷ codes "/etc/rotator/rotator.yaml"
    ∷ []

pub data LoadError (E : Type 0) : Type 0 where
  explicit_absent : Text → LoadError E
  from_env_absent : Text → LoadError E
  no_config : List Text → LoadError E
  decoding : E → LoadError E
  translating : ConfigError → LoadError E

pub data MissingConfig : Type 0 where
  defines_no_secrets : Text → MissingConfig
  not_found : List Text → MissingConfig

module _ (paths : Paths) (ambient : Text → Option Text) (cwd : Option Text) where
  open paths use {join, dir_of, stat}

  abbrev pub in_cwd : Option Text → Text → Text
  in_cwd none candidate = candidate
  in_cwd (some base) candidate = join base candidate

  abbrev pub anchored : Text → Text
  anchored candidate = if is_abs candidate then candidate else in_cwd cwd candidate

  abbrev pub exists : Text → Bool
  exists path = elim (stat path) [ none ↦ false | some is_dir ↦ true ]

  -- The loop over the candidates; `searched` holds those before.
  unfoldable pub probe : {E : Type 0} → List Text → List Text → Result (LoadError E) Text
  probe searched [] = err (no_config searched)
  probe searched (candidate ∷ candidates) =
      let path = anchored candidate in
      let rest = probe (searched ++ path ∷ []) candidates in
      if is_file paths (stat path) then ok path else rest

  -- `Discover`.
  unfoldable pub discover : {E : Type 0} → Text → Result (LoadError E) Text
  unfolding probe
  discover explicit =
      let from_env = or_empty (ambient (codes "ROTATOR_CONFIG")) in
      if not (eq_text explicit [])
      then (if exists explicit then ok explicit else err (explicit_absent explicit))
      else if not (eq_text from_env [])
      then (if exists from_env then ok from_env else err (from_env_absent from_env))
      else probe [] search_paths

  -- `DataDir`.
  unfoldable pub data_dir : Config → Text → Text
  data_dir c explicit =
      let from_env = or_empty (ambient (codes "ROTATOR_DATA_DIR")) in
      if not (eq_text explicit [])
      then explicit
      else if not (eq_text from_env [])
      then from_env
      else if not (eq_text c.path [])
      then join (dir_of c.path) (codes ".rotator")
      else codes ".rotator"

  -- `HistoryPath`.
  unfoldable pub history_path : Config → Text → Text
  unfolding data_dir
  history_path c explicit = join (data_dir c explicit) (codes "history.json")

  module _ {E : Type 0} (decode : Text → Result E Config) (u : Tables)
      (parse_duration : Text → Option ℤ) (o : MapOrder) (order : DeprecatedOrder) where
    abbrev pub translated :
        Config → Result ConfigError (List Secret) × List ConfigWarning → Result (LoadError E) Config
    translated c (err e, warnings) = err (translating e)
    translated c (ok secrets, warnings) = ok (record c { secrets = secrets; warnings = warnings })

    abbrev pub decoded : Text → Result E Config → Result (LoadError E) Config
    decoded path (err e) = err (decoding e)
    decoded path (ok c) =
        let c' = normalize paths order (record c { path = path }) in
        translated c' (domain_secrets u parse_duration o paths c' c'.warnings)

    -- `Load`.
    unfoldable pub load : Text → Result (LoadError E) Config
    load path = if eq_text path [] then ok default_config else decoded path (decode path)

    abbrev pub with_path : Text → Result (LoadError E) Config → Result (LoadError E) (Config × Text)
    with_path path (err e) = err e
    with_path path (ok c) = ok (c, path)

    -- Without a file, and without one asked for, there is the default configuration.
    abbrev pub discovered : Text → Result (LoadError E) Text → Result (LoadError E) (Config × Text)
    discovered explicit (ok path) = with_path path (load path)
    discovered explicit (err (no_config searched)) =
        if eq_text explicit []
        then ok (record default_config { searched = searched }, [])
        else err (no_config searched)
    discovered explicit (err e) = err e

    -- `LoadDiscovered`.
    unfoldable pub load_discovered : Text → Result (LoadError E) (Config × Text)
    unfolding load discover
    load_discovered explicit = discovered explicit (discover explicit)

-- `RequireSecrets`: none where there are secrets.
unfoldable pub require_secrets : Config → Option MissingConfig
require_secrets c =
    if not (is_nil c.secrets)
    then none
    else if not (eq_text c.path [])
    then some (defines_no_secrets c.path)
    else some (not_found (if not (is_nil c.searched) then c.searched else search_paths))
