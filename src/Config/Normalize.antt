-- ===== src/Config/Normalize.antt =====
-- `normalize` of internal/infrastructure/configfile/config.go: deprecated keys and relative paths.
use secret_rotator.Prelude.{not, List, [], ◌∷◌, ◌++◌, map, if◌then◌else◌}
use secret_rotator.Prelude.Text.{Text, codes, eq_text}
use secret_rotator.Config.{
  SecretConfig, ConfigWarning, both_set, deprecated_key, Config, Paths, dir, resolve_relative,
  value_of, put_value, delete_key,
}

-- The order in which Go ranges over the map of the two deprecated keys.
pub data DeprecatedOrder : Type 0 where
  user_first pass_first : DeprecatedOrder

abbrev pub deprecated_keys : DeprecatedOrder → List (Text × Text)
deprecated_keys user_first =
    (codes "user", codes "username") ∷ (codes "pass", codes "password") ∷ []
deprecated_keys pass_first =
    (codes "pass", codes "password") ∷ (codes "user", codes "username") ∷ []

abbrev pub Keyed : Type 0
Keyed = List (Text × Text) × List ConfigWarning

-- The body of the loop, for a deprecated key that has a value.
unfoldable pub rename_key : Text → Text → Text → Text → Keyed → Keyed
rename_key name old canonical val (provider, warnings) =
    if not (eq_text (value_of provider canonical) [])
    then (delete_key provider old, warnings ++ both_set name old canonical ∷ [])
    else (
      delete_key (put_value provider canonical val) old,
      warnings ++ deprecated_key name old canonical ∷ [],
    )

unfoldable pub rename_loop : Text → List (Text × Text) → Keyed → Keyed
unfolding rename_key
rename_loop name [] p = p
rename_loop name ((old, canonical) ∷ keys) p =
    let val = value_of p.0 old in
    rename_loop name keys (if eq_text val [] then p else rename_key name old canonical val p)

module _ (paths : Paths) (order : DeprecatedOrder) where
  unfoldable pub normalize_one :
      Text → SecretConfig → List ConfigWarning → SecretConfig × List ConfigWarning
  unfolding rename_loop
  normalize_one base s warnings =
      let (provider, warnings') =
        rename_loop s.name (deprecated_keys order) (s.provider, warnings) in
      (
        record s {
          env_file = resolve_relative paths base s.env_file;
          env_files = map (resolve_relative paths base) s.env_files;
          provider = provider;
        },
        warnings',
      )

  unfoldable pub normalize_all :
      Text → List SecretConfig → List ConfigWarning → List SecretConfig × List ConfigWarning
  unfolding normalize_one
  normalize_all base [] warnings = ([], warnings)
  normalize_all base (s ∷ ss) warnings =
      let (s', warnings') = normalize_one base s warnings in
      let (ss', warnings'') = normalize_all base ss warnings' in (s' ∷ ss', warnings'')

  -- `normalize`.
  unfoldable pub normalize : Config → Config
  unfolding normalize_all
  normalize c =
      let (definitions, warnings) = normalize_all (dir paths c) c.definitions c.warnings in
      record c { definitions = definitions; warnings = warnings }
