-- ===== src/Cli/Order.antt =====
-- `applyDependencyOrder` of internal/interfaces/cli/rotate.go.
pub mod Ordered
use secret_rotator.Prelude.{
  Bool, true, false, not, List, [], ◌∷◌, ◌++◌, any, ltb, length, Option, none, some, if◌then◌else◌,
}
use secret_rotator.Prelude.Result.{Result, ok, err}
use secret_rotator.Prelude.Text.{Text, eq_text}
use secret_rotator.Domain.Secret.{Secret, with_containers}
use secret_rotator.Containers.Compose.{filter_dependency_order}
use secret_rotator.Containers.Compose.Topo.{Deps, OrderError, load_dependency_order}
use secret_rotator.Config.{Config, Paths, resolve_compose_file}

-- The loop that appends the names that the order does not know.
unfoldable pub append_unknown : List Text → List Text → List Text
append_unknown known [] = []
append_unknown known (n ∷ names) =
    let rest = append_unknown known names in if any (eq_text n) known then rest else n ∷ rest

-- The names in the order, the others behind them.
unfoldable pub ordered_names : List Text → List Text → List Text
unfolding append_unknown
ordered_names order names =
    let ordered = filter_dependency_order order names in ordered ++ append_unknown ordered names

module _ {E : Type 0} (paths : Paths) (load : Text → Result E Deps) where
  -- A failed load only warns.
  abbrev pub with_order : Secret → Result (OrderError E) (List Text) → Secret
  with_order secret (err e) = secret
  with_order secret (ok order) = with_containers secret (ordered_names order secret.containers)

  -- Behind the resolution of the compose file; none is its error.
  abbrev pub in_project : Secret → Option Text → Option Secret
  in_project secret none = none
  in_project secret (some path) =
      if eq_text path []
      then some secret
      else some (with_order secret (load_dependency_order load path))

  -- `applyDependencyOrder`: none is the error that the configured compose file is not there.
  unfoldable pub apply_dependency_order : Config → Secret → Option Secret
  unfolding ordered_names
  apply_dependency_order config secret =
      if ltb (length secret.containers) 2
      then some secret
      else in_project secret (resolve_compose_file paths config)
