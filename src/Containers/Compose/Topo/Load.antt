-- ===== src/Containers/Compose/Topo/Load.antt =====
-- `LoadDependencyOrder` of internal/infrastructure/container/compose.go: from the services of a
-- project to the order.
use secret_rotator.Prelude.{
  ℕ, ◌≤◌, ◌<◌, ◌≡◌, refl, List, [], ◌∷◌, ◌++◌, arith, inl, inr, Bool-cases, subst,
}
use secret_rotator.Prelude.Result.{Result, ok, err}
use secret_rotator.Prelude.Text.{Text, eq_text}
use secret_rotator.Containers.Compose.Sorted.{count}
use secret_rotator.Containers.Compose.Topo.{
  Deps, OrderError, loading, cycle, out_of_fuel, deps_of, topo_sort, node_names, adjacency,
  load_dependency_order,
}
use secret_rotator.Containers.Compose.Topo.Degrees.{deps_of-absent}
use secret_rotator.Containers.Compose.Topo.Before.{AllIn, DependenciesFirst}
use secret_rotator.Containers.Compose.Topo.Order.{Decided, topo_sort-Decided, topo_sort-ok}

count-adjacency :
    (q : Text) (services : Deps)
    → count q (node_names (adjacency services)) ≤ count q (node_names services)
count-adjacency q [] = omega arith
count-adjacency q ((name, []) ∷ services) = omega (arith, count-adjacency q services)
count-adjacency q ((name, d ∷ ds) ∷ services) = omega (arith, count-adjacency q services)

deps_of-adjacency :
    (n : Text) (services : Deps)
    → count n (node_names services) ≤ 1
    → deps_of (adjacency services) n ≡ deps_of services n
deps_of-adjacency n [] h = refl
deps_of-adjacency n ((name, []) ∷ services) h = elim (Bool-cases (eq_text n name)) [
  | inl same ↦
      let rest = count-adjacency n services in
      rw same (deps_of-absent (adjacency services) n (ground arith))
  | inr other ↦ rw other (deps_of-adjacency n services (ground arith))
]
deps_of-adjacency n ((name, d ∷ ds) ∷ services) h = elim (Bool-cases (eq_text n name)) [
  | inl same ↦ rw same refl
  | inr other ↦ rw other (deps_of-adjacency n services (ground arith))
]

DependenciesFirst-same :
    (a b : Deps)
    → ((n : Text) → deps_of a n ≡ deps_of b n)
    → (before order : List Text) → DependenciesFirst a before order
    → DependenciesFirst b before order
DependenciesFirst-same a b e before [] h = tt
DependenciesFirst-same a b e before (n ∷ ns) (first, rest) =
    (subst (AllIn before) (e n) first, DependenciesFirst-same a b e (before ++ n ∷ []) ns rest)

Decided-same :
    {E : Type 0} (a b : Deps) (nodes : List Text)
    → ((n : Text) → deps_of a n ≡ deps_of b n)
    → (r : Result (OrderError E) (List Text)) → Decided a nodes r
    → Decided b nodes r
Decided-same a b nodes e (ok order) (all, first) =
    (all, DependenciesFirst-same a b e [] order first)
Decided-same a b nodes e (err (cycle placed n)) h = h
Decided-same a b nodes e (err (loading _)) h = absurd h
Decided-same a b nodes e (err out_of_fuel) h = absurd h

module _ {E : Type 0} (load : Text → Result E Deps) (path : Text) (services : Deps)
    (loaded : load path ≡ ok services)
    (distinct : (q : Text) → count q (node_names services) ≤ 1) where
  keys : (q : Text) → count q (node_names (adjacency services)) ≤ 1
  keys q = omega (arith, count-adjacency q services, distinct q)

  pub load_dependency_order-Decided :
      Decided services (node_names services) (load_dependency_order load path)
  unfolding load_dependency_order
  load_dependency_order-Decided = rw loaded (
      Decided-same (adjacency services) services (node_names services)
        (λ n. deps_of-adjacency n services (distinct n))
        (topo_sort (adjacency services) (node_names services))
        (topo_sort-Decided (adjacency services) (node_names services) distinct keys E))

  -- If the compose file loads as services with different names that depend on services of the file
  -- only, and each service has a higher rank than those that it depends on, LoadDependencyOrder
  -- returns an order: it reports no cycle where there is none.
  pub load_dependency_order-ok :
      (rank : Text → ℕ)
      → ((n d : Text)
          → 0 < count d (deps_of services n)
          → (0 < count d (node_names services)) × (rank d < rank n))
      → (order : List Text) × (load_dependency_order load path ≡ ok order)
  unfolding load_dependency_order
  load_dependency_order-ok rank ranked =
      let (order, e) =
        topo_sort-ok (adjacency services) (node_names services) distinct keys rank
          (λ n d p. ranked n d (
            subst (λ (ds : List Text). 0 < count d ds) (deps_of-adjacency n services (distinct n))
              p))
          {E = E} in
      (order, rw loaded e)
