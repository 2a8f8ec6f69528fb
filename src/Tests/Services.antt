-- ===== src/Tests/Services.antt =====
-- The order in which services start, and the restart of containers in it.
use secret_rotator.Prelude.{
  ℕ, suc, ◌==◌, ◌≤◌, ◌<◌, ◌≡◌, refl, subst, sym, List, [], ◌∷◌, inl, inr, Bool-cases, arith, some,
  none, false, if◌then◌else◌,
}
use secret_rotator.Prelude.Int.{pos, ◌-ℤ◌}
use secret_rotator.Prelude.Result.{Result, ok}
use secret_rotator.Prelude.Text.{Text, codes, eq_text, eq_text_iff}
use secret_rotator.Containers.Compose.{
  text_lt, sort_strings, sort_loop, sift, turned_onto, insert_sorted, filter_dependency_order,
}
use secret_rotator.Containers.Compose.Sorted.{count}
use secret_rotator.Containers.Compose.Topo.{
  Deps, deps_of, node_names, load_dependency_order, degree_loop, add_edges, reverse_loop,
  ready_nodes, lower, lower_all, pop_node, kahn_loop, topo_sort,
}
use secret_rotator.Containers.Compose.Topo.Load.{load_dependency_order-ok}
use secret_rotator.Config.{Paths, default_config, dir, first_compose, resolve_compose_file}
use secret_rotator.Cli.Order.{apply_dependency_order}
use secret_rotator.Cli.Order.Ordered.{Reordered, apply_dependency_order-Reordered}
use secret_rotator.Domain.Secret.{Secret, with_containers}
use secret_rotator.Tests.Domain.{secret}
use secret_rotator.Containers.Resolve.{Container}
use secret_rotator.Containers.Fleet.{
  deadline, Manager, fleet_timeout, wait_loop, wait_healthy, restart_in_order, fleet_restart,
}
use secret_rotator.Containers.Fleet.Rolled.{Rolled, fleet_restart-Rolled}

abbrev U : Type 0
U = Unit {0}

abbrev web : Text
web = codes "web"

abbrev db : Text
db = codes "db"

abbrev project : Deps
project = (web, db ∷ []) ∷ (db, []) ∷ []

abbrev load : Text → Result U Deps
load path = ok project

abbrev path : Text
path = codes "compose.yml"

names-distinct : (q : Text) → count q (node_names project) ≤ 1
unfolding eq_text
names-distinct q = elim (Bool-cases (eq_text q web)) [
  | inl is_web ↦
      subst (λ (t : Text). count t (node_names project) ≤ 1) (sym ((eq_text_iff q web).0 is_web))
        (omega arith)
  | inr other ↦ rw other (elim (Bool-cases (eq_text q db)) [
    | inl is_db ↦ rw is_db (omega arith)
    | inr neither ↦ rw neither (omega arith)
  ])
]

abbrev rank : Text → ℕ
rank q = if eq_text q web then 1 else 0

deps-ranked :
    (n d : Text)
    → 0 < count d (deps_of project n)
    → (0 < count d (node_names project)) × (rank d < rank n)
unfolding eq_text
deps-ranked n d = elim (Bool-cases (eq_text n web)) [
  | inl is_web ↦ rw is_web (λ h. elim (Bool-cases (eq_text d db)) [
    | inl is_db ↦
        subst (λ (t : Text). (0 < count t (node_names project)) × (rank t < 1))
          (sym ((eq_text_iff d db).0 is_db)) (omega arith, omega arith)
    | inr other ↦ absurd (ground (arith, other))
  ])
  | inr other ↦ rw other (elim (Bool-cases (eq_text n db)) [
    | inl is_db ↦ rw is_db (λ h. absurd (omega arith))
    | inr neither ↦ rw neither (λ h. absurd (omega arith))
  ])
]

loaded : load_dependency_order load path ≡ ok (db ∷ web ∷ [])
unfolding load_dependency_order topo_sort degree_loop add_edges reverse_loop ready_nodes lower
    lower_all kahn_loop pop_node sort_strings sort_loop sift turned_onto insert_sorted text_lt
    eq_text ◌-ℤ◌
loaded = refl

load_dependency_order-ok_example :
    (order : List Text) × (load_dependency_order load path ≡ ok order)
load_dependency_order-ok_example =
    load_dependency_order-ok load path project refl names-distinct rank deps-ranked

abbrev two_services : Secret
two_services = record secret { containers = web ∷ db ∷ [] }

abbrev paths : Paths
paths = record {
  join = λ base p. p;
  dir_of = λ p. p;
  stat = λ p. if eq_text p path then some false else none;
}

found_compose : resolve_compose_file paths default_config ≡ some path
unfolding resolve_compose_file first_compose dir eq_text
found_compose = refl

named : eq_text path [] ≡ false
unfolding eq_text
named = refl

reordered :
    apply_dependency_order paths load default_config two_services
    ≡ some (record secret { containers = db ∷ web ∷ [] })
unfolding apply_dependency_order resolve_compose_file eq_text load_dependency_order sort_strings
    pop_node ◌-ℤ◌ insert_sorted with_containers filter_dependency_order
reordered = refl

apply_dependency_order-Reordered_example :
    (s : Secret) × (apply_dependency_order paths load default_config two_services ≡ some s)
    × Reordered paths load default_config path project found_compose named refl names-distinct rank
        deps-ranked two_services s
apply_dependency_order-Reordered_example =
    apply_dependency_order-Reordered paths load default_config path project found_compose named refl
      names-distinct rank deps-ranked two_services names-distinct

-- A container that is up from the second time on that anything is inspected.
abbrev state_at : ℕ → Text → Container
state_at n name = record {
  id = name;
  name = name;
  image = [];
  status = codes "running";
  health = if n == 0 then codes "starting" else codes "healthy";
  labels = [];
  env_vars = [];
}

-- The world counts the inspections; a wait has three ticks.
abbrev manager : Manager ℕ U
manager = record {
  list_all = λ n. (ok [], n);
  inspect = λ name n. (ok (state_at n name), suc n);
  restart_one = λ name timeout n. (ok tt, n);
  ticks = λ timeout n. (3, deadline);
}

restarted : (fleet_restart manager (pos 0) (db ∷ web ∷ []) 0).0 ≡ ok tt
unfolding fleet_restart restart_in_order wait_healthy wait_loop eq_text
restarted = refl

fleet_restart-Rolled_example :
    Rolled manager
      (fleet_timeout (pos 0))
      (db ∷ web ∷ [])
      0
      (fleet_restart manager (pos 0) (db ∷ web ∷ []) 0).1
fleet_restart-Rolled_example = fleet_restart-Rolled manager (pos 0) (db ∷ web ∷ []) 0 restarted
