-- ===== src/Containers/Compose/Topo.antt =====
-- `topoSort` and `LoadDependencyOrder` of internal/infrastructure/container/compose.go. A Go map from
-- names is a function with the zero value where nothing was stored; the map of dependencies, over
-- which the code also ranges, is an association list in the order in which Go ranges over it. The
-- degrees fall once for each edge at most, far from the bounds of an int.
pub mod Degrees
pub mod Rounds
pub mod Before
pub mod Invariant
pub mod Order
pub mod Load
use secret_rotator.Prelude.{
  ℕ, zero, suc, ◌==◌, Bool, true, false, List, [], ◌∷◌, ◌++◌, Option, none, some, length,
  if◌then◌else◌,
}
use secret_rotator.Prelude.Int.{ℤ, pos, negsuc, ◌-ℤ◌}
use secret_rotator.Prelude.Result.{Result, ok, err}
use secret_rotator.Prelude.Text.{Text, eq_text}
use secret_rotator.Containers.Compose.{sort_strings, insert_sorted}

abbrev pub Deps : Type 0
Deps = List (Text × List Text)

-- `deps[node]`.
abbrev pub deps_of : Deps → Text → List Text
deps_of [] node = []
deps_of ((name, ds) ∷ deps) node = if eq_text node name then ds else deps_of deps node

abbrev pub put_at : {V : Type 0} → (Text → V) → Text → V → Text → V
put_at m k v q = if eq_text q k then v else m q

abbrev pub is_zero : ℤ → Bool
is_zero (pos zero) = true
is_zero (pos (suc n)) = false
is_zero (negsuc n) = false

-- `inDegree`.
unfoldable pub degree_loop : Deps → (Text → ℤ) → List Text → Text → ℤ
degree_loop deps degree [] = degree
degree_loop deps degree (n ∷ ns) =
    degree_loop deps (put_at degree n (pos (length (deps_of deps n)))) ns

-- `reverse`, with the loop over the dependencies of one node.
unfoldable pub add_edges : (Text → List Text) → Text → List Text → Text → List Text
add_edges rev node [] = rev
add_edges rev node (d ∷ ds) = add_edges (put_at rev d (rev d ++ node ∷ [])) node ds

unfoldable pub reverse_loop : (Text → List Text) → Deps → Text → List Text
unfolding add_edges
reverse_loop rev [] = rev
reverse_loop rev ((node, ds) ∷ deps) = reverse_loop (add_edges rev node ds) deps

-- The nodes without dependencies.
unfoldable pub ready_nodes : (Text → ℤ) → List Text → List Text
ready_nodes degree [] = []
ready_nodes degree (n ∷ ns) =
    let rest = ready_nodes degree ns in if is_zero (degree n) then n ∷ rest else rest

pub record Kahn : Type 0 where
  pub queue : List Text
  pub degree : Text → ℤ
  pub result : List Text

-- The body of the loop over the dependents of the node that was popped.
unfoldable pub lower : Kahn → Text → Kahn
lower s n =
    let d = s.degree n -ℤ pos 1 in
    record s {
      queue = (if is_zero d then insert_sorted s.queue n else s.queue);
      degree = put_at s.degree n d;
    }

unfoldable pub lower_all : Kahn → List Text → Kahn
unfolding lower
lower_all s [] = s
lower_all s (n ∷ ns) = lower_all (lower s n) ns

-- One round, which pops `node` and leaves `rest` in the queue.
unfoldable pub pop_node : (Text → List Text) → Kahn → Text → List Text → Kahn
unfolding lower_all
pop_node rev s node rest =
    lower_all (record s { queue = rest; result = s.result ++ node ∷ [] }) (rev node)

-- The loop over the queue; `none` means that the fuel ran out.
unfoldable pub kahn_loop : ℕ → (Text → List Text) → Kahn → Option (List Text)
kahn_loop zero rev s = elim s.queue [ [] ↦ some s.result | _ ∷ _ ↦ none ]
kahn_loop (suc fuel) rev s = elim s.queue [
  | [] ↦ some s.result
  | node ∷ rest ↦ kahn_loop fuel rev (pop_node rev s node rest)
]

pub data OrderError (E : Type 0) : Type 0 where
  loading : E → OrderError E
  cycle : ℕ → ℕ → OrderError E
  out_of_fuel : OrderError E

unfoldable pub start : Deps → List Text → Kahn
unfolding degree_loop ready_nodes
start deps nodes =
    let degree = degree_loop deps (λ q. pos 0) nodes in
    record { queue = sort_strings (ready_nodes degree nodes); degree = degree; result = [] }

abbrev pub checked :
    {E : Type 0} → List Text → Option (List Text) → Result (OrderError E) (List Text)
checked nodes none = err out_of_fuel
checked nodes (some order) =
    if length order == length nodes then ok order else err (cycle (length order) (length nodes))

-- `topoSort`, with a round for each node as fuel.
unfoldable pub topo_sort : {E : Type 0} → Deps → List Text → Result (OrderError E) (List Text)
unfolding kahn_loop start reverse_loop
topo_sort deps nodes =
    checked nodes (kahn_loop (length nodes) (reverse_loop (λ q. []) deps) (start deps nodes))

-- The nodes and the map of dependencies of a project, whose services the loader gives with the names
-- they depend on. A service without dependencies has no entry in the map.
abbrev pub node_names : Deps → List Text
node_names [] = []
node_names ((name, ds) ∷ services) = name ∷ node_names services

abbrev pub add_service : Text → List Text → Deps → Deps
add_service name [] deps = deps
add_service name (d ∷ ds) deps = (name, d ∷ ds) ∷ deps

abbrev pub adjacency : Deps → Deps
adjacency [] = []
adjacency ((name, ds) ∷ services) = add_service name ds (adjacency services)

abbrev pub order_of : {E : Type 0} → Result E Deps → Result (OrderError E) (List Text)
order_of (err e) = err (loading e)
order_of (ok services) = topo_sort (adjacency services) (node_names services)

-- `LoadDependencyOrder`; reading the file and the loader of compose-go are the argument.
unfoldable pub load_dependency_order :
    {E : Type 0} → (Text → Result E Deps) → Text → Result (OrderError E) (List Text)
unfolding topo_sort
load_dependency_order load path = order_of (load path)
