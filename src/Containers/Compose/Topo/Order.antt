-- ===== src/Containers/Compose/Topo/Order.antt =====
-- The order that `LoadDependencyOrder` of internal/infrastructure/container/compose.go returns.
use secret_rotator.Prelude.{
  ℕ, zero, suc, ◌+◌, ◌≤◌, ◌<◌, ◌≡◌, refl, ap, List, [], ◌∷◌, some, arith, inl, inr, Bool-cases, ltb,
  ◌==◌, ==_iff, length,
}
use secret_rotator.Prelude.Int.{ℤ, pos, pos_part, neg_part}
use secret_rotator.Prelude.Result.{Result, ok, err}
use secret_rotator.Prelude.Text.{Text, eq_text_iff, eq_text_refl}
use secret_rotator.Containers.Compose.{sift, sort_loop, turned_onto, sort_strings}
use secret_rotator.Containers.Compose.Sorted.{count, sort_strings-IsSorted}
use secret_rotator.Containers.Compose.Topo.{
  Deps, deps_of, degree_loop, reverse_loop, ready_nodes, Kahn, kahn_loop, OrderError, loading,
  cycle, out_of_fuel, start, checked, topo_sort, node_names,
}
use secret_rotator.Containers.Compose.Topo.Degrees.{
  degree_loop-none, degree_loop-in, count-reverse_loop, count-ready_nodes,
}
use secret_rotator.Containers.Compose.Topo.Rounds.{waiting}
use secret_rotator.Containers.Compose.Topo.Before.{met, DependenciesFirst}
use secret_rotator.Containers.Compose.Topo.Invariant.{Inv, kahn_loop_runs}

length-sift : (x : Text) (xs : List Text) → length (sift x xs) ≡ length xs + 1
unfolding sift
length-sift x [] = omega arith
length-sift x (y ∷ xs) = ground (arith, length-sift x xs)

length-sort_loop : (p xs : List Text) → length (sort_loop p xs) ≡ length p + length xs
unfolding sort_loop
length-sort_loop p [] = omega arith
length-sort_loop p (x ∷ xs) = omega (arith, length-sort_loop (sift x p) xs, length-sift x p)

length-turned_onto : (acc xs : List Text) → length (turned_onto acc xs) ≡ length acc + length xs
unfolding turned_onto
length-turned_onto acc [] = omega arith
length-turned_onto acc (x ∷ xs) = omega (arith, length-turned_onto (x ∷ acc) xs)

length-sort_strings : (xs : List Text) → length (sort_strings xs) ≡ length xs
unfolding sort_strings
length-sort_strings xs =
    omega (arith, length-turned_onto [] (sort_loop [] xs), length-sort_loop [] xs)

length-ready_nodes :
    (degree : Text → ℤ) (ns : List Text)
    → ((q : Text) → neg_part (degree q) ≡ 0)
    → length (ready_nodes degree ns) + waiting degree ns ≡ length ns
unfolding ready_nodes
length-ready_nodes degree [] h = refl
length-ready_nodes degree (n ∷ ns) h = ground (arith, length-ready_nodes degree ns h, h n)

met-nil : (ds : List Text) → met [] ds ≡ 0
met-nil [] = refl
met-nil (d ∷ ds) = omega (arith, met-nil ds)

met-ge :
    (order ds : List Text)
    → ((d : Text) → 0 < count d ds → 0 < count d order)
    → length ds ≤ met order ds
met-ge order [] h = omega arith
met-ge order (d ∷ ds) h =
    let first = h d (ground (arith, eq_text_refl d)) in
    let rest = met-ge order ds (λ q p. h q (ground arith)) in omega arith

waiting-none :
    (degree : Text → ℤ) (ns : List Text)
    → ((q : Text) → 0 < count q ns → pos_part (degree q) ≡ 0)
    → waiting degree ns ≡ 0
waiting-none degree [] h = refl
waiting-none degree (n ∷ ns) h =
    let first = h n (ground (arith, eq_text_refl n)) in
    let rest = waiting-none degree ns (λ q p. h q (ground arith)) in ground arith

-- How a sort ends: with an order of the nodes, or with a cycle and how many of them were placed.
abbrev pub Decided : {E : Type 0} → Deps → List Text → Result (OrderError E) (List Text) → Type 0
Decided deps nodes (ok order) =
    ((q : Text) → count q order ≡ count q nodes) × DependenciesFirst deps [] order
Decided deps nodes (err (cycle placed all)) = (placed < all) × (all ≡ length nodes)
Decided deps nodes (err out_of_fuel) = ⊥
Decided deps nodes (err (loading e)) = ⊥

module _ (deps : Deps) (nodes : List Text) (once : (q : Text) → count q nodes ≤ 1)
    (keys : (q : Text) → count q (node_names deps) ≤ 1) where
  abbrev rev : Text → List Text
  rev = reverse_loop (λ _. []) deps

  edges : (n d : Text) → count n (rev d) ≡ count d (deps_of deps n)
  edges n d = omega (arith, count-reverse_loop (λ _. []) n d deps (keys n))

  abbrev first_degree : Text → ℤ
  first_degree = degree_loop deps (λ _. pos 0) nodes

  first_nonneg : (q : Text) → neg_part (first_degree q) ≡ 0
  first_nonneg q = elim (Bool-cases (ltb 0 (count q nodes))) [
    | inl listed ↦ rw (degree_loop-in deps (λ _. pos 0) q nodes (ground arith)) refl
    | inr absent ↦ rw (degree_loop-none deps q nodes (ground arith)) refl
  ]

  start-Inv : Inv deps nodes rev once edges (start deps nodes)
  unfolding start
  start-Inv = record {
    placed = λ q. ground (
      arith,
      (sort_strings-IsSorted q (ready_nodes first_degree nodes)).1,
      count-ready_nodes first_degree q nodes,
      first_nonneg q,
    );
    left = λ q p.
        rw (degree_loop-in deps (λ _. pos 0) q nodes p)
          (let a = met-nil (deps_of deps q) in omega arith, refl);
    foreign = λ q p. rw (degree_loop-none deps q nodes p) refl;
    work =
        let a = length-sort_strings (ready_nodes first_degree nodes) in
        let b = length-ready_nodes first_degree nodes first_nonneg in omega arith;
    ordered = tt;
  }

  -- How the loop ends.
  ends :
      (t : Kahn) × Inv deps nodes rev once edges t
      × (t.queue ≡ [])
      × (kahn_loop (length nodes) rev (start deps nodes) ≡ some t.result)
  ends =
      let w = start-Inv.work in
      kahn_loop_runs deps nodes rev once edges (length nodes) (start deps nodes) start-Inv
        (omega arith)

  -- All nodes are in the order when none waits any more.
  complete :
      {t : Kahn}
      → Inv deps nodes rev once edges t
      → t.queue ≡ []
      → waiting t.degree nodes ≡ 0
      → length t.result ≡ length nodes
  complete h e w = let a = h.work in let b = ap length e in omega arith

  no_wait :
      (degree : Text → ℤ) (ns : List Text) (q : Text)
      → waiting degree ns ≡ 0
      → 0 < count q ns
      → pos_part (degree q) ≡ 0
  no_wait degree [] q w p = absurd (omega arith)
  no_wait degree (n ∷ ns) q w p = ground (arith, no_wait degree ns q, eq_text_iff q n)

  counts :
      {t : Kahn}
      → Inv deps nodes rev once edges t
      → t.queue ≡ []
      → length t.result ≡ length nodes
      → (q : Text) → count q t.result ≡ count q nodes
  counts {t} h e l q =
      let a = h.work in
      let b = ap (count q) e in
      let c = ap length e in
      let d = no_wait t.degree nodes q (omega arith) in ground (arith, h.placed q)

  checked-Decided :
      (E : Type 0) {t : Kahn}
      → Inv deps nodes rev once edges t
      → t.queue ≡ []
      → Decided {E = E} deps nodes (checked nodes (some t.result))
  checked-Decided E {t} inv empty = elim (Bool-cases (length t.result == length nodes)) [
    | inl all ↦
        rw all (counts inv empty ((==_iff (length t.result) (length nodes)).0 all), inv.ordered)
    | inr part ↦ rw part (let a = inv.work in ground arith, refl)
  ]

  -- In every case a round for each node is enough.
  pub topo_sort-Decided : (E : Type 0) → Decided {E = E} deps nodes (topo_sort deps nodes)
  unfolding topo_sort
  topo_sort-Decided E = let (t, inv, empty, e) = ends in rw e (checked-Decided E inv empty)

  module _ (rank : Text → ℕ)
      (ranked : (n d : Text)
        → 0 < count d (deps_of deps n)
        → (0 < count d nodes) × (rank d < rank n)) where
    settled :
        (k : ℕ) {t : Kahn}
        → Inv deps nodes rev once edges t
        → t.queue ≡ []
        → (q : Text) → 0 < count q nodes
        → rank q < k
        → pos_part (t.degree q) ≡ 0
    settled zero h e q p r = absurd (omega arith)
    settled (suc k) {t} h e q p r =
        let (left, _) = h.left q p in
        let all_met = met-ge t.result (deps_of deps q) (λ d m.
          let (listed, below) = ranked q d m in
          let none_left = settled k h e d listed (omega arith) in
          let b = ap (count d) e in ground (arith, h.placed d)) in
        omega arith

    -- topoSort returns an order if every dependency is a node and the nodes can be numbered so
    -- that every dependency has a smaller number: it reports a cycle only where there is one, and
    -- a round for each node is enough.
    pub topo_sort-ok :
        {E : Type 0} → (order : List Text) × (topo_sort {E = E} deps nodes ≡ ok order)
    unfolding topo_sort
    topo_sort-ok =
        let (t, inv, empty, e) = ends in
        let all = complete inv empty (
          waiting-none t.degree nodes
            (λ q p. settled (suc (rank q)) inv empty q p (omega arith))) in
        (t.result, rw e (ground arith))
