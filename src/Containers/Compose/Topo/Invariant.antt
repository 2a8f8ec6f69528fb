-- ===== src/Containers/Compose/Topo/Invariant.antt =====
-- The invariant of the loop of `topoSort` of internal/infrastructure/container/compose.go.
use secret_rotator.Prelude.{
  length-append, ℕ, zero, suc, ◌+◌, ◌≤◌, ◌<◌, ◌≡◌, refl, ap, List, [], ◌∷◌, ◌++◌, some, arith, inl,
  inr, Bool-cases, ltb, length, if◌then◌else◌,
}
use secret_rotator.Prelude.Int.{pos_part, neg_part}
use secret_rotator.Prelude.Text.{Text, eq_text_refl}
use secret_rotator.Containers.Compose.Sorted.{count}
use secret_rotator.Containers.Compose.Topo.{Deps, deps_of, Kahn, pop_node, kahn_loop}
use secret_rotator.Containers.Compose.Topo.Degrees.{count-append}
use secret_rotator.Containers.Compose.Topo.Rounds.{
  crossed, waiting, WaitsOnce, lower_all-degree, lower_all-result, lower_all-queue, lower_all-work,
}
use secret_rotator.Containers.Compose.Topo.Before.{
  List-cases, met, AllIn, DependenciesFirst, met-append, met-le, met-AllIn,
  DependenciesFirst-append, crossed_waits, crossed_foreign, parts,
}

module _ (deps : Deps) (nodes : List Text) (rev : Text → List Text)
    (once : (q : Text) → count q nodes ≤ 1)
    (edges : (n d : Text) → count n (rev d) ≡ count d (deps_of deps n)) where
  pub record Inv (s : Kahn) : Type 0 where
    -- Every node is in the order, in the queue or waiting.
    pub placed :
        (q : Text)
        → count q s.result
            + count q s.queue
            + (if ltb 0 (pos_part (s.degree q)) then count q nodes else 0)
          ≡ count q nodes
    -- The degree of a node is the number of its dependencies that are not in the order.
    pub left :
        (q : Text)
        → 0 < count q nodes
        → (pos_part (s.degree q) + met s.result (deps_of deps q) ≡ length (deps_of deps q))
          × (neg_part (s.degree q) ≡ 0)
    pub foreign : (q : Text) → count q nodes ≡ 0 → pos_part (s.degree q) ≡ 0
    pub work : length s.result + (length s.queue + waiting s.degree nodes) ≡ length nodes
    pub ordered : DependenciesFirst deps [] s.result

  result-le : {s : Kahn} → Inv s → (q : Text) → count q s.result ≤ 1
  result-le h q = let a = h.placed q in let b = once q in omega arith

  Inv-WaitsOnce : {s : Kahn} → Inv s → WaitsOnce nodes s
  Inv-WaitsOnce h q p = let a = h.foreign q in let b = once q in ground arith

  -- What is in the queue has all its dependencies in the order.
  queued-AllIn :
      {s : Kahn} → Inv s → (q : Text) → 0 < count q s.queue → AllIn s.result (deps_of deps q)
  queued-AllIn {s} h q p =
      met-AllIn s.result (deps_of deps q) (result-le h)
        (ground (arith, h.placed q, once q, h.left q))

  module _ (s : Kahn) (n : Text) (rest : List Text) (popped : s.queue ≡ n ∷ rest) (h : Inv s) where
    abbrev s' : Kahn
    s' = record s { queue = rest; result = s.result ++ n ∷ [] }

    next_result-le : (q : Text) → count q (s.result ++ n ∷ []) ≤ 1
    next_result-le q =
        let a = h.placed q in
        let b = once q in
        let c = count-append q s.result (n ∷ []) in let d = ap (count q) popped in omega arith

    moved :
        (q : Text)
        → pos_part ((pop_node rev s n rest).degree q)
            + neg_part (s.degree q)
            + count n (deps_of deps q)
          ≡ neg_part ((pop_node rev s n rest).degree q) + pos_part (s.degree q)
    unfolding pop_node
    moved q = let a = lower_all-degree s' q (rev n) in let b = edges q n in omega arith

    next_result : (pop_node rev s n rest).result ≡ s.result ++ n ∷ []
    unfolding pop_node
    next_result = lower_all-result s' (rev n)

    next_queue :
        (q : Text)
        → count q (pop_node rev s n rest).queue
          ≡ count q rest + crossed (s.degree q) (count n (deps_of deps q))
    unfolding pop_node
    next_queue q = let a = lower_all-queue s' q (rev n) in rw (← edges q n) a

    next_left :
        (q : Text)
        → 0 < count q nodes
        → (pos_part ((pop_node rev s n rest).degree q) + met (s.result ++ n ∷ []) (deps_of deps q)
            ≡ length (deps_of deps q))
          × (neg_part ((pop_node rev s n rest).degree q) ≡ 0)
    next_left q p =
        let a = moved q in
        let (b, c) = h.left q p in
        let d = met-append s.result n (deps_of deps q) in
        let e = met-le (s.result ++ n ∷ []) (deps_of deps q) next_result-le in
        let one = parts ((pop_node rev s n rest).degree q) in ground arith

    next_foreign : (q : Text) → count q nodes ≡ 0 → pos_part ((pop_node rev s n rest).degree q) ≡ 0
    next_foreign q p =
        ground (arith, moved q, h.foreign q, parts ((pop_node rev s n rest).degree q))

    next_crossed :
        (q : Text)
        → crossed (s.degree q) (count n (deps_of deps q))
            + (if ltb 0 (pos_part ((pop_node rev s n rest).degree q)) then count q nodes else 0)
          ≡ (if ltb 0 (pos_part (s.degree q)) then count q nodes else 0)
    next_crossed q = elim (Bool-cases (ltb 0 (count q nodes))) [
      | inl listed ↦
          let one : count q nodes ≡ 1 = ground (arith, once q) in
          let low = next_left q (ground arith) in
          rw one (crossed_waits (s.degree q) ((pop_node rev s n rest).degree q) _ (moved q) low.1)
      | inr absent ↦
          let none_listed : count q nodes ≡ 0 = ground arith in
          ground (
            arith,
            crossed_foreign (s.degree q) (count n (deps_of deps q)) (h.foreign q none_listed),
          )
    ]

    next_placed :
        (q : Text)
        → count q (s.result ++ n ∷ [])
            + count q (pop_node rev s n rest).queue
            + (if ltb 0 (pos_part ((pop_node rev s n rest).degree q)) then count q nodes else 0)
          ≡ count q nodes
    next_placed q =
        let a = h.placed q in
        let b = next_crossed q in
        let c = next_queue q in
        let d = count-append q s.result (n ∷ []) in let e = ap (count q) popped in omega arith

    next_work :
        length (s.result ++ n ∷ [])
          + (length (pop_node rev s n rest).queue + waiting (pop_node rev s n rest).degree nodes)
        ≡ length nodes
    unfolding pop_node
    next_work =
        let a = lower_all-work nodes s' (rev n) (Inv-WaitsOnce h) in
        let b = h.work in
        let c = length-append s.result (n ∷ []) in let d = ap length popped in omega arith

    -- A round keeps the invariant.
    pop_node-Inv : Inv (pop_node rev s n rest)
    pop_node-Inv = record {
      placed = rw next_result next_placed;
      left = rw next_result next_left;
      foreign = next_foreign;
      work = rw next_result next_work;
      ordered = rw next_result (
          DependenciesFirst-append deps [] s.result n h.ordered
            (queued-AllIn h n (let e = ap (count n) popped in ground (arith, eq_text_refl n))));
    }

  -- With enough fuel the loop empties the queue, and keeps the invariant.
  pub kahn_loop_runs :
      (fuel : ℕ) (s : Kahn)
      → Inv s
      → length s.queue + waiting s.degree nodes ≤ fuel
      → (t : Kahn) × Inv t × (t.queue ≡ []) × (kahn_loop fuel rev s ≡ some t.result)
  unfolding kahn_loop
  kahn_loop_runs zero s h p = elim (List-cases s.queue) [
    | inl empty ↦ (s, h, empty, rw (empty, kahn_loop) refl)
    | inr (n, rest, e) ↦ absurd (let l = ap length e in omega arith)
  ]
  kahn_loop_runs (suc fuel) s h p = elim (List-cases s.queue) [
    | inl empty ↦ (s, h, empty, rw (empty, kahn_loop) refl)
    | inr (n, rest, e) ↦
        let next = pop_node-Inv s n rest e h in
        let l = length-append s.result (n ∷ []) in
        let r = ap length (next_result s n rest e h) in
        let (t, kept, empty, ends) =
          kahn_loop_runs fuel (pop_node rev s n rest) next
            (let a = h.work in let b = next.work in omega arith) in
        (t, kept, empty, rw (e, kahn_loop) ends)
  ]
