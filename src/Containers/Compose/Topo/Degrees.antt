-- ===== src/Containers/Compose/Topo/Degrees.antt =====
-- What the maps of `topoSort` of internal/infrastructure/container/compose.go hold.
use secret_rotator.Prelude.{
  ◌+◌, ◌≤◌, ◌<◌, ◌≡◌, refl, ap, ◌∙◌, List, [], ◌∷◌, ◌++◌, arith, inl, inr, Bool-cases, ltb, length,
  if◌then◌else◌,
}
use secret_rotator.Prelude.Int.{ℤ, pos}
use secret_rotator.Prelude.Text.{Text, eq_text, eq_text_iff, eq_text_refl}
use secret_rotator.Containers.Compose.Sorted.{count}
use secret_rotator.Containers.Compose.Topo.{
  Deps, deps_of, put_at, is_zero, degree_loop, add_edges, reverse_loop, ready_nodes, node_names,
}

pub count-append : (q : Text) (xs ys : List Text) → count q (xs ++ ys) ≡ count q xs + count q ys
count-append q [] ys = omega arith
count-append q (x ∷ xs) ys = let e = count-append q xs ys in omega arith

degree_loop-out :
    (deps : Deps) (degree : Text → ℤ) (q : Text) (nodes : List Text)
    → count q nodes ≡ 0
    → degree_loop deps degree nodes q ≡ degree q
unfolding degree_loop
degree_loop-out deps degree q [] h = refl
degree_loop-out deps degree q (n ∷ ns) h =
    ground (arith, degree_loop-out deps (put_at degree n (pos (length (deps_of deps n)))) q ns)

pub degree_loop-none :
    (deps : Deps) (q : Text) (nodes : List Text)
    → count q nodes ≡ 0
    → degree_loop deps (λ _. pos 0) nodes q ≡ pos 0
degree_loop-none deps q nodes h = degree_loop-out deps (λ _. pos 0) q nodes h

-- Every node starts with the number of its dependencies.
pub degree_loop-in :
    (deps : Deps) (degree : Text → ℤ) (q : Text) (nodes : List Text)
    → 0 < count q nodes
    → degree_loop deps degree nodes q ≡ pos (length (deps_of deps q))
unfolding degree_loop
degree_loop-in deps degree q [] h = absurd (omega arith)
degree_loop-in deps degree q (n ∷ ns) h =
    let next = put_at degree n (pos (length (deps_of deps n))) in
    elim (Bool-cases (ltb 0 (count q ns))) [
      | inl later ↦ degree_loop-in deps next q ns (ground arith)
      | inr last ↦ elim (Bool-cases (eq_text q n)) [
        | inl same ↦
            degree_loop-out deps next q ns (ground arith)
            ∙ (rw ((eq_text_iff q n).0 same, eq_text_refl n) refl)
        | inr other ↦ absurd (ground arith)
      ]
    ]

count-add_edges :
    (rev : Text → List Text) (n d node : Text) (ds : List Text)
    → count n (add_edges rev node ds d)
      ≡ count n (rev d) + (if eq_text n node then count d ds else 0)
unfolding add_edges
count-add_edges rev n d node [] = ground arith
count-add_edges rev n d node (e ∷ ds) = ground (
  arith,
  count-add_edges (put_at rev e (rev e ++ node ∷ [])) n d node ds,
  count-append n (rev e) (node ∷ []),
  eq_text_iff d e,
)

pub deps_of-absent : (deps : Deps) (n : Text) → count n (node_names deps) ≡ 0 → deps_of deps n ≡ []
deps_of-absent [] n h = refl
deps_of-absent ((name, ds) ∷ deps) n h = ground (arith, deps_of-absent deps n)

-- A node stands in the list of a dependency as often as the dependency is listed for it.
pub count-reverse_loop :
    (rev : Text → List Text) (n d : Text) (deps : Deps)
    → count n (node_names deps) ≤ 1
    → count n (reverse_loop rev deps d) ≡ count n (rev d) + count d (deps_of deps n)
unfolding reverse_loop
count-reverse_loop rev n d [] h = omega arith
count-reverse_loop rev n d ((node, ds) ∷ deps) h =
    let later = count-reverse_loop (add_edges rev node ds) n d deps (ground arith) in
    let edges = count-add_edges rev n d node ds in
    elim (Bool-cases (eq_text n node)) [
      | inl same ↦
          let none_left = ap (count d) (deps_of-absent deps n (ground arith)) in
          rw same (omega (arith, (rw same at edges)))
      | inr other ↦ rw other (omega (arith, (rw other at edges)))
    ]

pub count-ready_nodes :
    (degree : Text → ℤ) (q : Text) (nodes : List Text)
    → count q (ready_nodes degree nodes) ≡ (if is_zero (degree q) then count q nodes else 0)
unfolding ready_nodes
count-ready_nodes degree q [] = ground arith
count-ready_nodes degree q (n ∷ ns) = ground (arith, count-ready_nodes degree q ns, eq_text_iff q n)
