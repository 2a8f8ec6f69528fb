-- ===== src/Cli/Order/Ordered.antt =====
-- What `applyDependencyOrder` of internal/interfaces/cli/rotate.go makes of the containers of a secret.
use secret_rotator.Prelude.{
  ℕ, ◌≤◌, ◌<◌, ◌≡◌, refl, ap, true, false, List, [], ◌∷◌, ◌++◌, any, ltb, length, some, inl, inr,
  Bool-cases, arith, append_assoc, append-nil, if◌then◌else◌, subst,
}
use secret_rotator.Prelude.Result.{Result, ok}
use secret_rotator.Prelude.Text.{Text, eq_text, eq_text_iff, eq_text_refl}
use secret_rotator.Domain.Secret.{Secret, with_containers}
use secret_rotator.Containers.Compose.{filter_dependency_order}
use secret_rotator.Containers.Compose.Sorted.{count}
use secret_rotator.Containers.Compose.Topo.{Deps, deps_of, node_names}
use secret_rotator.Containers.Compose.Topo.Degrees.{count-append, deps_of-absent}
use secret_rotator.Containers.Compose.Topo.Before.{AllIn, DependenciesFirst}
use secret_rotator.Containers.Compose.Topo.Order.{Decided}
use secret_rotator.Containers.Compose.Topo.Load.{
  load_dependency_order-Decided, load_dependency_order-ok,
}
use secret_rotator.Config.{Config, Paths, resolve_compose_file}
use secret_rotator.Cli.Order.{append_unknown, ordered_names, apply_dependency_order}

any-count : (q : Text) (xs : List Text) → any (eq_text q) xs ≡ ltb 0 (count q xs)
any-count q [] = refl
any-count q (x ∷ xs) = ground (arith, any-count q xs)

count_same : (q n : Text) (xs : List Text) → eq_text q n ≡ true → count q xs ≡ count n xs
count_same q n xs h = ap (λ t. count t xs) ((eq_text_iff q n).0 h)

count-filter :
    (q : Text) (order targets : List Text)
    → count q (filter_dependency_order order targets)
      ≡ (if ltb 0 (count q targets) then count q order else 0)
unfolding filter_dependency_order
count-filter q [] targets = ground arith
count-filter q (n ∷ order) targets =
    let rest = count-filter q order targets in
    elim (Bool-cases (eq_text q n)) [
      | inl same ↦ ground (arith, any-count n targets, count_same q n targets same)
      | inr other ↦ ground (arith, any-count n targets)
    ]

count-append_unknown :
    (q : Text) (known names : List Text)
    → count q (append_unknown known names) ≡ (if ltb 0 (count q known) then 0 else count q names)
unfolding append_unknown
count-append_unknown q known [] = ground arith
count-append_unknown q known (n ∷ names) =
    let rest = count-append_unknown q known names in
    elim (Bool-cases (eq_text q n)) [
      | inl same ↦ ground (arith, any-count n known, count_same q n known same)
      | inr other ↦ ground (arith, any-count n known)
    ]

-- Every name is kept, if neither the order nor the names have one twice.
count-ordered_names :
    (q : Text) (order names : List Text)
    → count q order ≤ 1
    → count q names ≤ 1
    → count q (ordered_names order names) ≡ count q names
unfolding ordered_names
count-ordered_names q order names h k =
    let known = filter_dependency_order order names in
    ground (
      arith,
      count-append q known (append_unknown known names),
      count-filter q order names,
      count-append_unknown q known names,
    )

-- Every name stands behind those of `targets` that it depends on; `before` is what stands in front.
abbrev pub FirstAmong : Deps → List Text → List Text → List Text → Type 0
FirstAmong deps targets before [] = Unit
FirstAmong deps targets before (n ∷ ns) =
    ((d : Text) → 0 < count d (deps_of deps n) → 0 < count d targets → 0 < count d before)
    × FirstAmong deps targets (before ++ n ∷ []) ns

AllIn-count :
    (before ds : List Text) (d : Text) → AllIn before ds → 0 < count d ds → 0 < count d before
AllIn-count before [] d h p = absurd (omega arith)
AllIn-count before (x ∷ ds) d (first, rest) p = elim (Bool-cases (eq_text d x)) [
  | inl same ↦ let e = count_same d x before same in omega arith
  | inr other ↦ AllIn-count before ds d rest (ground (arith, other))
]

module _ (deps : Deps) (targets : List Text) where
  filter-FirstAmong :
      (before kept order : List Text)
      → DependenciesFirst deps before order
      → ((d : Text) → 0 < count d targets → 0 < count d before → 0 < count d kept)
      → FirstAmong deps targets kept (filter_dependency_order order targets)
  unfolding filter_dependency_order
  filter-FirstAmong before kept [] h k = tt
  filter-FirstAmong before kept (n ∷ order) (first, rest) k =
      elim (Bool-cases (any (eq_text n) targets)) [
        | inl target ↦ rw target (
          λ d p t. k d t (AllIn-count before (deps_of deps n) d first p),
          filter-FirstAmong (before ++ n ∷ []) (kept ++ n ∷ []) order rest (λ d t p.
              let a = count-append d before (n ∷ []) in
              let b = count-append d kept (n ∷ []) in
              elim (Bool-cases (ltb 0 (count d before))) [
                | inl in_front ↦ let c = k d t (ground arith) in omega arith
                | inr behind ↦ ground arith
              ]),
        )
        | inr other ↦ rw other (
            filter-FirstAmong (before ++ n ∷ []) kept order rest (λ d t p.
              let a = count-append d before (n ∷ []) in
              elim (Bool-cases (eq_text d n)) [
                | inl same ↦
                    let b = any-count n targets in
                    let c = count_same d n targets same in absurd (ground arith)
                | inr distinct ↦ k d t (ground arith)
              ]))
      ]

  unknown-FirstAmong :
      (before known names : List Text)
      → ((n : Text) → 0 < count n names → count n known ≡ 0 → deps_of deps n ≡ [])
      → FirstAmong deps targets before (append_unknown known names)
  unfolding append_unknown
  unknown-FirstAmong before known [] h = tt
  unknown-FirstAmong before known (n ∷ names) h =
      let later = λ (m : Text) (p : 0 < count m names). h m (omega arith) in
      elim (Bool-cases (any (eq_text n) known)) [
        | inl old ↦ rw old (unknown-FirstAmong before known names later)
        | inr new ↦
            let a = any-count n known in
            let none_left = h n (ground (arith, eq_text_refl n)) (ground arith) in
            rw new (
              λ d p t. absurd (let e = ap (count d) none_left in omega arith),
              unknown-FirstAmong (before ++ n ∷ []) known names later,
            )
      ]

  append-FirstAmong :
      (before xs ys : List Text)
      → FirstAmong deps targets before xs
      → FirstAmong deps targets (before ++ xs) ys
      → FirstAmong deps targets before (xs ++ ys)
  append-FirstAmong before [] ys h k = rw (← append-nil before) k
  append-FirstAmong before (x ∷ xs) ys (first, rest) k = (
    first,
    append-FirstAmong (before ++ x ∷ []) xs ys rest (rw (append_assoc before (x ∷ []) xs) k),
  )

module _ {E : Type 0} (paths : Paths) (load : Text → Result E Deps) (config : Config) (path : Text)
    (services : Deps) (resolved : resolve_compose_file paths config ≡ some path)
    (present : eq_text path [] ≡ false) (loaded : load path ≡ ok services)
    (distinct : (q : Text) → count q (node_names services) ≤ 1) (rank : Text → ℕ)
    (ranked : (n d : Text)
      → 0 < count d (deps_of services n)
      → (0 < count d (node_names services)) × (rank d < rank n)) where
  -- The same secret, with the same containers, in the order of the project.
  abbrev pub Reordered : Secret → Secret → Type 0
  Reordered secret s =
      (s ≡ with_containers secret s.containers)
      × ((q : Text) → count q s.containers ≡ count q secret.containers)
      × FirstAmong services secret.containers [] s.containers

  short-FirstAmong :
      (names : List Text) → ltb (length names) 2 ≡ true → FirstAmong services names [] names
  short-FirstAmong [] h = tt
  short-FirstAmong (n ∷ []) h = (
    λ d p t. elim (Bool-cases (eq_text d n)) [
      | inl same ↦
          let below = (ranked n d p).1 in
          let e = ap rank ((eq_text_iff d n).0 same) in absurd (omega arith)
      | inr other ↦ absurd (ground arith)
    ],
    tt,
  )
  short-FirstAmong (n ∷ (m ∷ ns)) h = absurd (ground arith)

  ordered-FirstAmong :
      (order names : List Text)
      → ((q : Text) → count q order ≡ count q (node_names services))
      → DependenciesFirst services [] order
      → FirstAmong services names [] (ordered_names order names)
  unfolding ordered_names
  ordered-FirstAmong order names all first =
      let known = filter_dependency_order order names in
      append-FirstAmong services names [] known (append_unknown known names)
        (filter-FirstAmong services names [] [] order first (λ d t p. p))
        (unknown-FirstAmong services names known known names (λ n p none_known.
          deps_of-absent services n
            (let a = count-filter n order names in let b = all n in ground arith)))

  -- If there is a compose file, it loads as services with different names that depend on services
  -- of the file only, each service has a higher rank than those that it depends on, and no
  -- container of the secret is listed twice: applyDependencyOrder returns the secret with the same
  -- containers, each behind those of them that it depends on in the file, and changes nothing else
  -- of it.
  pub apply_dependency_order-Reordered :
      (secret : Secret)
      → ((q : Text) → count q secret.containers ≤ 1)
      → (s : Secret) × (apply_dependency_order paths load config secret ≡ some s)
        × Reordered secret s
  unfolding apply_dependency_order with_containers
  apply_dependency_order-Reordered secret once =
      elim (Bool-cases (ltb (length secret.containers) 2)) [
        | inl short ↦
            (secret, rw short refl, (refl, λ q. refl, short-FirstAmong secret.containers short))
        | inr long ↦
            let (order, e) =
              load_dependency_order-ok load path services loaded distinct rank ranked in
            let (all, first) =
              subst (λ r. Decided services (node_names services) r) e
                (load_dependency_order-Decided load path services loaded distinct) in
            (
              with_containers secret (ordered_names order secret.containers),
              rw (long, resolved, present, e) refl,
              (
                refl,
                λ q.
                    count-ordered_names q order secret.containers
                      (let a = all q in let b = distinct q in omega arith) (once q),
                ordered-FirstAmong order secret.containers all first,
              ),
            )
      ]
