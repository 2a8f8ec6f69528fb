-- ===== src/Containers/Compose/Topo/Before.antt =====
-- What stands in front of what in an order of `topoSort` of internal/infrastructure/container/compose.go.
use secret_rotator.Prelude.{
  ℕ, zero, suc, ◌+◌, ◌≤◌, ◌<◌, ◌≡◌, refl, subst, append-nil, append_assoc, List, [], ◌∷◌, ◌++◌,
  arith, ◌⊎◌, inl, inr, ltb, length, if◌then◌else◌,
}
use secret_rotator.Prelude.Int.{ℤ, pos, negsuc, pos_part, neg_part}
use secret_rotator.Prelude.Text.{Text, eq_text_iff}
use secret_rotator.Containers.Compose.Sorted.{count}
use secret_rotator.Containers.Compose.Topo.{Deps, deps_of}
use secret_rotator.Containers.Compose.Topo.Degrees.{count-append}
use secret_rotator.Containers.Compose.Topo.Rounds.{crossed}

pub List-cases : (xs : List Text) → (xs ≡ []) ⊎ ((x : Text) × (rest : List Text) × (xs ≡ x ∷ rest))
List-cases [] = inl refl
List-cases (x ∷ xs) = inr (x, xs, refl)

-- How many of the names in `ds` stand in `order`, counted with repetitions in `order`.
abbrev pub met : List Text → List Text → ℕ
met order [] = 0
met order (d ∷ ds) = count d order + met order ds

-- Every name of `ds` stands in `order`.
abbrev pub AllIn : List Text → List Text → Type 0
AllIn order [] = Unit
AllIn order (d ∷ ds) = (0 < count d order) × AllIn order ds

-- Every name stands behind all that it depends on; `before` is what stands in front.
abbrev pub DependenciesFirst : Deps → List Text → List Text → Type 0
DependenciesFirst deps before [] = Unit
DependenciesFirst deps before (n ∷ ns) =
    AllIn before (deps_of deps n) × DependenciesFirst deps (before ++ n ∷ []) ns

pub met-append :
    (order : List Text) (n : Text) (ds : List Text)
    → met (order ++ n ∷ []) ds ≡ met order ds + count n ds
met-append order n [] = omega arith
met-append order n (d ∷ ds) =
    ground (
      arith,
      met-append order n ds,
      count-append d order (n ∷ []),
      eq_text_iff d n,
      eq_text_iff n d,
    )

pub met-le : (order ds : List Text) → ((q : Text) → count q order ≤ 1) → met order ds ≤ length ds
met-le order [] h = omega arith
met-le order (d ∷ ds) h = let a = h d in let b = met-le order ds h in omega arith

pub met-AllIn :
    (order ds : List Text)
    → ((q : Text) → count q order ≤ 1)
    → met order ds ≡ length ds
    → AllIn order ds
met-AllIn order [] h e = tt
met-AllIn order (d ∷ ds) h e =
    let a = h d in let b = met-le order ds h in (omega arith, met-AllIn order ds h (omega arith))

pub DependenciesFirst-append :
    (deps : Deps) (before order : List Text) (n : Text)
    → DependenciesFirst deps before order
    → AllIn (before ++ order) (deps_of deps n)
    → DependenciesFirst deps before (order ++ n ∷ [])
DependenciesFirst-append deps before [] n h k =
    (subst (λ (o : List Text). AllIn o (deps_of deps n)) (append-nil before) k, tt)
DependenciesFirst-append deps before (x ∷ xs) n (first, rest) k = (
  first,
  DependenciesFirst-append deps (before ++ x ∷ []) xs n rest
      (rw (append_assoc before (x ∷ []) xs) k),
)

-- An integer has one part at most.
pub parts : (z : ℤ) → (pos_part z ≡ 0) ⊎ (neg_part z ≡ 0)
parts (pos n) = inr refl
parts (negsuc n) = inl refl

pub crossed_waits :
    (d d' : ℤ) (m : ℕ)
    → pos_part d' + neg_part d + m ≡ neg_part d' + pos_part d
    → neg_part d' ≡ 0
    → crossed d m + (if ltb 0 (pos_part d') then 1 else 0) ≡ (if ltb 0 (pos_part d) then 1 else 0)
crossed_waits (pos zero) d' m h k = ground arith
crossed_waits (pos (suc n)) d' m h k = ground arith
crossed_waits (negsuc n) d' m h k = absurd (omega arith)

pub crossed_foreign : (d : ℤ) (m : ℕ) → pos_part d ≡ 0 → crossed d m ≡ 0
crossed_foreign (pos zero) m h = refl
crossed_foreign (pos (suc n)) m h = absurd (omega arith)
crossed_foreign (negsuc n) m h = refl
