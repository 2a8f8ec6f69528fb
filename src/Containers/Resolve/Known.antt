-- ===== src/Containers/Resolve/Known.antt =====
-- The names that internal/infrastructure/container/resolve.go returns.
use secret_rotator.Prelude.{
  ltb, ◌≡◌, refl, sym, ◌∙◌, Bool, true, List, [], ◌∷◌, map, any, All, All-append, length, arith,
  inl, inr, Bool-cases,
}
use secret_rotator.Prelude.Result.{Result, ok, err}
use secret_rotator.Prelude.Text.{Text, eq_text, eq_text_refl}
use secret_rotator.Application.Ports.{Call}
use secret_rotator.Containers.Resolve.{
  Container, resolve_listed, resolve_container_names, name_of, is_named, matching,
  distinct_projects, replica_lt, ResolveError, resolve_matches, resolve_one, in_front, resolve_loop,
}

-- A name of a container of the list.
abbrev pub is_known : List Container → Text → Bool
is_known all n = any (λ (c : Container). eq_text n c.name) all

abbrev pub IsKnown : List Container → Text → Type 0
IsKnown all n = is_known all n ≡ true

is_named-IsKnown :
    (want : Text) (all : List Container) → is_named want all ≡ true → IsKnown all want
unfolding is_named
is_named-IsKnown want [] h = h
is_named-IsKnown want (c ∷ cs) h = ground (arith, is_named-IsKnown want cs)

matching-known :
    (want n : Text) (all : List Container)
    → is_known (matching want all) n ≡ true
    → is_known all n ≡ true
unfolding matching
matching-known want n [] h = h
matching-known want n (c ∷ cs) h = ground (arith, matching-known want n cs)

All-names :
    (f : Text → Bool) (cs : List Container)
    → ((n : Text) → is_known cs n ≡ true → f n ≡ true)
    → All (λ n. f n ≡ true) (map name_of cs)
All-names f [] h = tt
All-names f (c ∷ cs) h = (
  h c.name (rw (eq_text_refl c.name) refl),
  All-names f cs
      (λ n k. h n (elim (Bool-cases (eq_text n c.name)) [ inl e ↦ rw e refl | inr e ↦ rw e k ])),
)

module _ (sort_slice : (Container → Container → Bool) → List Container → List Container)
    (sort_keeps : (lt : Container → Container → Bool) (cs : List Container) (n : Text)
      → is_known (sort_slice lt cs) n ≡ is_known cs n) where
  -- A resolution that succeeds names containers of the list.
  abbrev pub Resolves : List Container → Result ResolveError (List Text) → Type 0
  Resolves all (err e) = Unit
  Resolves all (ok names) = All (IsKnown all) names

  resolve_matches-Resolves :
      (want : Text) (all ms : List Container)
      → ((n : Text) → is_known ms n ≡ true → is_known all n ≡ true)
      → Resolves all (resolve_matches sort_slice want all ms)
  unfolding resolve_matches
  resolve_matches-Resolves want all [] h = tt
  resolve_matches-Resolves want all (c ∷ []) h = (h c.name (rw (eq_text_refl c.name) refl), tt)
  resolve_matches-Resolves want all (c ∷ d ∷ cs) h =
      elim (Bool-cases (ltb 1 (length (distinct_projects (c ∷ d ∷ cs))))) [
        | inl several ↦ rw several tt
        | inr single ↦ rw single (
            All-names (is_known all) (sort_slice replica_lt (c ∷ d ∷ cs))
              (λ n k. h n (sym (sort_keeps replica_lt (c ∷ d ∷ cs) n) ∙ k)))
      ]

  resolve_one-Resolves :
      (want : Text) (all : List Container) → Resolves all (resolve_one sort_slice want all)
  unfolding resolve_one
  resolve_one-Resolves want all = elim (Bool-cases (is_named want all)) [
    | inl exact ↦ rw exact (is_named-IsKnown want all exact, tt)
    | inr other ↦
        rw other
          (resolve_matches-Resolves want all (matching want all) (λ n. matching-known want n all))
  ]

  in_front-Resolves :
      (all : List Container) (x y : Result ResolveError (List Text))
      → Resolves all x
      → Resolves all y
      → Resolves all (in_front sort_slice x y)
  in_front-Resolves all (err e) y h k = tt
  in_front-Resolves all (ok names) (err e) h k = tt
  in_front-Resolves all (ok names) (ok rest) h k = All-append (IsKnown all) names rest h k

  resolve_loop-Resolves :
      (wants : List Text) (all : List Container) → Resolves all (resolve_loop sort_slice wants all)
  unfolding resolve_loop
  resolve_loop-Resolves [] all = tt
  resolve_loop-Resolves (want ∷ wants) all =
      in_front-Resolves all (resolve_one sort_slice want all) (resolve_loop sort_slice wants all)
        (resolve_one-Resolves want all) (resolve_loop-Resolves wants all)

  -- With a usable inventory, the names are those of its containers; without one, the entries are
  -- returned as they are.
  abbrev pub Usable :
      {W E : Type 0}
      → List Text
      → Result E (List Container) × W
      → Result ResolveError (List Text) × W
      → Type 0
  Usable requested (err e, w) (r, w') = r ≡ ok requested
  Usable requested (ok [], w) (r, w') = r ≡ ok requested
  Usable requested (ok (c ∷ all), w) (r, w') = Resolves (c ∷ all) r

  resolve_listed-Usable :
      {W E : Type 0} (requested : List Text) (x : Result E (List Container) × W)
      → Usable requested x (resolve_listed sort_slice requested x)
  unfolding resolve_listed
  resolve_listed-Usable requested (err e, w) = refl
  resolve_listed-Usable requested (ok [], w) = refl
  resolve_listed-Usable requested (ok (c ∷ all), w) = resolve_loop-Resolves requested (c ∷ all)

  -- For entries of which there is at least one, and a sort.Slice that keeps the elements: if the
  -- containers cannot be listed or there are none, the entries are returned unchanged; otherwise
  -- every name that a resolution returns is the name of a listed container.
  pub resolve_container_names-Usable :
      {W E : Type 0} (list_containers : Call W E (List Container)) (r : Text)
      (requested : List Text) (w : W)
      → Usable
          (r ∷ requested)
          (list_containers w)
          (resolve_container_names sort_slice list_containers (r ∷ requested) w)
  unfolding resolve_container_names
  resolve_container_names-Usable list_containers r requested w =
      resolve_listed-Usable (r ∷ requested) (list_containers w)
