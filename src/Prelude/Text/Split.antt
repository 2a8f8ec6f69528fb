-- ===== src/Prelude/Text/Split.antt =====
-- `strings.Split` and joining.
use secret_rotator.Prelude.{
  ℕ, ◌==◌, ==_iff, ◌≡◌, refl, sym, ◌∙◌, ap, false, List, [], ◌∷◌, ◌++◌, All, Bool-cases, inl, inr,
}
use secret_rotator.Prelude.Text.{Text, split, join, onto_first}

-- A text without the separator.
abbrev pub Without : ℕ → Text → Type 0
Without sep s = All (λ c. (c == sep) ≡ false) s

split-last : (sep : ℕ) (s : Text) → Without sep s → split sep s ≡ s ∷ []
unfolding split
split-last sep [] h = refl
split-last sep (c ∷ s) (n, h) = rw (n, split-last sep s h)

split-piece :
    (sep : ℕ) (s rest : Text) → Without sep s → split sep (s ++ (sep ∷ rest)) ≡ s ∷ split sep rest
unfolding split
split-piece sep [] rest h = rw ((==_iff sep sep).1 refl)
split-piece sep (c ∷ s) rest (n, h) = rw (n, split-piece sep s rest h)

-- Joined pieces that hold no separator are split into the same pieces.
pub split-join :
    (sep : ℕ) (p : Text) (ps : List Text)
    → All (Without sep) (p ∷ ps)
    → split sep (join sep (p ∷ ps)) ≡ p ∷ ps
unfolding join
split-join sep p [] (h, _) = split-last sep p h
split-join sep p (q ∷ ps) (h, hs) =
    split-piece sep p (join sep (q ∷ ps)) h ∙ ap (λ r. p ∷ r) (split-join sep q ps hs)

-- A split text has a first piece.
pub split-cons : (sep : ℕ) (s : Text) → (p : Text) × (ps : List Text) × (split sep s ≡ p ∷ ps)
unfolding split
split-cons sep [] = ([], [], refl)
split-cons sep (c ∷ s) =
    let (p, ps, e) = split-cons sep s in
    elim (Bool-cases (c == sep)) [
      | inl same ↦ ([], p ∷ ps, rw (same, e))
      | inr other ↦ (c ∷ p, ps, rw (other, e))
    ]

join-onto_first :
    (sep c : ℕ) (p : Text) (ps : List Text)
    → join sep (onto_first c (p ∷ ps)) ≡ c ∷ join sep (p ∷ ps)
unfolding join
join-onto_first sep c p [] = refl
join-onto_first sep c p (q ∷ ps) = refl

join_nil : (sep : ℕ) (p : Text) (ps : List Text) → join sep ([] ∷ p ∷ ps) ≡ sep ∷ join sep (p ∷ ps)
unfolding join
join_nil sep p ps = refl

-- Joining the pieces of a text gives the text.
pub join-split : (sep : ℕ) (s : Text) → join sep (split sep s) ≡ s
unfolding split
join-split sep [] = unfold join in refl
join-split sep (c ∷ s) =
    let (p, ps, e) = split-cons sep s in
    let ih : join sep (p ∷ ps) ≡ s = ap (join sep) (sym e) ∙ join-split sep s in
    elim (Bool-cases (c == sep)) [
      | inl same ↦ rw (same, e) (join_nil sep p ps ∙ (rw (ih, (==_iff c sep).0 same)))
      | inr other ↦ rw (other, e) (join-onto_first sep c p ps ∙ ap (λ t. c ∷ t) ih)
    ]

Without-onto_first :
    (sep c : ℕ) (ps : List Text)
    → (c == sep) ≡ false
    → All (Without sep) ps
    → All (Without sep) (onto_first c ps)
Without-onto_first sep c [] n h = ((n, tt), tt)
Without-onto_first sep c (p ∷ ps) n (w, h) = ((n, w), h)

-- The pieces hold no separator.
pub split-Without : (sep : ℕ) (s : Text) → All (Without sep) (split sep s)
unfolding split
split-Without sep [] = (tt, tt)
split-Without sep (c ∷ s) = elim (Bool-cases (c == sep)) [
  | inl same ↦ rw same (tt, split-Without sep s)
  | inr other ↦ rw other (Without-onto_first sep c (split sep s) other (split-Without sep s))
]
