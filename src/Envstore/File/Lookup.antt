-- ===== src/Envstore/File/Lookup.antt =====
-- The index of internal/infrastructure/envstore/reader.go, and the lines of a key.
use native.Mathlib.Nat.{zero-add}
use secret_rotator.Prelude.{
  ℕ, zero, suc, ◌+◌, ◌≡◌, ◌≢◌, ◌⊎◌, refl, sym, ◌∙◌, ap, true, false, List, [], ◌∷◌, Option, none,
  some, arith, inl, inr, Bool-cases, is_nil, All, get_elem?, set, if◌then◌else◌,
}
use secret_rotator.Prelude.Text.{Text, eq_text, eq_text_iff, lookup}
use secret_rotator.Envstore.Line.{Line}
use secret_rotator.Envstore.File.{index_from, parse_lines, parse, value_at, value_of_index, get}

abbrev pub NoKey : Text → List Line → Type 0
NoKey k ls = All (λ l. eq_text l.key k ≡ false) ls

-- `l` stands at place `j` and is the last line with key `k`.
pub data LastAt (k : Text) : List Line → ℕ → Line → Type 0 where
  here :
      {l : Line} {ls : List Line} → eq_text l.key k ≡ true → NoKey k ls → LastAt k (l ∷ ls) zero l
  there : {x l : Line} {ls : List Line} {j : ℕ} → LastAt k ls j l → LastAt k (x ∷ ls) (suc j) l

-- What the index built over `ls` from place `i` holds for a key, above what it held before.
abbrev Indexed : Text → ℕ → List (Text × ℕ) → List Line → Type 0
Indexed k i m ls =
    (NoKey k ls × (lookup k (index_from i m ls) ≡ lookup k m))
    ⊎ ((j : ℕ) × (l : Line) × LastAt k ls j l × (lookup k (index_from i m ls) ≡ some (i + j)))

lookup-entry_here :
    (k key : Text) (i : ℕ) (m : List (Text × ℕ))
    → eq_text key k ≡ true
    → k ≢ []
    → lookup k (if is_nil key then m else (key, i) ∷ m) ≡ some i
unfolding lookup
lookup-entry_here k [] i m h ne = absurd (ne (sym ((eq_text_iff [] k).0 h)))
lookup-entry_here k (c ∷ key) i m h ne = rw h

lookup-entry_other :
    (k key : Text) (i : ℕ) (m : List (Text × ℕ))
    → eq_text key k ≡ false
    → lookup k (if is_nil key then m else (key, i) ∷ m) ≡ lookup k m
lookup-entry_other k [] i m h = refl
lookup-entry_other k (c ∷ key) i m h = unfold lookup in rw h

index_from-Indexed :
    (k : Text) (i : ℕ) (m : List (Text × ℕ)) (ls : List Line) → k ≢ [] → Indexed k i m ls
unfolding index_from
index_from-Indexed k i m [] ne = inl (tt, refl)
index_from-Indexed k i m (l ∷ ls) ne =
    elim (index_from-Indexed k (suc i) (if is_nil l.key then m else (l.key, i) ∷ m) ls ne) [
      | inr (j, x, last, e) ↦ inr (suc j, x, there last, e ∙ ap some (omega arith))
      | inl (absent, e) ↦ elim (Bool-cases (eq_text l.key k)) [
        | inl same ↦ inr (
          0,
          l,
          here same absent,
          e ∙ lookup-entry_here k l.key i m same ne ∙ ap some (omega arith),
        )
        | inr other ↦ inl ((other, absent), e ∙ lookup-entry_other k l.key i m other)
      ]
    ]

-- The value of the last line with a key: what the index is for.
unfoldable pub value_of : Text → List Line → Option Text
value_of k [] = none
value_of k (l ∷ ls) = elim (value_of k ls) [
  | some v ↦ some v
  | none ↦ (if eq_text l.key k then some l.value else none)
]

value_of-NoKey : (k : Text) (ls : List Line) → NoKey k ls → value_of k ls ≡ none
unfolding value_of
value_of-NoKey k [] h = refl
value_of-NoKey k (l ∷ ls) (n, h) = rw (value_of-NoKey k ls h, value_of, n)

pub value_of-LastAt :
    {k : Text} {ls : List Line} {j : ℕ} {l : Line} → LastAt k ls j l → value_of k ls ≡ some l.value
unfolding value_of
value_of-LastAt {k} (here {l} {ls} same absent) = rw (value_of-NoKey k ls absent, value_of, same)
value_of-LastAt (there last) = rw (value_of-LastAt last, value_of)

pub get_elem?-LastAt :
    {k : Text} {ls : List Line} {j : ℕ} {l : Line} → LastAt k ls j l → get_elem? ls j ≡ some l
get_elem?-LastAt (here same absent) = refl
get_elem?-LastAt (there last) = get_elem?-LastAt last

pub key-LastAt :
    {k : Text} {ls : List Line} {j : ℕ} {l : Line} → LastAt k ls j l → eq_text l.key k ≡ true
key-LastAt (here same absent) = same
key-LastAt (there last) = key-LastAt last

-- A line of the key in the place of the last one: its value is the key's, and the other keys keep
-- theirs.
pub value_of-set :
    {k : Text} {ls : List Line} {j : ℕ} {l : Line} (l' : Line) (q : Text)
    → LastAt k ls j l
    → eq_text l'.key k ≡ true
    → value_of q (set ls j l') ≡ (if eq_text k q then some l'.value else value_of q ls)
unfolding value_of
value_of-set {k} l' q (here {l} {ls} same absent) h = elim (Bool-cases (eq_text k q)) [
  | inl this ↦
      let e : k ≡ q = (eq_text_iff k q).0 this in
      let gone : value_of q ls ≡ none = rw (← e) (value_of-NoKey k ls absent) in
      rw (this, gone, value_of) (ground (arith, eq_text_iff l'.key k, eq_text_iff l'.key q, e))
  | inr that ↦
      let other : eq_text l'.key q ≡ false =
        ground (arith, that, eq_text_iff l'.key k, eq_text_iff l'.key q, eq_text_iff k q) in
      let other' : eq_text l.key q ≡ false =
        ground (arith, that, eq_text_iff l.key k, eq_text_iff l.key q, eq_text_iff k q) in
      rw that (ground (arith, other, other'))
]
value_of-set {k} l' q (there {x} {l} {ls} last) h = ground (arith, value_of-set l' q last h)

get-Indexed :
    (k : Text) (lines : List Line)
    → Indexed k 0 [] lines
    → value_of_index lines (lookup k (index_from 0 [] lines)) ≡ value_of k lines
get-Indexed k lines (inl (absent, e)) =
    ap (value_of_index lines) (e ∙ nothing) ∙ sym (value_of-NoKey k lines absent)
  where
    nothing : lookup {V = ℕ} k [] ≡ none
    nothing = unfold lookup in refl
get-Indexed k lines (inr (j, l, last, e)) =
    ap (value_of_index lines) (e ∙ ap some (zero-add j))
    ∙ rw (get_elem?-LastAt last, value_at) (sym (value_of-LastAt last))

module _ (path content k : Text) (ne : k ≢ []) where
  -- A lookup in a parsed file gives the value of the last line with the key.
  pub get-parse : get (parse path content) k ≡ value_of k (parse_lines content)
  unfolding get parse
  get-parse =
      get-Indexed k (parse_lines content) (index_from-Indexed k 0 [] (parse_lines content) ne)

  -- A key that is found has a last line, where the index points.
  pub parse-LastAt :
      (v : Text)
      → get (parse path content) k ≡ some v
      → (j : ℕ) × (l : Line) × LastAt k (parse_lines content) j l
        × (lookup k (parse path content).index ≡ some j)
  unfolding parse
  parse-LastAt v h = elim (index_from-Indexed k 0 [] (parse_lines content) ne) [
    | inl (absent, e) ↦ absurd (cc (h, get-parse, value_of-NoKey k (parse_lines content) absent))
    | inr (j, l, last, e) ↦ (j, l, last, e ∙ ap some (omega arith))
  ]
