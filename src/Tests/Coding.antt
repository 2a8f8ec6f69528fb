-- ===== src/Tests/Coding.antt =====
-- A coding of texts that the tests give to what they stand for: each character one higher, and a zero
-- behind the last.
use secret_rotator.Prelude.{ℕ, zero, suc, ◌≡◌, refl, ap, List, [], ◌∷◌, ◌++◌, Option, none, some}
use secret_rotator.Prelude.Text.{Text}

abbrev pub encoded : Text → Text → Text
encoded [] rest = zero ∷ rest
encoded (c ∷ cs) rest = suc c ∷ encoded cs rest

abbrev pub onto_first : ℕ → List Text → List Text
onto_first c [] = []
onto_first c (t ∷ ts) = (c ∷ t) ∷ ts

-- The texts that a text encodes.
abbrev pub texts_of : Text → List Text
texts_of [] = []
texts_of (zero ∷ cs) = [] ∷ texts_of cs
texts_of (suc c ∷ cs) = onto_first c (texts_of cs)

abbrev pub onto : ℕ → Option (Text × Text) → Option (Text × Text)
onto c none = none
onto c (some (t, rest)) = some (c ∷ t, rest)

-- The first of them, and what follows it.
abbrev pub first_of : Text → Option (Text × Text)
first_of [] = none
first_of (zero ∷ cs) = some ([], cs)
first_of (suc c ∷ cs) = onto c (first_of cs)

pub texts_of-encoded : (t rest : Text) → texts_of (encoded t rest) ≡ t ∷ texts_of rest
texts_of-encoded [] rest = refl
texts_of-encoded (c ∷ t) rest = ap (onto_first c) (texts_of-encoded t rest)

pub first_of-encoded : (t rest : Text) → first_of (encoded t [] ++ rest) ≡ some (t, rest)
first_of-encoded [] rest = refl
first_of-encoded (c ∷ t) rest = ap (onto c) (first_of-encoded t rest)
