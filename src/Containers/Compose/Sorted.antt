-- ===== src/Containers/Compose/Sorted.antt =====
-- The order and the elements of sorted names of internal/infrastructure/container/compose.go.
use secret_rotator.Prelude.{
  ℕ, ◌+◌, ◌≡◌, refl, true, false, List, [], ◌∷◌, arith, inl, inr, Bool-cases, if◌then◌else◌,
}
use secret_rotator.Prelude.Text.{Text, eq_text}
use secret_rotator.Containers.Compose.{
  text_lt, sift, sort_loop, turned_onto, sort_strings, insert_sorted,
}

text_lt_asymm : (a b : Text) → text_lt a b ≡ true → text_lt b a ≡ false
unfolding text_lt
text_lt_asymm [] [] h = refl
text_lt_asymm [] (b ∷ bs) h = refl
text_lt_asymm (a ∷ as') [] h = cc
text_lt_asymm (a ∷ as') (b ∷ bs) h = ground (arith, text_lt_asymm as' bs)

-- No element is less than the one before it.
abbrev pub IsSorted : List Text → Type 0
IsSorted [] = Unit
IsSorted (x ∷ []) = Unit
IsSorted (x ∷ y ∷ rest) = (text_lt y x ≡ false) × IsSorted (y ∷ rest)

-- The same from right to left.
abbrev IsTurned : List Text → Type 0
IsTurned [] = Unit
IsTurned (x ∷ []) = Unit
IsTurned (x ∷ y ∷ rest) = (text_lt x y ≡ false) × IsTurned (y ∷ rest)

-- How often a name occurs.
abbrev pub count : Text → List Text → ℕ
count q [] = 0
count q (x ∷ xs) = (if eq_text q x then 1 else 0) + count q xs

sift-IsTurned : (item : Text) (xs : List Text) → IsTurned xs → IsTurned (sift item xs)
unfolding sift
sift-IsTurned item [] h = tt
sift-IsTurned item (y ∷ []) h = elim (Bool-cases (text_lt item y)) [
  | inl less ↦ rw less (text_lt_asymm item y less, tt)
  | inr stay ↦ rw stay (stay, tt)
]
sift-IsTurned item (y ∷ z ∷ xs) (first, rest) = elim (Bool-cases (text_lt item y)) [
  | inr stay ↦ rw stay (stay, (first, rest))
  | inl less ↦ elim (Bool-cases (text_lt item z)) [
    | inl below ↦ rw (less, below) (first, (rw below at (sift-IsTurned item (z ∷ xs) rest)))
    | inr above ↦ rw (less, above) (text_lt_asymm item y less, (above, rest))
  ]
]

sort_loop-IsTurned : (prefix xs : List Text) → IsTurned prefix → IsTurned (sort_loop prefix xs)
unfolding sort_loop
sort_loop-IsTurned prefix [] h = h
sort_loop-IsTurned prefix (x ∷ xs) h =
    sort_loop-IsTurned (sift x prefix) xs (sift-IsTurned x prefix h)

turned_onto-IsSorted :
    (x : Text) (acc xs : List Text)
    → IsSorted (x ∷ acc)
    → IsTurned (x ∷ xs)
    → IsSorted (turned_onto (x ∷ acc) xs)
unfolding turned_onto
turned_onto-IsSorted x acc [] h k = h
turned_onto-IsSorted x acc (y ∷ xs) h (first, rest) =
    turned_onto-IsSorted y (x ∷ acc) xs (first, h) rest

turned-IsSorted : (xs : List Text) → IsTurned xs → IsSorted (turned_onto [] xs)
unfolding turned_onto
turned-IsSorted [] h = tt
turned-IsSorted (x ∷ xs) h = turned_onto-IsSorted x [] xs tt h

count-sift : (q item : Text) (xs : List Text) → count q (sift item xs) ≡ count q (item ∷ xs)
unfolding sift
count-sift q item [] = refl
count-sift q item (y ∷ xs) = elim (Bool-cases (text_lt item y)) [
  | inl less ↦ rw (less, count-sift q item xs) (omega arith)
  | inr stay ↦ rw stay refl
]

count-sort_loop :
    (q : Text) (prefix xs : List Text) → count q (sort_loop prefix xs) ≡ count q prefix + count q xs
unfolding sort_loop
count-sort_loop q prefix [] = omega arith
count-sort_loop q prefix (x ∷ xs) =
    let e = count-sort_loop q (sift x prefix) xs in let k = count-sift q x prefix in omega arith

count-turned_onto :
    (q : Text) (acc xs : List Text) → count q (turned_onto acc xs) ≡ count q acc + count q xs
unfolding turned_onto
count-turned_onto q acc [] = omega arith
count-turned_onto q acc (x ∷ xs) = let e = count-turned_onto q (x ∷ acc) xs in omega arith

-- sortStrings returns its names in ascending order, and every name as often as it was given.
pub sort_strings-IsSorted :
    (q : Text) (xs : List Text)
    → IsSorted (sort_strings xs) × (count q (sort_strings xs) ≡ count q xs)
unfolding sort_strings
sort_strings-IsSorted q xs =
    let e = count-turned_onto q [] (sort_loop [] xs) in
    let k = count-sort_loop q [] xs in
    (turned-IsSorted (sort_loop [] xs) (sort_loop-IsTurned [] xs tt), omega arith)

insert_sorted-IsSorted_only :
    (item : Text) (xs : List Text) → IsSorted xs → IsSorted (insert_sorted xs item)
unfolding insert_sorted
insert_sorted-IsSorted_only item [] h = tt
insert_sorted-IsSorted_only item (y ∷ []) h = elim (Bool-cases (text_lt y item)) [
  | inl less ↦ rw less (text_lt_asymm y item less, tt)
  | inr stay ↦ rw stay (stay, tt)
]
insert_sorted-IsSorted_only item (y ∷ z ∷ xs) (first, rest) = elim (Bool-cases (text_lt y item)) [
  | inr stay ↦ rw stay (stay, (first, rest))
  | inl less ↦ elim (Bool-cases (text_lt z item)) [
    | inl below ↦
        rw (less, below) (first, (rw below at (insert_sorted-IsSorted_only item (z ∷ xs) rest)))
    | inr above ↦ rw (less, above) (text_lt_asymm y item less, (above, rest))
  ]
]

pub count-insert_sorted :
    (q item : Text) (xs : List Text) → count q (insert_sorted xs item) ≡ count q (item ∷ xs)
unfolding insert_sorted
count-insert_sorted q item [] = refl
count-insert_sorted q item (y ∷ xs) = elim (Bool-cases (text_lt y item)) [
  | inl less ↦ rw (less, count-insert_sorted q item xs) (omega arith)
  | inr stay ↦ rw stay refl
]

-- Inserting an item into a sorted queue gives a sorted queue with every name as often as before,
-- and the item once more.
pub insert_sorted-IsSorted :
    (q item : Text) (xs : List Text)
    → IsSorted xs
    → IsSorted (insert_sorted xs item) × (count q (insert_sorted xs item) ≡ count q (item ∷ xs))
insert_sorted-IsSorted q item xs h =
    (insert_sorted-IsSorted_only item xs h, count-insert_sorted q item xs)
