-- ===== src/Containers/Compose.antt =====
-- The helpers of internal/infrastructure/container/compose.go: the sorting of names, the insertion
-- into a sorted queue, and the filter of an order.
pub mod Sorted
pub mod Topo
use secret_rotator.Prelude.{◌==◌, ltb, Bool, true, false, List, [], ◌∷◌, any, if◌then◌else◌}
use secret_rotator.Prelude.Text.{Text, eq_text}

-- Go's `<` on strings. The order of UTF-8 bytes is that of the characters.
unfoldable pub text_lt : Text → Text → Bool
text_lt [] [] = false
text_lt [] (b ∷ bs) = true
text_lt (a ∷ as') [] = false
text_lt (a ∷ as') (b ∷ bs) =
    let rest = text_lt as' bs in if ltb a b then true else if a == b then rest else false

-- The inner loop of `sortStrings`: `before` is what stands left of the item, from right to left; the
-- result is the prefix with the item, from right to left.
unfoldable pub sift : Text → List Text → List Text
sift item [] = item ∷ []
sift item (y ∷ before) =
    let left = sift item before in if text_lt item y then y ∷ left else item ∷ y ∷ before

-- The outer loop, with the sorted prefix from right to left.
unfoldable pub sort_loop : List Text → List Text → List Text
unfolding sift
sort_loop prefix [] = prefix
sort_loop prefix (s ∷ ss) = sort_loop (sift s prefix) ss

-- A prefix from right to left, in front of a list.
unfoldable pub turned_onto : List Text → List Text → List Text
turned_onto acc [] = acc
turned_onto acc (x ∷ xs) = turned_onto (x ∷ acc) xs

unfoldable pub sort_strings : List Text → List Text
unfolding sort_loop turned_onto
sort_strings s = turned_onto [] (sort_loop [] s)

unfoldable pub insert_sorted : List Text → Text → List Text
insert_sorted [] item = item ∷ []
insert_sorted (y ∷ s) item =
    let behind = insert_sorted s item in if text_lt y item then y ∷ behind else item ∷ y ∷ s

-- `FilterDependencyOrder`.
unfoldable pub filter_dependency_order : List Text → List Text → List Text
filter_dependency_order [] targets = []
filter_dependency_order (name ∷ order) targets =
    let rest = filter_dependency_order order targets in
    if any (eq_text name) targets then name ∷ rest else rest
