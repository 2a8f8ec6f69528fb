-- ===== src/Domain/Inspection/Keys.antt =====
-- The classification of keys of internal/domain/inspection.go.
use mathlib.Core.List.{append_cancel_right}
use secret_rotator.Prelude.{
  Bool, ◌≡◌, ◌≢◌, sym, ◌∙◌, true, false, [], ◌++◌, append_assoc, none, some, arith, inl, inr,
  Bool-cases, Option-cases, if◌then◌else◌,
}
use secret_rotator.Prelude.Text.{Text, codes, eq_text, eq_text_iff, strip_suffix, lookup}
use secret_rotator.Prelude.Text.Suffix.{strip_suffix_sound, strip_suffix_complete}
use secret_rotator.Prelude.Unicode.{Tables, to_upper}
use secret_rotator.Domain.Inspection.{
  default_patterns, exact_patterns, match_suffix, match_key, classify_upper, classify_key,
}

-- A text that ends in a suffix ends in the end of the suffix.
strip_suffix_end :
    (front back s : Text) {f : Text}
    → strip_suffix (front ++ back) s ≡ some f
    → (g : Text) × (strip_suffix back s ≡ some g)
strip_suffix_end front back s {f} h =
    let (g, found) = strip_suffix_complete back (f ++ front) in
    let e : s ≡ (f ++ front) ++ back =
      strip_suffix_sound (front ++ back) s h ∙ sym (append_assoc f front back) in
    (g, rw e found)

no_key_no_private_key :
    (upper : Text)
    → strip_suffix (codes "_KEY") upper ≡ none
    → strip_suffix (codes "_PRIVATE_KEY") upper ≡ none
no_key_no_private_key upper h = elim (Option-cases (strip_suffix (codes "_PRIVATE_KEY") upper)) [
  | inl missing ↦ missing
  | inr (f, found) ↦
      let (g, shorter) = strip_suffix_end (codes "_PRIVATE") (codes "_KEY") upper found in
      absurd (cc (h, shorter))
]

match_suffix-ne-private_key :
    (upper : Text) → match_suffix upper default_patterns ≢ codes "private_key"
unfolding match_suffix
match_suffix-ne-private_key upper h = ground (arith, no_key_no_private_key upper)

exact-ne-private_key :
    (upper : Text) {c : Text} → lookup upper exact_patterns ≡ some c → c ≢ codes "private_key"
unfolding lookup
exact-ne-private_key upper h e = ground arith

match_key-ne-private_key : (upper : Text) → match_key upper ≢ codes "private_key"
unfolding match_key
match_key-ne-private_key upper h = elim (Option-cases (lookup upper exact_patterns)) [
  | inl none_exact ↦ match_suffix-ne-private_key upper (ground (arith, none_exact))
  | inr (c, exact) ↦ exact-ne-private_key upper exact (ground (arith, exact))
]

classify_upper-ne-private_key : (upper : Text) → (classify_upper upper).0 ≢ codes "private_key"
unfolding classify_upper
classify_upper-ne-private_key upper h = elim (Option-cases (strip_suffix (codes "_FILE") upper)) [
  | inl plain ↦ match_key-ne-private_key upper (ground (arith, plain))
  | inr (base, file) ↦ match_key-ne-private_key base (ground (arith, file))
]

-- No key is ever classified as private_key, though the pattern list has a suffix of that category.
pub classify_key-ne-private_key :
    (u : Tables) (key : Text) → (classify_key u key).0 ≢ codes "private_key"
unfolding classify_key
classify_key-ne-private_key u key = classify_upper-ne-private_key (to_upper u key)

-- An upper-case key that ends in _FILE has the category of the rest of its name, and is a file
-- reference exactly when that category is not empty.
pub classify_upper-file :
    (base : Text)
    → classify_upper (base ++ codes "_FILE")
      ≡ (match_key base, (if eq_text (match_key base) [] then false else true))
unfolding classify_upper
classify_upper-file base =
    let (f, found) = strip_suffix_complete (codes "_FILE") base in
    let e : f ≡ base = sym (
      append_cancel_right base f (codes "_FILE")
        (strip_suffix_sound (codes "_FILE") (base ++ codes "_FILE") found)) in
    rw (found, classify_upper, e) (category (match_key base))
  where
    category :
        (c : Text)
        → ◌≡◌ {A = Text × Bool}
            (if eq_text c [] then ([], false) else (c, true))
            (c, (if eq_text c [] then false else true))
    category c = elim (Bool-cases (eq_text c [])) [
      | inl empty ↦ rw (empty, (eq_text_iff c []).0 empty)
      | inr named ↦ rw named
    ]
