-- ===== src/Prelude/Text/Suffix.antt =====
-- `strings.HasSuffix`.
use secret_rotator.Prelude.{
  ◌≡◌, refl, [], ◌∷◌, ◌++◌, some, arith, inl, inr, Bool-cases, Option-cases,
}
use secret_rotator.Prelude.Text.{Text, eq_text, eq_text_iff, eq_text_refl, strip_suffix}

-- A suffix that is found is one.
pub strip_suffix_sound :
    (suffix s : Text) {front : Text} → strip_suffix suffix s ≡ some front → s ≡ front ++ suffix
unfolding strip_suffix
strip_suffix_sound suffix [] h = ground (arith, eq_text_iff [] suffix)
strip_suffix_sound suffix (c ∷ s) {front} h = elim (Bool-cases (eq_text (c ∷ s) suffix)) [
  | inl whole ↦ ground (arith, whole, eq_text_iff (c ∷ s) suffix)
  | inr part ↦ elim (Option-cases (strip_suffix suffix s)) [
    | inl missing ↦ absurd (ground (arith, part, missing))
    | inr (f, found) ↦ ground (arith, part, found, strip_suffix_sound suffix s found)
  ]
]

-- A suffix that is there is found.
pub strip_suffix_complete :
    (suffix front : Text) → (f : Text) × (strip_suffix suffix (front ++ suffix) ≡ some f)
unfolding strip_suffix
strip_suffix_complete [] [] = ([], refl)
strip_suffix_complete (c ∷ suffix) [] = ([], rw (eq_text_refl (c ∷ suffix)))
strip_suffix_complete suffix (c ∷ front) =
    let (f, found) = strip_suffix_complete suffix front in
    elim (Bool-cases (eq_text (c ∷ (front ++ suffix)) suffix)) [
      | inl whole ↦ ([], rw whole)
      | inr part ↦ (c ∷ f, rw (part, found))
    ]
