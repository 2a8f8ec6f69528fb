-- ===== src/Prelude/Text/Trim.antt =====
-- `strings.TrimSpace` on texts that begin and end in no space.
use secret_rotator.Prelude.{
  ℕ, ◌==◌, ◌≡◌, refl, ◌∙◌, ap, false, [], ◌∷◌, ◌++◌, some, arith, All, Bool-cases, inl, inr,
}
use secret_rotator.Prelude.Text.{
  Text, is_space, trim_left, trim_right, keep, trim_space, strip_prefix,
}

pub trim_left_lem : (c : ℕ) (cs : Text) → is_space c ≡ false → trim_left (c ∷ cs) ≡ c ∷ cs
unfolding trim_left
trim_left_lem c cs h = rw h

keep-concat : (d : ℕ) (s : Text) (c : ℕ) → keep d (s ++ c ∷ []) ≡ d ∷ (s ++ c ∷ [])
keep-concat d [] c = refl
keep-concat d (x ∷ s) c = refl

pub trim_right_lem :
    (s : Text) (c : ℕ) → is_space c ≡ false → trim_right (s ++ c ∷ []) ≡ s ++ c ∷ []
unfolding trim_right
trim_right_lem [] c h = rw h
trim_right_lem (d ∷ s) c h = rw (trim_right_lem s c h) (keep-concat d s c)

-- A text of two characters or more whose ends are no spaces is trimmed already.
pub trim_space_lem :
    (c : ℕ) (s : Text) (d : ℕ)
    → is_space c ≡ false
    → is_space d ≡ false
    → trim_space (c ∷ (s ++ d ∷ [])) ≡ c ∷ (s ++ d ∷ [])
unfolding trim_space
trim_space_lem c s d h k =
    ap trim_right (trim_left_lem c (s ++ d ∷ []) h) ∙ trim_right_lem (c ∷ s) d k

-- So is a text of one character that is no space.
pub trim_space-one : (c : ℕ) → is_space c ≡ false → trim_space (c ∷ []) ≡ c ∷ []
unfolding trim_space
trim_space-one c h = ap trim_right (trim_left_lem c [] h) ∙ trim_right_lem [] c h

abbrev pub NonSpace : ℕ → Type 0
NonSpace c = is_space c ≡ false

trim_left-NonSpace : (s : Text) → All NonSpace s → trim_left s ≡ s
unfolding trim_left
trim_left-NonSpace [] h = refl
trim_left-NonSpace (c ∷ s) (n, h) = rw n

keep-NonSpace : (c : ℕ) (s : Text) → NonSpace c → keep c s ≡ c ∷ s
keep-NonSpace c [] h = rw h
keep-NonSpace c (d ∷ s) h = refl

trim_right-NonSpace : (s : Text) → All NonSpace s → trim_right s ≡ s
unfolding trim_right
trim_right-NonSpace [] h = refl
trim_right-NonSpace (c ∷ s) (n, h) = rw (trim_right-NonSpace s h) (keep-NonSpace c s n)

-- A text with no space at all is trimmed already.
pub trim_space-NonSpace : (s : Text) → All NonSpace s → trim_space s ≡ s
unfolding trim_space
trim_space-NonSpace s h = ap trim_right (trim_left-NonSpace s h) ∙ trim_right-NonSpace s h

-- A prefix that is found is one.
pub strip_prefix_sound :
    (prefix s : Text) {rest : Text} → strip_prefix prefix s ≡ some rest → s ≡ prefix ++ rest
unfolding strip_prefix
strip_prefix_sound [] s h = ground arith
strip_prefix_sound (p ∷ prefix) [] h = cc
strip_prefix_sound (p ∷ prefix) (c ∷ s) h = elim (Bool-cases (p == c)) [
  | inl same ↦ ground (arith, same, strip_prefix_sound prefix s (rw same at h))
  | inr other ↦ absurd (ground (arith, other))
]
