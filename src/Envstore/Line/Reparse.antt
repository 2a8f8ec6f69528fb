-- ===== src/Envstore/Line/Reparse.antt =====
-- Lines that Set of internal/infrastructure/envstore/writer.go has rewritten, parsed again.
use secret_rotator.Prelude.{
  ℕ, ◌==◌, leb, ◌≡◌, ◌≢◌, ◌⊎◌, refl, sym, ◌∙◌, ap, Bool, true, false, ◌&&◌, ◌||◌, [], ◌∷◌, ◌++◌,
  append-nil, Option, none, some, arith, inl, inr, Bool-cases, Option-cases, All, All-append,
  All-append_left, All-map,
}
use mathlib.Core.List.{append_cancel_right}
use secret_rotator.Prelude.Text.{Text, codes, eq_text, is_space, trim_space, strip_prefix, cut}
use secret_rotator.Prelude.Text.Trim.{NonSpace, trim_space-NonSpace, strip_prefix_sound}
use secret_rotator.Prelude.Text.Suffix.{strip_suffix_sound, strip_suffix_complete}
use secret_rotator.Domain.Values.{valid_key_char, valid_key_chars}
use secret_rotator.Envstore.Line.{
  Line, unquote, strip_export, assignment, parse_trimmed, parse_line, set_line,
}

-- The characters of URL-safe base64, which the password generator uses; those of a valid key are
-- among them.
unfoldable pub is_plain : ℕ → Bool
is_plain c =
    (leb b'A' c && leb c b'Z')
    || (leb b'a' c && leb c b'z')
    || (leb b'0' c && leb c b'9')
    || c == b'-'
    || c == b'_'

abbrev pub Plain : ℕ → Type 0
Plain c = is_plain c ≡ true

-- The quote styles of a line.
abbrev pub IsQuote : Text → Type 0
IsQuote q = (q ≡ []) ⊎ (q ≡ b'"' ∷ []) ⊎ (q ≡ b'\'' ∷ [])

Plain-NonSpace : (c : ℕ) → Plain c → NonSpace c
unfolding is_plain is_space
Plain-NonSpace c h = ground arith

Plain-ne :
    (c : ℕ)
    → Plain c
    → (c == b'=' ≡ false)
      × (b'#' == c ≡ false)
      × (c == b'"' ≡ false)
      × (c == b'\'' ≡ false)
      × (c == b'\n' ≡ false)
unfolding is_plain
Plain-ne c h = ground arith

-- A valid key is made of such characters.
pub key-Plain : (later : Bool) (k : Text) → valid_key_chars later k ≡ true → All Plain k
unfolding valid_key_chars valid_key_char is_plain
key-Plain later [] h = tt
key-Plain later (c ∷ k) h = (ground arith, key-Plain true k (ground arith))

IsQuote-NonSpace : (q : Text) → IsQuote q → All NonSpace q
unfolding is_space
IsQuote-NonSpace q (inl e) = rw e tt
IsQuote-NonSpace q (inr (inl e)) = rw e (refl, tt)
IsQuote-NonSpace q (inr (inr e)) = rw e (refl, tt)

cut_lem : (k rest : Text) → All Plain k → cut b'=' (k ++ (b'=' ∷ rest)) ≡ some (k, rest)
unfolding cut
cut_lem [] rest h = refl
cut_lem (c ∷ k) rest (p, h) = rw ((Plain-ne c p).0, cut_lem k rest h)

-- No "export " stands before a text without spaces.
strip_export_lem : (s : Text) → All NonSpace s → strip_export s ≡ s
unfolding strip_export
strip_export_lem s h = elim (Option-cases (strip_prefix (codes "export ") s)) [
  | inl missing ↦ rw (missing, strip_export)
  | inr (rest, found) ↦
      let e : s ≡ codes "export " ++ rest = strip_prefix_sound (codes "export ") s found in
      absurd (spaced (All-append_left NonSpace (codes "export ") rest (rw e at h)))
]
  where
    spaced : All NonSpace (codes "export ") → ⊥
    spaced (_, (_, (_, (_, (_, (_, (space, _))))))) = unfold is_space in cc

unquote-quoted :
    (q : ℕ) (v : Text)
    → (q == b'"' || q == b'\'') ≡ true
    → unquote (q ∷ (v ++ q ∷ [])) ≡ (q ∷ [], v)
unfolding unquote
unquote-quoted q v h =
    let (f, found) = strip_suffix_complete (q ∷ []) v in
    let e : v ≡ f =
      append_cancel_right v f (q ∷ []) (strip_suffix_sound (q ∷ []) (v ++ q ∷ []) found) in
    rw (h, found) (ap (λ inner. (q ∷ [], inner)) (sym e))

unquote-Plain : (v : Text) → All Plain v → unquote v ≡ ([], v)
unfolding unquote
unquote-Plain [] h = refl
unquote-Plain (c ∷ v) (p, h) = ground (arith, Plain-ne c p)

unquote_lem : (q v : Text) → IsQuote q → All Plain v → unquote (q ++ (v ++ q)) ≡ (q, v)
unquote_lem q v (inl e) h = rw (e, append-nil) (unquote-Plain v h)
unquote_lem q v (inr (inl e)) h = rw e (unquote-quoted b'"' v refl)
unquote_lem q v (inr (inr e)) h = rw e (unquote-quoted b'\'' v refl)

parse_trimmed-assignment :
    (raw : Text) (c : ℕ) (s : Text)
    → b'#' == c ≡ false
    → parse_trimmed raw (c ∷ s) ≡ assignment raw (cut b'=' (strip_export (c ∷ s)))
unfolding parse_trimmed eq_text strip_prefix
parse_trimmed-assignment raw c s h = rw h

assignment-spaceless :
    (k q v : Text)
    → All Plain k
    → IsQuote q
    → All Plain v
    → All NonSpace (k ++ (b'=' ∷ (q ++ (v ++ q))))
assignment-spaceless k q v hk hq hv =
    let quote = IsQuote-NonSpace q hq in
    All-append NonSpace k _ (All-map Plain Plain-NonSpace k hk) (
      (unfold is_space in refl),
      All-append NonSpace q _ quote
          (All-append NonSpace v q (All-map Plain Plain-NonSpace v hv) quote),
    )

-- An assignment without spaces is parsed into its key, its value and its quote.
pub parse_line-assignment :
    (k q v : Text)
    → k ≢ []
    → All Plain k
    → IsQuote q
    → All Plain v
    → let raw = k ++ (b'=' ∷ (q ++ (v ++ q))) in
      parse_line raw ≡ record { raw = raw; key = k; value = v; quoted = q; comment = false }
unfolding parse_line assignment
parse_line-assignment [] q v ne hk hq hv = absurd (ne refl)
parse_line-assignment (c ∷ k) q v ne (p, hk) hq hv =
    let rest = q ++ (v ++ q) in
    let raw = c ∷ (k ++ (b'=' ∷ rest)) in
    let spaceless = assignment-spaceless (c ∷ k) q v (p, hk) hq hv in
    ap (parse_trimmed raw) (trim_space-NonSpace raw spaceless)
    ∙ parse_trimmed-assignment raw c (k ++ (b'=' ∷ rest)) (Plain-ne c p).1
    ∙ rw (
      strip_export_lem raw spaceless,
      cut_lem (c ∷ k) rest (p, hk),
      trim_space-NonSpace (c ∷ k) (All-map Plain Plain-NonSpace (c ∷ k) (p, hk)),
      unquote_lem q v hq hv,
    )

unquote-IsQuote : (val : Text) → IsQuote (unquote val).0
unfolding unquote
unquote-IsQuote [] = inl refl
unquote-IsQuote (c ∷ rest) = ground arith

assignment-IsQuote : (raw : Text) (o : Option (Text × Text)) → IsQuote (assignment raw o).quoted
unfolding assignment
assignment-IsQuote raw none = inl refl
assignment-IsQuote raw (some (front, val)) = unquote-IsQuote val

parse_trimmed-IsQuote : (raw trimmed : Text) → IsQuote (parse_trimmed raw trimmed).quoted
unfolding parse_trimmed
parse_trimmed-IsQuote raw trimmed = elim (Bool-cases (eq_text trimmed [])) [
  | inl blank ↦ rw blank (inl refl)
  | inr given ↦ elim (Option-cases (strip_prefix (codes "#") trimmed)) [
    | inl text ↦ rw (given, text, parse_trimmed) (assignment-IsQuote raw _)
    | inr (r, comment) ↦ rw (given, comment, parse_trimmed) (inl refl)
  ]
]

-- The two branches of `Set` in one formula.
set_line_lem :
    (l : Line) (v : Text)
    → set_line l v ≡ record l { value = v; raw = l.key ++ (b'=' ∷ (l.quoted ++ (v ++ l.quoted))) }
unfolding set_line
set_line_lem l v = ground (arith, append-nil v)

-- A line with a key that Set has rewritten is parsed into the rewritten line itself, when key and
-- value are made of URL-safe base64 characters.
pub parse_line-set_line :
    (raw v : Text)
    → let l = parse_line raw in
      l.key ≢ []
      → All Plain l.key
      → All Plain v
      → parse_line (set_line l v).raw ≡ record (set_line l v) { comment = false }
parse_line-set_line raw v ne hk hv =
    let l = parse_line raw in
    let quote : IsQuote l.quoted =
      unfold parse_line in parse_trimmed-IsQuote raw (trim_space raw) in
    rw (set_line_lem l v) (parse_line-assignment l.key l.quoted v ne hk quote hv)

-- Such a line holds no space, and so no line break.
pub set_line-NonSpace :
    (raw v : Text)
    → All Plain (parse_line raw).key
    → All Plain v
    → All NonSpace (set_line (parse_line raw) v).raw
set_line-NonSpace raw v hk hv =
    let l = parse_line raw in
    let quote : IsQuote l.quoted =
      unfold parse_line in parse_trimmed-IsQuote raw (trim_space raw) in
    rw (set_line_lem l v) (assignment-spaceless l.key l.quoted v hk quote hv)
