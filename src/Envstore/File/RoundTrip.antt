-- ===== src/Envstore/File/RoundTrip.antt =====
-- Rendering and parsing in internal/infrastructure/envstore.
use secret_rotator.Prelude.{
  ℕ, zero, suc, ◌==◌, ◌≡◌, ◌≢◌, refl, sym, ◌∙◌, ap, false, List, [], ◌∷◌, map, Option, none, some,
  arith, inl, inr, Bool-cases, Option-cases, All, All-map, get_elem?, set, if◌then◌else◌,
}
use secret_rotator.Prelude.Text.{
  Text, eq_text, eq_text_iff, lookup, split, join, is_space, trim_space, strip_prefix, codes,
}
use secret_rotator.Prelude.Text.Trim.{NonSpace}
use secret_rotator.Prelude.Text.Split.{Without, split-join, split-cons, join-split, split-Without}
use secret_rotator.Envstore.Line.{Line, parse_trimmed, assignment, parse_line, set_line}
use secret_rotator.Envstore.Line.Reparse.{Plain, set_line-NonSpace, parse_line-set_line}
use secret_rotator.Envstore.File.{EnvFile, parse_lines, parse, get, set_at, set_key, render}
use secret_rotator.Envstore.File.Lookup.{
  LastAt, value_of, get_elem?-LastAt, value_of-set, key-LastAt, get-parse, parse-LastAt,
}

abbrev raw_of : Line → Text
raw_of l = l.raw

raw-assignment : (raw : Text) (o : Option (Text × Text)) → (assignment raw o).raw ≡ raw
unfolding assignment
raw-assignment raw none = refl
raw-assignment raw (some (f, v)) = refl

raw-parse_trimmed : (raw trimmed : Text) → (parse_trimmed raw trimmed).raw ≡ raw
unfolding parse_trimmed
raw-parse_trimmed raw trimmed = elim (Bool-cases (eq_text trimmed [])) [
  | inl blank ↦ rw blank
  | inr given ↦ elim (Option-cases (strip_prefix (codes "#") trimmed)) [
    | inl text ↦ rw (given, text, parse_trimmed) (raw-assignment raw _)
    | inr (r, comment) ↦ rw (given, comment, parse_trimmed)
  ]
]

raw-parse_line : (raw : Text) → (parse_line raw).raw ≡ raw
unfolding parse_line
raw-parse_line raw = raw-parse_trimmed raw (trim_space raw)

raws-parse : (raws : List Text) → map raw_of (map parse_line raws) ≡ raws
raws-parse [] = refl
raws-parse (r ∷ raws) = rw (raw-parse_line r, raws-parse raws)

-- Rendering a parsed file that was not changed gives the bytes that were parsed.
pub render-parse : (path content : Text) → render (parse path content) ≡ content
unfolding render parse parse_lines
render-parse path content =
    ap (join b'\n') (raws-parse (split b'\n' content)) ∙ join-split b'\n' content

map-set :
    (f : Line → Text) (ls : List Line) (j : ℕ) (l : Line)
    → map f (set ls j l) ≡ set (map f ls) j (f l)
map-set f [] j l = refl
map-set f (x ∷ ls) zero l = refl
map-set f (x ∷ ls) (suc j) l = ap (λ r. f x ∷ r) (map-set f ls j l)

map-set_text :
    (f : Text → Line) (ls : List Text) (j : ℕ) (l : Text)
    → map f (set ls j l) ≡ set (map f ls) j (f l)
map-set_text f [] j l = refl
map-set_text f (x ∷ ls) zero l = refl
map-set_text f (x ∷ ls) (suc j) l = ap (λ r. f x ∷ r) (map-set_text f ls j l)

All-set :
    (sep : ℕ) (ps : List Text) (j : ℕ) (p : Text)
    → All (Without sep) ps
    → Without sep p
    → All (Without sep) (set ps j p)
All-set sep [] j p h w = tt
All-set sep (q ∷ ps) zero p (x, h) w = (w, h)
All-set sep (q ∷ ps) (suc j) p (x, h) w = (x, All-set sep ps j p h w)

NonSpace-Without : (c : ℕ) → NonSpace c → (c == b'\n') ≡ false
unfolding is_space
NonSpace-Without c h = ground arith

-- Splitting the joined pieces of a text of which one was replaced.
split-join-set :
    (content : Text) (j : ℕ) (p : Text)
    → Without b'\n' p
    → split b'\n' (join b'\n' (set (split b'\n' content) j p)) ≡ set (split b'\n' content) j p
split-join-set content j p w =
    let (q, qs, e) = split-cons b'\n' content in
    let h : All (Without b'\n') (q ∷ qs) = rw e at (split-Without b'\n' content) in
    rw e (replaced q qs j h)
  where
    replaced :
        (q : Text) (qs : List Text) (j : ℕ)
        → All (Without b'\n') (q ∷ qs)
        → split b'\n' (join b'\n' (set (q ∷ qs) j p)) ≡ set (q ∷ qs) j p
    replaced q qs zero (x, h) = split-join b'\n' p qs (w, h)
    replaced q qs (suc j) (x, h) = split-join b'\n' q (set qs j p) (x, All-set b'\n' qs j p h w)

get_elem?-parsed :
    (raws : List Text) (j : ℕ) {l : Line}
    → get_elem? (map parse_line raws) j ≡ some l
    → (raw : Text) × (l ≡ parse_line raw)
get_elem?-parsed [] j h = cc
get_elem?-parsed (r ∷ raws) zero h = (r, cc)
get_elem?-parsed (r ∷ raws) (suc j) h = get_elem?-parsed raws j h

lines-set_key :
    (ef : EnvFile) (k v : Text) (j : ℕ) (l : Line)
    → lookup k ef.index ≡ some j
    → get_elem? ef.lines j ≡ some l
    → (set_key ef k v).lines ≡ set ef.lines j (set_line l v)
unfolding set_key set_at
lines-set_key ef k v j l e f = rw (e, set_key) (rw (f, set_at))

key-set_line : (l : Line) (v : Text) → (set_line l v).key ≡ l.key
unfolding set_line
key-set_line l v = ground arith

value-set_line : (l : Line) (v : Text) → (set_line l v).value ≡ v
unfolding set_line
value-set_line l v = ground arith

module _ (path content k v : Text) (ne : k ≢ []) (hk : All Plain k) (hv : All Plain v) where
  -- The lines that are read back: the last line of the key is the new one.
  parse_lines-set :
      (j : ℕ) (l : Line)
      → LastAt k (parse_lines content) j l
      → lookup k (parse path content).index ≡ some j
      → All NonSpace (set_line l v).raw
      → parse_lines (render (set_key (parse path content) k v))
        ≡ set (parse_lines content) j (parse_line (set_line l v).raw)
  unfolding render parse_lines parse
  parse_lines-set j l last e spaceless =
      let pieces = split b'\n' content in
      let l' = set_line l v in
      let written : map raw_of (set_key (parse path content) k v).lines ≡ set pieces j l'.raw =
        ap (map raw_of) (lines-set_key (parse path content) k v j l e (get_elem?-LastAt last))
        ∙ map-set raw_of (map parse_line pieces) j l'
        ∙ ap (λ ps. set ps j l'.raw) (raws-parse pieces) in
      let w : Without b'\n' l'.raw = All-map NonSpace NonSpace-Without l'.raw spaceless in
      ap (λ ps. map parse_line (split b'\n' (join b'\n' ps))) written
      ∙ ap (map parse_line) (split-join-set content j l'.raw w)
      ∙ map-set_text parse_line pieces j l'.raw

  -- Setting a key that a parsed file holds, rendering the file and parsing it again gives the new
  -- value for that key and the old value for every other key, when key and value are made of
  -- URL-safe base64 characters.
  pub get-parse-set_key :
      (old q : Text)
      → get (parse path content) k ≡ some old
      → q ≢ []
      → get (parse path (render (set_key (parse path content) k v))) q
        ≡ (if eq_text k q then some v else get (parse path content) q)
  get-parse-set_key old q found qe =
      let (j, l, last, e) = parse-LastAt path content k ne old found in
      let (raw, from) =
        get_elem?-parsed (split b'\n' content) j {l = l}
          (unfold parse_lines in get_elem?-LastAt last) in
      let key : l.key ≡ k = (eq_text_iff l.key k).0 (key-LastAt last) in
      let key' : (parse_line raw).key ≡ k = ap (λ (x : Line). x.key) (sym from) ∙ key in
      let plain : All Plain (parse_line raw).key = rw key' hk in
      let spaceless : All NonSpace (set_line l v).raw =
        rw from (set_line-NonSpace raw v plain hv) in
      let again : parse_line (set_line l v).raw ≡ record (set_line l v) { comment = false } =
        rw from (parse_line-set_line raw v (rw key' ne) plain hv) in
      let l' : Line = record (set_line l v) { comment = false } in
      get-parse path (render (set_key (parse path content) k v)) q qe
      ∙ ap (value_of q) (parse_lines-set j l last e spaceless)
      ∙ ap (λ x. value_of q (set (parse_lines content) j x)) again
      ∙ value_of-set l' q last (rw key-set_line (key-LastAt last))
      ∙ rw (value-set_line, get-parse path content q qe)
