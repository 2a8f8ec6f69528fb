-- ===== src/Envstore/Line.antt =====
-- Line, parseLine (envstore/types.go, reader.go) and the rewriting of a line (writer.go).
pub mod Reparse
use secret_rotator.Prelude.{
  ◌==◌, Bool, true, false, not, ◌||◌, [], ◌∷◌, ◌++◌, Option, none, some, is_nil, if◌then◌else◌,
}
use secret_rotator.Prelude.Text.{Text, codes, eq_text, trim_space, strip_prefix, strip_suffix, cut}

pub record Line : Type 0 where
  pub raw : Text
  pub key : Text
  pub value : Text
  pub quoted : Text
  pub comment : Bool

abbrev pub plain_line : Text → Line
plain_line raw = record { raw = raw; key = []; value = []; quoted = []; comment = false }

-- The quote around a value, if the same quote stands at both ends, and what is inside.
unfoldable pub unquote : Text → Text × Text
unquote [] = ([], [])
unquote (c ∷ rest) =
    if c == b'"' || c == b'\''
    then elim (strip_suffix (c ∷ []) rest) [ some inner ↦ (c ∷ [], inner) | none ↦ ([], c ∷ rest) ]
    else ([], c ∷ rest)

-- `strings.TrimPrefix` of "export " and a second trim, if the prefix is there.
unfoldable pub strip_export : Text → Text
strip_export trimmed = elim (strip_prefix (codes "export ") trimmed) [
  | some rest ↦ trim_space rest
  | none ↦ trimmed
]

-- The line of an assignment, which is cut at its first "=".
unfoldable pub assignment : Text → Option (Text × Text) → Line
assignment raw none = plain_line raw
assignment raw (some (front, val)) = record {
  raw = raw;
  key = trim_space front;
  value = (unquote val).1;
  quoted = (unquote val).0;
  comment = false;
}

-- `parseLine` behind the first trim.
unfoldable pub parse_trimmed : Text → Text → Line
parse_trimmed raw trimmed =
    if eq_text trimmed [] then plain_line raw else elim (strip_prefix (codes "#") trimmed) [
      | some _ ↦ record (plain_line raw) { comment = true }
      | none ↦ assignment raw (cut b'=' (strip_export trimmed))
    ]

unfoldable pub parse_line : Text → Line
unfolding parse_trimmed
parse_line raw = parse_trimmed raw (trim_space raw)

-- What `Set` makes of the line that it finds.
unfoldable pub set_line : Line → Text → Line
set_line l new_value =
    if not (is_nil l.quoted)
    then record l {
      value = new_value;
      raw = l.key ++ (b'=' ∷ (l.quoted ++ (new_value ++ l.quoted)));
    }
    else record l { value = new_value; raw = l.key ++ (b'=' ∷ new_value) }
