-- ===== src/Envstore/File.antt =====
-- EnvFile (envstore/types.go) with Parse (reader.go), Set and render (writer.go).
pub mod Lookup
pub mod RoundTrip
use secret_rotator.Prelude.{
  ℕ, zero, suc, List, [], ◌∷◌, map, Option, none, some, is_nil, get_elem?, set, if◌then◌else◌,
}
use secret_rotator.Prelude.Text.{Text, lookup, split, join}
use secret_rotator.Envstore.Line.{Line, parse_line, set_line}

pub record EnvFile : Type 0 where
  pub path : Text
  pub lines : List Line
  pub index : List (Text × ℕ)

-- `index[line.Key] = i` for each line with a key.
unfoldable pub index_from : ℕ → List (Text × ℕ) → List Line → List (Text × ℕ)
index_from i m [] = m
index_from i m (l ∷ ls) = index_from (suc i) (if is_nil l.key then m else (l.key, i) ∷ m) ls

unfoldable pub parse_lines : Text → List Line
parse_lines content = map parse_line (split b'\n' content)

unfoldable pub parse : Text → Text → EnvFile
unfolding index_from parse_lines
parse path content = record {
  path = path;
  lines = parse_lines content;
  index = index_from 0 [] (parse_lines content);
}

abbrev pub value_at : List Line → ℕ → Option Text
value_at lines i = elim (get_elem? lines i) [ none ↦ none | some l ↦ some l.value ]

-- The value at what the index gives for a key.
abbrev pub value_of_index : List Line → Option ℕ → Option Text
value_of_index lines none = none
value_of_index lines (some i) = value_at lines i

unfoldable pub get : EnvFile → Text → Option Text
get ef key = value_of_index ef.lines (lookup key ef.index)

unfoldable pub reindex : EnvFile → EnvFile
unfolding index_from
reindex ef = record ef { index = index_from 0 [] ef.lines }

-- The loop of `Keys`.
unfoldable pub keys_of : List Line → List Text
keys_of [] = []
keys_of (l ∷ ls) = if is_nil l.key then keys_of ls else l.key ∷ keys_of ls

unfoldable pub keys : EnvFile → List Text
unfolding keys_of
keys ef = keys_of ef.lines

-- The line at an index, rewritten.
unfoldable pub set_at : List Line → ℕ → Text → List Line
set_at lines i new_value = elim (get_elem? lines i) [
  | none ↦ lines
  | some l ↦ set lines i (set_line l new_value)
]

unfoldable pub set_key : EnvFile → Text → Text → EnvFile
unfolding set_at
set_key ef key new_value = elim (lookup key ef.index) [
  | none ↦ ef
  | some i ↦ record ef { lines = set_at ef.lines i new_value }
]

unfoldable pub render : EnvFile → Text
render ef = join b'\n' (map (λ (l : Line). l.raw) ef.lines)
