-- ===== src/Tests/Files.antt =====
-- The .env files and the disk.
use secret_rotator.Prelude.{
  ◌≡◌, ◌≢◌, refl, Bool, true, false, [], ◌∷◌, ◌++◌, Option, none, some, if◌then◌else◌,
}
use secret_rotator.Prelude.Result.{Result, ok, err}
use secret_rotator.Prelude.Text.{
  Text, codes, eq_text, is_space, trim_left, trim_right, trim_space, strip_prefix, strip_suffix,
  cut, split, lookup,
}
use secret_rotator.Domain.Values.{valid_key_char, valid_key_chars}
use secret_rotator.Envstore.Line.{
  unquote, strip_export, assignment, parse_trimmed, parse_line, set_line,
}
use secret_rotator.Envstore.Line.Reparse.{key-Plain}
use secret_rotator.Envstore.File.{index_from, parse_lines, parse, get, set_key, render}
use secret_rotator.Envstore.File.RoundTrip.{render-parse, get-parse-set_key}
use secret_rotator.Envstore.Disk.{
  StoredFile, Disk, put, stat_mode, create_temp, write_file, flush, chmod, rename, remove,
}
use secret_rotator.Envstore.Store.{StoreError, write_atomic}
use secret_rotator.Envstore.Store.Completes.{sound, write_atomic-ok}
use secret_rotator.Envstore.Store.Replace.{Replaced, write_atomic-Replaced}

abbrev pub env_text : Text
env_text =
    codes "# database" ++ b'\n' ∷ codes "export DB_PASSWORD='old'" ++ b'\n' ∷ codes "PORT=5432"

abbrev key : Text
key = codes "DB_PASSWORD"

old_value : get (parse [] env_text) key ≡ some (codes "old")
unfolding get parse parse_lines index_from parse_line parse_trimmed assignment unquote strip_export
    split cut trim_space trim_left trim_right is_space strip_prefix strip_suffix lookup eq_text
old_value = refl

key_valid : valid_key_chars false key ≡ true
unfolding valid_key_chars valid_key_char
key_valid = refl

new_valid : valid_key_chars true (codes "n3w_x") ≡ true
unfolding valid_key_chars valid_key_char
new_valid = refl

key_ne_nil : key ≢ []
key_ne_nil h = cc

get-parse-set_key_example :
    get (parse [] (render (set_key (parse [] env_text) key (codes "n3w_x")))) key
    ≡ (if eq_text key key then some (codes "n3w_x") else get (parse [] env_text) key)
get-parse-set_key_example =
    get-parse-set_key [] env_text key (codes "n3w_x") key_ne_nil (key-Plain false key key_valid)
      (key-Plain true (codes "n3w_x") new_valid) (codes "old") key old_value key_ne_nil

render-parse_example : render (parse (codes ".env") env_text) ≡ env_text
render-parse_example = render-parse (codes ".env") env_text

-- The rewritten line has lost its "export ".
exported_line :
    (set_line (parse_line (codes "export DB_PASSWORD='old'")) (codes "n3w_x")).raw
    ≡ codes "DB_PASSWORD='n3w_x'"
unfolding set_line parse_line parse_trimmed assignment unquote strip_export cut trim_space trim_left
    trim_right is_space strip_prefix strip_suffix eq_text
exported_line = refl

line_key : (parse_line (codes "export DB_PASSWORD='old'")).key ≡ key
unfolding parse_line parse_trimmed assignment unquote strip_export cut trim_space trim_left
    trim_right is_space strip_prefix strip_suffix eq_text
line_key = refl

line_key_valid : valid_key_chars false (parse_line (codes "export DB_PASSWORD='old'")).key ≡ true
line_key_valid = rw line_key key_valid

abbrev stored : Text → StoredFile
stored text = record { contents = text; mode = 416 }

abbrev two_files : Text → Option StoredFile
two_files q =
    if eq_text q (codes ".env")
    then some (stored env_text)
    else if eq_text q (codes "app/.env")
    then some (stored env_text)
    else none

-- The rename of the first replacement fails.
abbrev faulty_disk : Disk
faulty_disk = record {
  files = two_files;
  faults = false ∷ false ∷ false ∷ false ∷ false ∷ false ∷ true ∷ [];
  temps = codes ".env.tmp.1" ∷ codes ".env.tmp.2" ∷ [];
}

abbrev pub sound_disk : Disk
sound_disk = record faulty_disk {
  faults = [];
  temps = codes ".env.tmp.1" ∷ codes ".env.tmp.2" ∷ codes ".env.tmp.3" ∷ codes ".env.tmp.4" ∷ [];
}

write_atomic-Replaced_example :
    Replaced
      (codes ".env")
      (codes "A=1")
      faulty_disk
      (write_atomic (codes ".env") (codes "A=1") faulty_disk)
write_atomic-Replaced_example = write_atomic-Replaced (codes ".env") (codes "A=1") faulty_disk

abbrev was_ok : {E A : Type 0} → Result E A → Bool
was_ok (ok a) = true
was_ok (err e) = false

rename_failed : was_ok (write_atomic (codes ".env") (codes "A=1") faulty_disk).0 ≡ false
unfolding write_atomic stat_mode create_temp write_file flush chmod rename remove eq_text
rename_failed = refl

replaced :
    (write_atomic (codes ".env") (codes "A=1") sound_disk).1.files (codes ".env")
    ≡ some (stored (codes "A=1"))
unfolding write_atomic stat_mode create_temp write_file flush chmod rename remove eq_text
replaced = refl

existing : two_files (codes ".env") ≡ some (stored env_text)
unfolding eq_text
existing = refl

free_path : two_files (codes ".env.tmp.1") ≡ none
unfolding eq_text
free_path = refl

abbrev run : Result StoreError (Unit {0}) × Disk
run = write_atomic (codes ".env") (codes "A=1") (sound two_files (codes ".env.tmp.1") [])

write_atomic-ok_example :
    (run.0 ≡ ok tt)
    × ((q : Text)
        → run.1.files q
          ≡ put (codes ".env") (record (stored env_text) { contents = codes "A=1" }) two_files q)
write_atomic-ok_example =
    write_atomic-ok (codes ".env") (codes "A=1") (codes ".env.tmp.1") [] two_files (stored env_text)
      existing free_path
