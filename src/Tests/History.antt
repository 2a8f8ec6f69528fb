-- ===== src/Tests/History.antt =====
-- The encrypted history with codecs that are easy to read back, and the cipher of `Tests.Crypto`.
use secret_rotator.Prelude.{
  ◌≡◌, refl, sym, ap, ◌∙◌, List, [], ◌∷◌, Option, none, some, inl, if◌then◌else◌, false,
}
use secret_rotator.Prelude.Int.{pos}
use secret_rotator.Prelude.Result.{ok}
use secret_rotator.Prelude.Text.{Text, codes, eq_text}
use secret_rotator.Crypto.{Bytes}
use secret_rotator.Audit.{HistoryEntry}
use secret_rotator.Audit.Encrypted.{EncryptedEntry, HistoryFile, Codec, Tools, State, append}
use secret_rotator.Audit.Encrypted.Listing.{listed, Ready}
use secret_rotator.Audit.Encrypted.Append.{CodecLaws, ToolLaws, Outcome}
use secret_rotator.Audit.Encrypted.Persists.{append-Listed}
use secret_rotator.Tests.Coding.{encoded, texts_of, texts_of-encoded}
use secret_rotator.Tests.Crypto.{
  derive, new_cipher, new_cipher-AeadLaws, zeros, length-zeros, read_zeros, zeros-full,
}

some_injective : {A : Type 0} {x y : A} → some x ≡ some y → x ≡ y
some_injective h = cc

abbrev entry : HistoryEntry
entry = record {
  secret_name = codes "db";
  rotated_at = pos 7;
  old_value = [];
  status = codes "success";
  last_step = codes "audited";
  details = [];
}

abbrev of_entries : List EncryptedEntry → Text
of_entries [] = []
of_entries (e ∷ es) = encoded e.payload (encoded e.created_at (of_entries es))

abbrev of_file : HistoryFile → Text
of_file hf = encoded (hf.version ∷ []) (encoded hf.salt_text (of_entries hf.entries))

abbrev entries_from : List Text → List EncryptedEntry
entries_from [] = []
entries_from (p ∷ []) = []
entries_from (p ∷ (c ∷ ts)) = record { payload = p; created_at = c } ∷ entries_from ts

abbrev file_from : List Text → Option HistoryFile
file_from ((v ∷ []) ∷ (salt ∷ ts)) =
    some (record { version = v; salt_text = salt; entries = entries_from ts })
file_from _ = none

entries_from-texts : (es : List EncryptedEntry) → entries_from (texts_of (of_entries es)) ≡ es
entries_from-texts [] = refl
entries_from-texts (e ∷ es) =
    rw
      (
        texts_of-encoded e.payload (encoded e.created_at (of_entries es)),
        texts_of-encoded e.created_at (of_entries es),
        entries_from-texts es,
      )
      refl

file_from-texts : (hf : HistoryFile) → file_from (texts_of (of_file hf)) ≡ some hf
file_from-texts hf =
    rw (texts_of-encoded hf.salt_text (of_entries hf.entries), entries_from-texts hf.entries) refl

abbrev unwrapped : Text → Option Bytes
unwrapped [] = none
unwrapped (c ∷ b) = some b

abbrev codec : Codec
codec = record {
  marshal_entry = λ e. some e.secret_name;
  unmarshal_entry = λ b. some (record entry { secret_name = b });
  marshal_file = λ hf. some (of_file hf);
  unmarshal_file = λ text. file_from (texts_of text);
  encode64 = λ b. 1 ∷ b;
  decode64 = unwrapped;
}

codec-CodecLaws : CodecLaws codec entry
unfolding eq_text
codec-CodecLaws = record {
  entry_law = λ b h. ap (λ n. some (record entry { secret_name = n })) (sym (some_injective h));
  file_law =
      λ hf text h. ap (λ t. file_from (texts_of t)) (sym (some_injective h)) ∙ file_from-texts hf;
  decode_law = λ b. refl;
  encode_law = λ b h. refl;
}

abbrev tools : Tools (Unit {0}) (Unit {0})
tools = record {
  derive_key = derive;
  new_gcm = new_cipher;
  read_full = read_zeros;
  leftover = [];
  now_text = λ o. (codes "now", o);
}

tools-ToolLaws : ToolLaws tools
tools-ToolLaws = record { full_law = zeros-full; gcm_law = new_cipher-AeadLaws }

abbrev path : Text
path = codes "/var/history.json"

-- A history without entries that has its salt.
abbrev stored : HistoryFile
stored = record { version = 1; salt_text = 1 ∷ zeros 16; entries = [] }

abbrev store : State (Unit {0})
store = record {
  derived_key = none;
  salt = none;
  disk = record {
    files = λ q.
        if eq_text path q then some (record { contents = of_file stored; mode = 384 }) else none;
    faults = [];
    temps = codes "/var/tmp1" ∷ [];
  };
  outside = tt;
}

store-Ready : Ready codec tools path (codes "key") store
unfolding eq_text
store-Ready = record {
  cached = inl (refl, refl);
  fits = (stored, zeros 16, refl, refl, refl, length-zeros 16, inl refl);
}

apart : eq_text (codes "/var/tmp1") path ≡ false
unfolding eq_text
apart = refl

append-Listed_example :
    (before : List HistoryEntry) × (listed codec tools path (codes "key") store ≡ ok before)
    × Outcome codec tools path
        (codes "key")
        entry
        codec-CodecLaws
        tools-ToolLaws
        store
        before
        (append codec tools path (codes "key") entry store)
append-Listed_example =
    append-Listed codec tools path (codes "key") entry codec-CodecLaws tools-ToolLaws store
      store-Ready (apart, tt)
