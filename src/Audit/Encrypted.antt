-- ===== src/Audit/Encrypted.antt =====
-- internal/infrastructure/audit/store.go: the encrypted history file. The JSON and base64 codecs, the
-- clock and what crypto.go takes as arguments are arguments here; `Outside` is the state of the
-- clock and the random source.
pub mod Replace
pub mod Listing
pub mod Append
pub mod Persists
use secret_rotator.Prelude.{ℕ, List, [], ◌∷◌, ◌++◌, Option, none, some, if◌then◌else◌}
use secret_rotator.Prelude.Result.{Result, ok, err}
use secret_rotator.Prelude.Text.{Text, eq_text}
use secret_rotator.Application.Ports.{Call}
use secret_rotator.Application.Calls.{and_then}
use secret_rotator.Envstore.Disk.{
  OsError, not_exist, Disk, read_file, create_temp, write_file, flush, rename, remove, mkdir_all,
}
use secret_rotator.Crypto.{Bytes, Aead, CryptoError, salt_len, encrypt_with_key, decrypt_with_key}
use secret_rotator.Audit.{HistoryEntry}

pub record EncryptedEntry : Type 0 where
  pub payload : Text
  pub created_at : Text

pub record HistoryFile : Type 0 where
  pub version : ℕ
  pub salt_text : Text
  pub entries : List EncryptedEntry

pub record Codec : Type 0 where
  pub marshal_entry : HistoryEntry → Option Bytes
  pub unmarshal_entry : Bytes → Option HistoryEntry
  pub marshal_file : HistoryFile → Option Text
  pub unmarshal_file : Text → Option HistoryFile
  pub encode64 : Bytes → Text
  pub decode64 : Text → Option Bytes

-- What crypto.go and the clock are to the store. `leftover` is the buffer behind a failed read of
-- random bytes.
pub record Tools (Outside E : Type 0) : Type 0 where
  pub derive_key : Bytes → Bytes → Bytes
  pub new_gcm : Bytes → Result E Aead
  pub read_full : ℕ → Call Outside E Bytes
  pub leftover : Bytes
  pub now_text : Outside → Text × Outside

pub data StoreFault (E : Type 0) : Type 0 where
  reading_history : OsError → StoreFault E
  parsing_history : StoreFault E
  decoding_salt : StoreFault E
  generating_salt : E → StoreFault E
  marshalling_entry : StoreFault E
  encrypting_entry : CryptoError E → StoreFault E
  marshalling_history : StoreFault E
  creating_directory : OsError → StoreFault E
  creating_temp : OsError → StoreFault E
  writing_temp : OsError → StoreFault E
  closing_temp : OsError → StoreFault E
  renaming_temp : OsError → StoreFault E

-- A `Store` beside the disk and the rest of the world.
pub record State (Outside : Type 0) : Type 0 where
  pub derived_key : Option Bytes
  pub salt : Option Bytes
  pub disk : Disk
  pub outside : Outside

abbrev pub no_history : HistoryFile
no_history = record { version = 1; salt_text = []; entries = [] }

module _ {Outside E : Type 0} (codec : Codec) (tools : Tools Outside E) (path : Text)
    (passphrase : Bytes) where
  open codec use {marshal_entry, unmarshal_entry, marshal_file, unmarshal_file, encode64, decode64}
  open tools use {derive_key, new_gcm, read_full, leftover, now_text}

  abbrev pub Op : Type 0 → Type 0
  Op A = State Outside → Result (StoreFault E) A × State Outside

  abbrev pub parsed : Option HistoryFile → Result (StoreFault E) HistoryFile
  parsed none = err parsing_history
  parsed (some hf) = ok hf

  abbrev pub history_of : Result OsError Text → Result (StoreFault E) HistoryFile
  history_of (ok text) = parsed (unmarshal_file text)
  history_of (err not_exist) = ok no_history
  history_of (err e) = err (reading_history e)

  abbrev pub with_disk :
      {A B : Type 0}
      → (A → Result (StoreFault E) B)
      → State Outside
      → A × Disk
      → Result (StoreFault E) B × State Outside
  with_disk f s (a, d) = (f a, record s { disk = d })

  -- `readFile`.
  unfoldable pub read_history : Op HistoryFile
  read_history s = with_disk history_of s (read_file path s.disk)

  -- `deriveKey` of the salt that is there.
  abbrev pub derive : Bytes → Op (Unit {0})
  derive salt s =
      (ok tt, record s { salt = some salt; derived_key = some (derive_key passphrase salt) })

  abbrev pub after_random :
      State Outside → Result E Bytes × Outside → Result (StoreFault E) (Unit {0}) × State Outside
  after_random s (err e, o) =
      (err (generating_salt e), record s { salt = some leftover; outside = o })
  after_random s (ok salt, o) = derive salt (record s { outside = o })

  abbrev pub with_salt : Option Bytes → Op (Unit {0})
  with_salt none s = after_random s (read_full salt_len s.outside)
  with_salt (some salt) s = derive salt s

  abbrev pub after_decoding : Option Bytes → Op (Unit {0})
  after_decoding none s = (err decoding_salt, s)
  after_decoding (some salt) s = with_salt (some salt) s

  abbrev pub without_key : HistoryFile → Op (Unit {0})
  without_key hf s =
      if eq_text hf.salt_text []
      then with_salt s.salt s
      else after_decoding (decode64 hf.salt_text) s

  abbrev pub by_key : Option Bytes → HistoryFile → Op (Unit {0})
  by_key (some key) hf s = (ok tt, s)
  by_key none hf s = without_key hf s

  -- `ensureKey`.
  unfoldable pub ensure_key : HistoryFile → Op (Unit {0})
  ensure_key hf s = by_key s.derived_key hf s

  -- The calls of `writeFile` behind CreateTemp; an error removes the temporary file.
  abbrev pub dropping :
      Text → (OsError → StoreFault E) → OsError → Disk → Result (StoreFault E) (Unit {0}) × Disk
  dropping tmp f e d = (err (f e), remove tmp d)

  abbrev pub after_rename :
      Text → Result OsError (Unit {0}) × Disk → Result (StoreFault E) (Unit {0}) × Disk
  after_rename tmp (err e, d) = dropping tmp renaming_temp e d
  after_rename tmp (ok _, d) = (ok tt, d)

  abbrev pub after_close :
      Text → Result OsError (Unit {0}) × Disk → Result (StoreFault E) (Unit {0}) × Disk
  after_close tmp (err e, d) = dropping tmp closing_temp e d
  after_close tmp (ok _, d) = after_rename tmp (rename tmp path d)

  abbrev pub after_write :
      Text → Result OsError (Unit {0}) × Disk → Result (StoreFault E) (Unit {0}) × Disk
  after_write tmp (err e, d) = dropping tmp writing_temp e (flush d).1
  after_write tmp (ok _, d) = after_close tmp (flush d)

  abbrev pub after_create :
      Text → Result OsError Text × Disk → Result (StoreFault E) (Unit {0}) × Disk
  after_create text (err e, d) = (err (creating_temp e), d)
  after_create text (ok tmp, d) = after_write tmp (write_file tmp text d)

  abbrev pub after_mkdir :
      Text → Result OsError (Unit {0}) × Disk → Result (StoreFault E) (Unit {0}) × Disk
  after_mkdir text (err e, d) = (err (creating_directory e), d)
  after_mkdir text (ok _, d) = after_create text (create_temp d)

  abbrev pub write_text : Option Text → Op (Unit {0})
  write_text none s = (err marshalling_history, s)
  write_text (some text) s = with_disk (λ r. r) s (after_mkdir text (mkdir_all s.disk))

  abbrev pub salted : HistoryFile → Option Bytes → HistoryFile
  salted hf none = hf
  salted hf (some salt) = record hf { salt_text = encode64 salt }

  -- `writeFile`.
  unfoldable pub write_history : HistoryFile → Op (Unit {0})
  write_history hf s = write_text (marshal_file (salted hf s.salt)) s

  abbrev pub stamped :
      HistoryFile
      → Bytes
      → State Outside
      → Text × Outside
      → Result (StoreFault E) (Unit {0}) × State Outside
  stamped hf encrypted s (time, o) =
      write_history
        (record hf {
          entries = hf.entries ++ (record { payload = encode64 encrypted; created_at = time }) ∷ [];
        })
        (record s { outside = o })

  abbrev pub after_encryption :
      HistoryFile
      → State Outside
      → Result (CryptoError E) Bytes × Outside
      → Result (StoreFault E) (Unit {0}) × State Outside
  after_encryption hf s (err e, o) = (err (encrypting_entry e), record s { outside = o })
  after_encryption hf s (ok encrypted, o) =
      stamped hf encrypted (record s { outside = o }) (now_text o)

  abbrev pub or_nil : Option Bytes → Bytes
  or_nil none = []
  or_nil (some bytes) = bytes

  abbrev pub with_plaintext : HistoryFile → Option Bytes → Op (Unit {0})
  with_plaintext hf none s = (err marshalling_entry, s)
  with_plaintext hf (some plaintext) s = after_encryption hf s (
      encrypt_with_key derive_key new_gcm read_full plaintext (or_nil s.derived_key) (or_nil s.salt)
        s.outside)

  -- `Append`.
  unfoldable pub append : HistoryEntry → Op (Unit {0})
  unfolding read_history ensure_key write_history
  append entry s =
      and_then (read_history s)
        (λ hf s1. and_then (ensure_key hf s1) (λ _ s2. with_plaintext hf (marshal_entry entry) s2))

  abbrev pub entry_in : Result (CryptoError E) Bytes → Option HistoryEntry
  entry_in (err e) = none
  entry_in (ok plaintext) = unmarshal_entry plaintext

  abbrev pub decrypted : Bytes → Option Bytes → Option HistoryEntry
  decrypted key none = none
  decrypted key (some bytes) = entry_in (decrypt_with_key derive_key new_gcm read_full bytes key)

  -- What an entry decrypts to; one that does not is skipped.
  abbrev pub opened : Bytes → EncryptedEntry → Option HistoryEntry
  opened key e = decrypted key (decode64 e.payload)

  abbrev pub keeping : Option HistoryEntry → List HistoryEntry → List HistoryEntry
  keeping none rest = rest
  keeping (some e) rest = e ∷ rest

  -- The loop of `List`.
  unfoldable pub list_loop : Bytes → List EncryptedEntry → List HistoryEntry
  list_loop key [] = []
  list_loop key (e ∷ es) = keeping (opened key e) (list_loop key es)

  abbrev pub list_entries : List EncryptedEntry → HistoryFile → Op (List HistoryEntry)
  list_entries [] hf s = (ok [], s)
  list_entries (e ∷ es) hf s =
      and_then (ensure_key hf s) (λ _ s1. (ok (list_loop (or_nil s1.derived_key) (e ∷ es)), s1))

  -- `List`.
  unfoldable pub list : Op (List HistoryEntry)
  unfolding read_history ensure_key list_loop
  list s = and_then (read_history s) (λ hf s1. list_entries hf.entries hf s1)
