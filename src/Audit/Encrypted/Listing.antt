-- ===== src/Audit/Encrypted/Listing.antt =====
-- List of internal/infrastructure/audit/store.go, by a store that has just been made.
use secret_rotator.Prelude.{
  ◌≡◌, refl, ◌∙◌, ap, ◌⊎◌, false, List, [], ◌∷◌, ◌++◌, length, Option, none, some,
}
use secret_rotator.Prelude.Result.{Result, ok}
use secret_rotator.Prelude.Text.{Text, eq_text}
use secret_rotator.Application.Calls.{and_then}
use secret_rotator.Envstore.Disk.{StoredFile, found, read_file}
use secret_rotator.Crypto.{Bytes}
use secret_rotator.Audit.{HistoryEntry}
use secret_rotator.Audit.Encrypted.{
  EncryptedEntry, HistoryFile, Codec, Tools, StoreFault, State, parsed, history_of, read_history,
  derive, after_decoding, ensure_key, or_nil, opened, keeping, list_loop, list_entries, list,
}

module _ {Outside E : Type 0} (codec : Codec) (tools : Tools Outside E) (path : Text)
    (passphrase : Bytes) where
  abbrev pub loop : Bytes → List EncryptedEntry → List HistoryEntry
  loop = list_loop codec tools path passphrase

  abbrev pub key_of : Bytes → Bytes
  key_of b = tools.derive_key passphrase b

  -- A store that NewStore has just made, on the files of another one, with no call failing.
  abbrev pub fresh : State Outside → State Outside
  fresh s = record {
    derived_key = none;
    salt = none;
    disk = record s.disk { faults = [] };
    outside = s.outside;
  }

  abbrev pub listed : State Outside → Result (StoreFault E) (List HistoryEntry)
  listed s = (list codec tools path passphrase (fresh s)).0

  -- The store has no key yet, or the key of its salt.
  abbrev pub Cached : State Outside → Type 0
  Cached s =
      ((s.derived_key ≡ none) × (s.salt ≡ none))
      ⊎ ((b : Bytes) × (s.derived_key ≡ some (key_of b)) × (s.salt ≡ some b) × (length b ≡ 16))

  -- The history file, if there is one, can be read, and has a salt of 16 bytes: that of the store.
  abbrev pub Fits : State Outside → Option StoredFile → Type 0
  Fits s none = Unit
  Fits s (some f) =
      (hf : HistoryFile) × (b : Bytes) × (codec.unmarshal_file f.contents ≡ some hf)
      × (codec.decode64 hf.salt_text ≡ some b)
      × (eq_text hf.salt_text [] ≡ false)
      × (length b ≡ 16)
      × ((s.salt ≡ none) ⊎ (s.salt ≡ some b))

  pub record Ready (s : State Outside) : Type 0 where
    pub cached : Cached s
    pub fits : Fits s (s.disk.files path)

  -- What List makes of the history file's entries.
  abbrev of_file :
      State Outside → Result (StoreFault E) HistoryFile → Result (StoreFault E) (List HistoryEntry)
  of_file s r =
      (and_then (r, fresh s) (λ hf s1. list_entries codec tools path passphrase hf.entries hf s1)).0

  abbrev of_stored : State Outside → Option StoredFile → Result (StoreFault E) (List HistoryEntry)
  of_stored s o = of_file s (history_of codec tools path passphrase (found (λ f. f.contents) o))

  listed_lem : (s : State Outside) → listed s ≡ of_stored s (s.disk.files path)
  unfolding list read_history read_file
  listed_lem s = refl

  pub list-absent : (s : State Outside) → s.disk.files path ≡ none → listed s ≡ ok []
  list-absent s h = listed_lem s ∙ ap (of_stored s) h

  ensured :
      (hf : HistoryFile) (s : State Outside) (b : Bytes)
      → codec.decode64 hf.salt_text ≡ some b
      → eq_text hf.salt_text [] ≡ false
      → ensure_key codec tools path passphrase hf (fresh s)
        ≡ derive codec tools path passphrase b (fresh s)
  unfolding ensure_key
  ensured hf s b e k = rw k (ap (λ o. after_decoding codec tools path passphrase o (fresh s)) e)

  by_entries :
      (b : Bytes) (hf : HistoryFile) (s : State Outside) (es : List EncryptedEntry)
      → codec.decode64 hf.salt_text ≡ some b
      → eq_text hf.salt_text [] ≡ false
      → (list_entries codec tools path passphrase es hf (fresh s)).0 ≡ ok (loop (key_of b) es)
  unfolding list_loop
  by_entries b hf s [] e k = refl
  by_entries b hf s (x ∷ es) e k =
      ap
        (λ r.
          (and_then r (λ _ s1.
            (ok (loop (or_nil codec tools path passphrase s1.derived_key) (x ∷ es)), s1))).0)
        (ensured hf s b e k)

  pub list-present :
      (s : State Outside) (f : StoredFile) (hf : HistoryFile) (b : Bytes)
      → s.disk.files path ≡ some f
      → codec.unmarshal_file f.contents ≡ some hf
      → codec.decode64 hf.salt_text ≡ some b
      → eq_text hf.salt_text [] ≡ false
      → listed s ≡ ok (loop (key_of b) hf.entries)
  list-present s f hf b there read e k =
      listed_lem s
      ∙ ap (of_stored s) there
      ∙ ap (λ o. of_file s (parsed codec tools path passphrase o)) read
      ∙ by_entries b hf s hf.entries e k

  keeping-append :
      (o : Option HistoryEntry) (xs ys : List HistoryEntry)
      → keeping codec tools path passphrase o (xs ++ ys)
        ≡ keeping codec tools path passphrase o xs ++ ys
  keeping-append none xs ys = refl
  keeping-append (some e) xs ys = refl

  -- An entry at the end that opens is listed at the end.
  pub loop-append :
      (key : Bytes) (es : List EncryptedEntry) (e : EncryptedEntry) (entry : HistoryEntry)
      → opened codec tools path passphrase key e ≡ some entry
      → loop key (es ++ e ∷ []) ≡ loop key es ++ entry ∷ []
  unfolding list_loop
  loop-append key [] e entry h = ap (λ o. keeping codec tools path passphrase o []) h
  loop-append key (x ∷ es) e entry h =
      ap (keeping codec tools path passphrase (opened codec tools path passphrase key x))
        (loop-append key es e entry h)
      ∙ keeping-append (opened codec tools path passphrase key x) (loop key es) (entry ∷ [])
