-- ===== src/Audit/Encrypted/Append.antt =====
-- Append and List of internal/infrastructure/audit/store.go: what was appended is listed.
use secret_rotator.Prelude.{
  ℕ, ◌≡◌, refl, sym, subst, ◌∙◌, ap, inr, false, List, [], ◌∷◌, ◌++◌, All, length, Option, none,
  some,
}
use secret_rotator.Prelude.Result.{Result, ok, err}
use secret_rotator.Prelude.Text.{Text, eq_text}
use secret_rotator.Envstore.Disk.{Disk, mkdir_all}
use secret_rotator.Envstore.Disk.Calls.{Holds, put-at}
use secret_rotator.Crypto.{Bytes, Aead, CryptoError, encrypt_with_key, decrypt_with_key}
use secret_rotator.Crypto.Framing.{AeadLaws, Decrypts, decrypt_with_key-encrypt_with_key}
use secret_rotator.Audit.{HistoryEntry}
use secret_rotator.Audit.Encrypted.{
  EncryptedEntry, HistoryFile, Codec, Tools, StoreFault, State, with_disk, after_mkdir, write_text,
  salted, write_history, after_encryption, or_nil, with_plaintext, entry_in, decrypted, opened,
}
use secret_rotator.Audit.Encrypted.Replace.{history_file, Written, after_mkdir-Written}
use secret_rotator.Audit.Encrypted.Listing.{loop, key_of, listed, Ready, list-present, loop-append}

-- What the codecs do to each other, on the entry that is appended.
pub record CodecLaws (codec : Codec) (entry : HistoryEntry) : Type 0 where
  pub entry_law :
      (b : Bytes) → codec.marshal_entry entry ≡ some b → codec.unmarshal_entry b ≡ some entry
  pub file_law :
      (hf : HistoryFile) (text : Text)
      → codec.marshal_file hf ≡ some text
      → codec.unmarshal_file text ≡ some hf
  pub decode_law : (b : Bytes) → codec.decode64 (codec.encode64 b) ≡ some b
  pub encode_law : (b : Bytes) → length b ≡ 16 → eq_text (codec.encode64 b) [] ≡ false

pub record ToolLaws {Outside E : Type 0} (tools : Tools Outside E) : Type 0 where
  pub full_law :
      (n : ℕ) (o : Outside) (bytes : Bytes) → (tools.read_full n o).0 ≡ ok bytes → length bytes ≡ n
  pub gcm_law : (key : Bytes) (gcm : Aead) → tools.new_gcm key ≡ ok gcm → AeadLaws gcm

module _ {Outside E : Type 0} (codec : Codec) (tools : Tools Outside E) (path : Text)
    (passphrase : Bytes) (entry : HistoryEntry) (codec_laws : CodecLaws codec entry)
    (tool_laws : ToolLaws tools) where
  open codec_laws use {entry_law, file_law, decode_law, encode_law}
  open tool_laws use {full_law, gcm_law}

  abbrev pub lists : State Outside → Result (StoreFault E) (List HistoryEntry)
  lists = listed codec tools path passphrase

  abbrev pub entries_by : Bytes → HistoryFile → List HistoryEntry
  entries_by b hf =
      loop codec tools path passphrase (key_of codec tools path passphrase b) hf.entries

  -- An Append that fails changes no file; behind one that succeeds the store is in order, and a new
  -- store lists the entry behind those before.
  abbrev pub Outcome :
      State Outside → List HistoryEntry → Result (StoreFault E) (Unit {0}) × State Outside → Type 0
  Outcome s before (err e, s') = Holds s.disk.files s'.disk
  Outcome s before (ok _, s') =
      Ready codec tools path passphrase s' × (lists s' ≡ ok (before ++ entry ∷ []))

  -- The store has the key of the salt `b`.
  abbrev pub Keyed : State Outside → Bytes → Type 0
  Keyed s b =
      (s.derived_key ≡ some (key_of codec tools path passphrase b))
      × (s.salt ≡ some b)
      × (length b ≡ 16)

  module _ (s : State Outside) (before : List HistoryEntry) (hf : HistoryFile) where
    module _ (s2 : State Outside) (same : Holds s.disk.files s2.disk)
        (temps : All (λ tmp. eq_text tmp path ≡ false) s2.disk.temps) (b : Bytes)
        (keyed : Keyed s2 b) (past : entries_by b hf ≡ before) (e : EncryptedEntry)
        (opens : opened codec tools path passphrase (key_of codec tools path passphrase b) e
          ≡ some entry) where
      abbrev next : HistoryFile
      next = record hf { salt_text = codec.encode64 b; entries = hf.entries ++ e ∷ [] }

      replaced-Outcome :
          (text : Text)
          → codec.marshal_file next ≡ some text
          → (r : Result (StoreFault E) (Unit {0}) × Disk)
          → Written codec tools path passphrase text s2.disk.files r
          → Outcome s before (with_disk codec tools path passphrase (λ x. x) s2 r)
      replaced-Outcome text m (err x, d) h = λ q. h q ∙ same q
      replaced-Outcome text m (ok _, d) h =
          let f = history_file codec tools path passphrase text s2.disk.files in
          let s' = record s2 { disk = d } in
          let there : d.files path ≡ some f = h path ∙ put-at path f s2.disk.files in
          let parse = file_law next text m in
          let salt = decode_law b in
          let filled = encode_law b keyed.2 in
          (
            record {
              cached = inr (b, keyed.0, keyed.1, keyed.2);
              fits = rw there (next, b, parse, salt, filled, keyed.2, inr keyed.1);
            },
            list-present codec tools path passphrase s' f next b there parse salt filled
                ∙ ap (λ (es : List HistoryEntry). ok es)
                    (loop-append codec tools path passphrase (key_of codec tools path passphrase b)
                        hf.entries e entry opens
                      ∙ ap (λ es. es ++ entry ∷ []) past),
          )

      write-Outcome :
          (o : Option Text)
          → codec.marshal_file next ≡ o
          → Outcome s before (write_text codec tools path passphrase o s2)
      write-Outcome none m = same
      write-Outcome (some text) m =
          replaced-Outcome text m (after_mkdir codec tools path passphrase text (mkdir_all s2.disk))
            (after_mkdir-Written codec tools path passphrase text s2.disk.files s2.disk (λ q. refl)
              temps)

    module _ (s2 : State Outside) (same : Holds s.disk.files s2.disk)
        (temps : All (λ tmp. eq_text tmp path ≡ false) s2.disk.temps) (b : Bytes)
        (keyed : Keyed s2 b) (past : entries_by b hf ≡ before) where
      abbrev key : Bytes
      key = key_of codec tools path passphrase b

      opens :
          (plain bytes : Bytes) (time : Text)
          → codec.marshal_entry entry ≡ some plain
          → decrypt_with_key tools.derive_key tools.new_gcm tools.read_full bytes key ≡ ok plain
          → opened codec tools path passphrase key
              (record { payload = codec.encode64 bytes; created_at = time })
            ≡ some entry
      opens plain bytes time m h =
          ap (decrypted codec tools path passphrase key) (decode_law bytes)
          ∙ ap (entry_in codec tools path passphrase) h
          ∙ entry_law plain m

      encrypted-Outcome :
          (plain : Bytes)
          → codec.marshal_entry entry ≡ some plain
          → (r : Result (CryptoError E) Bytes × Outside)
          → Decrypts tools.derive_key tools.new_gcm tools.read_full full_law gcm_law
              (λ bytes. decrypt_with_key tools.derive_key tools.new_gcm tools.read_full bytes key)
              plain
              r
          → Outcome s before (after_encryption codec tools path passphrase hf s2 r)
      unfolding write_history
      encrypted-Outcome plain m (err x, o) h = same
      encrypted-Outcome plain m (ok bytes, o) h =
          let (time, o') = tools.now_text o in
          let e : EncryptedEntry = record { payload = codec.encode64 bytes; created_at = time } in
          let s3 = record s2 { outside = o' } in
          subst
            (λ (salt : Option Bytes). Outcome s before (
              write_text codec tools path passphrase
                (codec.marshal_file (
                  salted codec tools path passphrase (record hf { entries = hf.entries ++ e ∷ [] })
                    salt))
                s3))
            (sym keyed.1)
            (write-Outcome s3 same temps b keyed past e (opens plain bytes time m h)
              (codec.marshal_file
                (record hf { salt_text = codec.encode64 b; entries = hf.entries ++ e ∷ [] }))
              refl)

      pub plaintext-Outcome :
          (o : Option Bytes)
          → codec.marshal_entry entry ≡ o
          → Outcome s before (with_plaintext codec tools path passphrase hf o s2)
      plaintext-Outcome none m = same
      plaintext-Outcome (some plain) m =
          let at = λ (k salt : Option Bytes). Outcome s before (
            after_encryption codec tools path passphrase hf s2 (
              encrypt_with_key tools.derive_key tools.new_gcm tools.read_full plain
                (or_nil codec tools path passphrase k) (or_nil codec tools path passphrase salt)
                s2.outside)) in
          subst (λ k. at k s2.salt) (sym keyed.0)
            (subst (at (some key)) (sym keyed.1) (
              encrypted-Outcome plain m
                (encrypt_with_key tools.derive_key tools.new_gcm tools.read_full plain key b
                  s2.outside)
                (decrypt_with_key-encrypt_with_key tools.derive_key tools.new_gcm tools.read_full
                  full_law gcm_law plain key b keyed.2 s2.outside)))
