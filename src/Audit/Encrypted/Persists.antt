-- ===== src/Audit/Encrypted/Persists.antt =====
-- The whole Append of internal/infrastructure/audit/store.go, from a store that is in order.
use secret_rotator.Prelude.{
  ◌≡◌, refl, sym, subst, ◌∙◌, ap, ◌⊎◌, inl, inr, true, false, List, [], All, length, Option, none,
  some, Option-cases,
}
use secret_rotator.Prelude.Result.{Result, ok, err}
use secret_rotator.Prelude.Text.{Text, eq_text, eq_text_refl}
use secret_rotator.Application.Calls.{and_then}
use secret_rotator.Envstore.Disk.{
  StoredFile, OsError, not_exist, exist, io_failure, Disk, read_file,
}
use secret_rotator.Crypto.{Bytes, salt_len}
use secret_rotator.Audit.{HistoryEntry}
use secret_rotator.Audit.Encrypted.{
  HistoryFile, Codec, Tools, StoreFault, State, Op, no_history, parsed, history_of, with_disk,
  read_history, after_random, with_salt, after_decoding, without_key, by_key, ensure_key,
  with_plaintext, append, list_loop,
}
use secret_rotator.Audit.Encrypted.Replace.{Same, Read, read_file-Read}
use secret_rotator.Audit.Encrypted.Listing.{listed, Cached, Ready, list-absent, list-present}
use secret_rotator.Audit.Encrypted.Append.{
  CodecLaws, ToolLaws, entries_by, Outcome, Keyed, plaintext-Outcome,
}

module _ {Outside E : Type 0} (codec : Codec) (tools : Tools Outside E) (path : Text)
    (passphrase : Bytes) (entry : HistoryEntry) (codec_laws : CodecLaws codec entry)
    (tool_laws : ToolLaws tools) where
  abbrev past_by : Bytes → HistoryFile → List HistoryEntry
  past_by = entries_by codec tools path passphrase entry codec_laws tool_laws

  abbrev Came :
      State Outside → List HistoryEntry → Result (StoreFault E) (Unit {0}) × State Outside → Type 0
  Came = Outcome codec tools path passphrase entry codec_laws tool_laws

  abbrev HasKey : State Outside → Bytes → Type 0
  HasKey = Keyed codec tools path passphrase entry codec_laws tool_laws

  -- The salt that a file brings, and what its entries are under the key of that salt.
  abbrev Brings : HistoryFile → Option Bytes → List HistoryEntry → Type 0
  Brings hf cached before =
      ((eq_text hf.salt_text [] ≡ true) × ((b : Bytes) → past_by b hf ≡ before))
      ⊎ ((b : Bytes) × (codec.decode64 hf.salt_text ≡ some b)
          × (eq_text hf.salt_text [] ≡ false)
          × (length b ≡ 16)
          × ((cached ≡ none) ⊎ (cached ≡ some b))
          × (past_by b hf ≡ before))

  abbrev Ensured :
      State Outside
      → HistoryFile
      → List HistoryEntry
      → Result (StoreFault E) (Unit {0}) × State Outside
      → Type 0
  Ensured s hf before (err e, s2) = s2.disk ≡ s.disk
  Ensured s hf before (ok _, s2) =
      (s2.disk ≡ s.disk) × (b : Bytes) × HasKey s2 b × (past_by b hf ≡ before)

  random-Ensured :
      (s : State Outside) (hf : HistoryFile) (before : List HistoryEntry)
      → ((b : Bytes) → past_by b hf ≡ before)
      → (r : Result E Bytes × Outside) → tools.read_full salt_len s.outside ≡ r
      → Ensured s hf before (after_random codec tools path passphrase s r)
  random-Ensured s hf before past (err e, o) h = refl
  random-Ensured s hf before past (ok salt, o) h = (
    refl,
    salt,
    (refl, refl, tool_laws.full_law salt_len s.outside salt (ap (λ r. r.0) h)),
    past salt,
  )

  without_key-Ensured :
      (s : State Outside) (hf : HistoryFile) (before : List HistoryEntry)
      → s.salt ≡ none
      → Brings hf s.salt before
      → Ensured s hf before (without_key codec tools path passphrase hf s)
  without_key-Ensured s hf before nosalt (inl (empty, past)) = rw empty (
      subst (λ (o : Option Bytes). Ensured s hf before (with_salt codec tools path passphrase o s))
        (sym nosalt) (random-Ensured s hf before past (tools.read_full salt_len s.outside) refl))
  without_key-Ensured s hf before nosalt (inr (b, decoded, filled, len, _, past)) = rw filled (
      subst
        (λ (o : Option Bytes). Ensured s hf before (after_decoding codec tools path passphrase o s))
        (sym decoded) (refl, b, (refl, refl, len), past))

  ensure_key-Ensured :
      (s : State Outside) (hf : HistoryFile) (before : List HistoryEntry)
      → Cached codec tools path passphrase s
      → Brings hf s.salt before
      → Ensured s hf before (ensure_key codec tools path passphrase hf s)
  unfolding ensure_key
  ensure_key-Ensured s hf before (inl (nokey, nosalt)) brings =
      subst (λ (o : Option Bytes). Ensured s hf before (by_key codec tools path passphrase o hf s))
        (sym nokey) (without_key-Ensured s hf before nosalt brings)
  ensure_key-Ensured s hf before (inr (b, key, salt, len)) brings =
      subst (λ (o : Option Bytes). Ensured s hf before (by_key codec tools path passphrase o hf s))
        (sym key) (refl, b, (key, salt, len), past brings)
    where
      past : Brings hf s.salt before → past_by b hf ≡ before
      past (inl (_, h)) = h b
      past (inr (b', _, _, _, inl none_cached, h)) =
          let clash : none ≡ some b = sym none_cached ∙ salt in cc
      past (inr (b', _, _, _, inr cached, h)) =
          let same : some b ≡ some b' = sym salt ∙ cached in
          let eq : b ≡ b' = cc in ap (λ (x : Bytes). past_by x hf) eq ∙ h

  module _ (s : State Outside) (before : List HistoryEntry)
      (temps : All (λ tmp. eq_text tmp path ≡ false) s.disk.temps) where
    keyed-Came :
        (hf : HistoryFile) (s1 : State Outside)
        → Same s.disk s1.disk
        → (r : Result (StoreFault E) (Unit {0}) × State Outside) → Ensured s1 hf before r
        → Came s before (
            and_then r (λ _ s2.
              with_plaintext codec tools path passphrase hf (codec.marshal_entry entry) s2))
    keyed-Came hf s1 (files, left) (err e, s2) h = λ q. ap (λ (d : Disk). d.files q) h ∙ files q
    keyed-Came hf s1 (files, left) (ok _, s2) (h, b, keyed, past) =
        plaintext-Outcome codec tools path passphrase entry codec_laws tool_laws s before hf s2
          (λ q. ap (λ (d : Disk). d.files q) h ∙ files q) (rw (h, left) temps) b keyed past
          (codec.marshal_entry entry) refl

    abbrev rest : HistoryFile → Op codec tools path passphrase (Unit {0})
    rest hf s1 =
        and_then (ensure_key codec tools path passphrase hf s1)
          (λ _ s2. with_plaintext codec tools path passphrase hf (codec.marshal_entry entry) s2)

    read-Came :
        (hf : HistoryFile) (d : Disk)
        → Same s.disk d
        → Cached codec tools path passphrase s
        → Brings hf s.salt before
        → Came s before (rest hf (record s { disk = d }))
    read-Came hf d same cached brings =
        keyed-Came hf (record s { disk = d }) same
          (ensure_key codec tools path passphrase hf (record s { disk = d }))
          (ensure_key-Ensured (record s { disk = d }) hf before cached brings)

    -- What stands at the path, and what it brings.
    abbrev Stands : Option StoredFile → Type 0
    Stands none = before ≡ []
    Stands (some f) =
        (hf : HistoryFile) × (codec.unmarshal_file f.contents ≡ some hf) × Brings hf s.salt before

    history-Came :
        (r : Result OsError Text × Disk)
        → Read path s.disk r
        → Cached codec tools path passphrase s
        → Stands (s.disk.files path)
        → Came s before (
            and_then
              (with_disk codec tools path passphrase (history_of codec tools path passphrase) s r)
              rest)
    unfolding list_loop
    history-Came (err not_exist, d) (same, absent) cached stands =
        read-Came no_history d same cached (inl (eq_text_refl [], λ b. sym (rw absent at stands)))
    history-Came (err exist, d) (files, _) cached stands = files
    history-Came (err io_failure, d) (files, _) cached stands = files
    history-Came (ok text, d) (same, (f, there, contents)) cached stands =
        let (hf, parse, brings) = (rw there at stands) in
        subst
          (λ (o : Option HistoryFile).
            Came s before
              (and_then (parsed codec tools path passphrase o, record s { disk = d }) rest))
          (sym (ap codec.unmarshal_file contents ∙ parse)) (read-Came hf d same cached brings)

  -- For a store that is in order, a CreateTemp that picks no name of the history file, codecs that
  -- read back what they wrote and a cipher that opens what it sealed: a new store lists the
  -- entries before an Append; an Append that fails changes no file; behind one that succeeds the
  -- store is in order, and a new store lists the same entries and the appended one behind them.
  pub append-Listed :
      (s : State Outside)
      → Ready codec tools path passphrase s
      → All (λ tmp. eq_text tmp path ≡ false) s.disk.temps
      → (before : List HistoryEntry) × (listed codec tools path passphrase s ≡ ok before)
        × Came s before (append codec tools path passphrase entry s)
  unfolding append read_history
  append-Listed s ready temps = elim (Option-cases (s.disk.files path)) [
    | inl absent ↦ (
      [],
      list-absent codec tools path passphrase s absent,
      history-Came s [] temps (read_file path s.disk) (read_file-Read path s.disk) ready.cached
          (rw absent refl),
    )
    | inr (f, there) ↦
        let (hf, b, parse, decoded, filled, len, cached) = (rw there at ready.fits) in
        (
          past_by b hf,
          list-present codec tools path passphrase s f hf b there parse decoded filled,
          history-Came s (past_by b hf) temps (read_file path s.disk) (read_file-Read path s.disk)
              ready.cached (rw there (hf, parse, inr (b, decoded, filled, len, cached, refl))),
        )
  ]
