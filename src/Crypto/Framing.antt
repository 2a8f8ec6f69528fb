-- ===== src/Crypto/Framing.antt =====
-- Encryption followed by decryption, in internal/infrastructure/crypto/crypto.go.
use secret_rotator.Prelude.{
  ℕ, zero, suc, ◌+◌, ◌≤◌, ltb, ◌≡◌, refl, ◌∙◌, ap, false, [], ◌∷◌, ◌++◌, length, some, arith,
}
use secret_rotator.Prelude.Result.{Result, ok, err}
use secret_rotator.Application.Ports.{Call}
use secret_rotator.Crypto.{
  Bytes, take, drop, salt_len, nonce_len, Aead, CryptoError, sealed, with_nonce, encrypt_with_key,
  with_salt, encrypt, unsealed, decrypt_with_key, decrypt,
}

take-append : (xs ys : Bytes) (n : ℕ) → length xs ≡ n → take (xs ++ ys) n ≡ xs
take-append [] [] n h = refl
take-append [] (y ∷ ys) zero h = refl
take-append [] (y ∷ ys) (suc n) h = ground arith
take-append (x ∷ xs) ys zero h = ground arith
take-append (x ∷ xs) ys (suc n) h = ap (λ r. x ∷ r) (take-append xs ys n (omega arith))

drop-append : (xs ys : Bytes) (n : ℕ) → length xs ≡ n → drop (xs ++ ys) n ≡ ys
drop-append [] [] n h = refl
drop-append [] (y ∷ ys) zero h = refl
drop-append [] (y ∷ ys) (suc n) h = ground arith
drop-append (x ∷ xs) ys zero h = ground arith
drop-append (x ∷ xs) ys (suc n) h = drop-append xs ys n (omega arith)

length-append : (xs ys : Bytes) → length (xs ++ ys) ≡ length xs + length ys
length-append [] ys = omega arith
length-append (x ∷ xs) ys = let e = length-append xs ys in omega arith

-- Opening gives back what was sealed, and a ciphertext is not empty.
pub record AeadLaws (gcm : Aead) : Type 0 where
  pub open_seal :
      (nonce plaintext : Bytes) → gcm.open_sealed nonce (gcm.seal nonce plaintext) ≡ some plaintext
  pub seal_len : (nonce plaintext : Bytes) → 1 ≤ length (gcm.seal nonce plaintext)

module _ {W E : Type 0} (derive_key : Bytes → Bytes → Bytes) (new_gcm : Bytes → Result E Aead)
    (read_full : ℕ → Call W E Bytes)
    (full : (n : ℕ) (w : W) (bytes : Bytes) → (read_full n w).0 ≡ ok bytes → length bytes ≡ n)
    (gcm_laws : (key : Bytes) (gcm : Aead) → new_gcm key ≡ ok gcm → AeadLaws gcm) where
  -- The parts of a frame.
  frame-parts :
      (salt nonce pt : Bytes) (gcm : Aead)
      → length salt ≡ 16
      → length nonce ≡ 12
      → AeadLaws gcm
      → let bytes = salt ++ (nonce ++ gcm.seal nonce pt) in
        (ltb (length bytes) 29 ≡ false)
        × (take bytes salt_len ≡ salt)
        × (unsealed derive_key new_gcm read_full bytes (ok gcm) ≡ ok pt)
  unfolding unsealed
  frame-parts salt nonce pt gcm s n laws =
      let ct = gcm.seal nonce pt in
      let long = laws.seal_len nonce pt in
      let e = length-append salt (nonce ++ ct) in
      let k = length-append nonce ct in
      (
        ground arith,
        take-append salt (nonce ++ ct) 16 s,
        rw
            (
              drop-append salt (nonce ++ ct) 16 s,
              take-append nonce ct 12 n,
              drop-append nonce ct 12 n,
              laws.open_seal nonce pt,
            )
            refl,
      )

  -- What encryption returns is decrypted to the plaintext.
  abbrev pub Decrypts :
      (Bytes → Result (CryptoError E) Bytes) → Bytes → Result (CryptoError E) Bytes × W → Type 0
  Decrypts dec pt (err e, w) = Unit
  Decrypts dec pt (ok bytes, w) = dec bytes ≡ ok pt

  module _ (pt key salt : Bytes) (s : length salt ≡ 16) where
    sealed-Decrypts :
        (dec : Bytes → Result (CryptoError E) Bytes) (nonce : Bytes) (w : W) (x : Result E Aead)
        → length nonce ≡ 12
        → new_gcm key ≡ x
        → ((bytes : Bytes)
            → ltb (length bytes) 29 ≡ false
            → take bytes salt_len ≡ salt
            → dec bytes ≡ unsealed derive_key new_gcm read_full bytes (new_gcm key))
        → Decrypts dec pt (sealed derive_key new_gcm read_full salt nonce pt x, w)
    unfolding sealed
    sealed-Decrypts dec nonce w (err e) n h by = tt
    sealed-Decrypts dec nonce w (ok gcm) n h by =
        let (long, front, back) = frame-parts salt nonce pt gcm s n (gcm_laws key gcm h) in
        by _ long front ∙ ap (unsealed derive_key new_gcm read_full _) h ∙ back

    with_nonce-Decrypts :
        (dec : Bytes → Result (CryptoError E) Bytes) (w0 : W) (x : Result E Bytes × W)
        → read_full nonce_len w0 ≡ x
        → ((bytes : Bytes)
            → ltb (length bytes) 29 ≡ false
            → take bytes salt_len ≡ salt
            → dec bytes ≡ unsealed derive_key new_gcm read_full bytes (new_gcm key))
        → Decrypts dec pt (with_nonce derive_key new_gcm read_full pt key salt x)
    unfolding with_nonce
    with_nonce-Decrypts dec w0 (err e, w) h by = tt
    with_nonce-Decrypts dec w0 (ok nonce, w) h by =
        sealed-Decrypts dec nonce w (new_gcm key) (full nonce_len w0 nonce (ap (λ y. y.0) h)) refl
          by

    -- If a random read returns as many bytes as it was asked for, and the cipher of a key opens
    -- what it sealed and seals into at least one byte, then whatever EncryptWithKey returns for a
    -- plaintext, a key and a salt of 16 bytes, DecryptWithKey with that key returns the plaintext.
    pub decrypt_with_key-encrypt_with_key :
        (w : W)
        → Decrypts
            (λ bytes. decrypt_with_key derive_key new_gcm read_full bytes key)
            pt
            (encrypt_with_key derive_key new_gcm read_full pt key salt w)
    unfolding encrypt_with_key decrypt_with_key
    decrypt_with_key-encrypt_with_key w =
        with_nonce-Decrypts _ w (read_full nonce_len w) refl (λ bytes long front. rw long refl)

  with_salt-Decrypts :
      (pt passphrase : Bytes) (w0 : W) (x : Result E Bytes × W)
      → read_full salt_len w0 ≡ x
      → Decrypts
          (λ bytes. decrypt derive_key new_gcm read_full bytes passphrase)
          pt
          (with_salt derive_key new_gcm read_full pt passphrase x)
  unfolding with_salt decrypt
  with_salt-Decrypts pt passphrase w0 (err e, w) h = tt
  with_salt-Decrypts pt passphrase w0 (ok salt, w) h =
      with_nonce-Decrypts pt (derive_key passphrase salt) salt
        (full salt_len w0 salt (ap (λ y. y.0) h)) _ w (read_full nonce_len w) refl
        (λ bytes long front. rw (long, front) refl)

  -- Whatever Encrypt returns for a plaintext and a passphrase, Decrypt with that passphrase
  -- returns the plaintext, if a random read returns as many bytes as it was asked for, and the
  -- cipher of a key opens what it sealed and seals into at least one byte.
  pub decrypt-encrypt :
      (pt passphrase : Bytes) (w : W)
      → Decrypts
          (λ bytes. decrypt derive_key new_gcm read_full bytes passphrase)
          pt
          (encrypt derive_key new_gcm read_full pt passphrase w)
  unfolding encrypt
  decrypt-encrypt pt passphrase w = with_salt-Decrypts pt passphrase w (read_full salt_len w) refl
