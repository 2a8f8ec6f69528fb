-- ===== src/Crypto.antt =====
-- internal/infrastructure/crypto/crypto.go: the framing of encrypted data. Argon2id, AES-GCM and the
-- random source are arguments.
pub mod Framing
use secret_rotator.Prelude.{
  ℕ, zero, suc, ltb, List, [], ◌∷◌, ◌++◌, length, Option, none, some, if◌then◌else◌,
}
use secret_rotator.Prelude.Result.{Result, ok, err}
use secret_rotator.Application.Ports.{Call}

abbrev pub Bytes : Type 0
Bytes = List ℕ

abbrev pub take : {A : Type 0} → List A → ℕ → List A
take [] n = []
take (x ∷ xs) zero = []
take (x ∷ xs) (suc n) = x ∷ take xs n

abbrev pub drop : {A : Type 0} → List A → ℕ → List A
drop [] n = []
drop (x ∷ xs) zero = x ∷ xs
drop (x ∷ xs) (suc n) = drop xs n

abbrev pub salt_len : ℕ
salt_len = 16

abbrev pub nonce_len : ℕ
nonce_len = 12

-- An AEAD of a key: `Seal` and `Open` with a nonce.
pub record Aead : Type 0 where
  pub seal : Bytes → Bytes → Bytes
  pub open_sealed : Bytes → Bytes → Option Bytes

pub data CryptoError (E : Type 0) : Type 0 where
  generating_salt : E → CryptoError E
  generating_nonce : E → CryptoError E
  creating_cipher : E → CryptoError E
  decryption_failed : CryptoError E
  data_too_short : CryptoError E

module _ {W E : Type 0} (derive_key : Bytes → Bytes → Bytes) (new_gcm : Bytes → Result E Aead)
    (read_full : ℕ → Call W E Bytes) where
  -- Behind the cipher, whose creation from the key may fail.
  unfoldable pub sealed : Bytes → Bytes → Bytes → Result E Aead → Result (CryptoError E) Bytes
  sealed salt nonce plaintext (err e) = err (creating_cipher e)
  sealed salt nonce plaintext (ok gcm) = ok (salt ++ (nonce ++ gcm.seal nonce plaintext))

  unfoldable pub with_nonce :
      Bytes → Bytes → Bytes → Result E Bytes × W → Result (CryptoError E) Bytes × W
  unfolding sealed
  with_nonce plaintext key salt (err e, w) = (err (generating_nonce e), w)
  with_nonce plaintext key salt (ok nonce, w) = (sealed salt nonce plaintext (new_gcm key), w)

  -- `EncryptWithKey`.
  unfoldable pub encrypt_with_key : Bytes → Bytes → Bytes → Call W (CryptoError E) Bytes
  unfolding with_nonce
  encrypt_with_key plaintext key salt w = with_nonce plaintext key salt (read_full nonce_len w)

  unfoldable pub with_salt : Bytes → Bytes → Result E Bytes × W → Result (CryptoError E) Bytes × W
  unfolding with_nonce
  with_salt plaintext passphrase (err e, w) = (err (generating_salt e), w)
  with_salt plaintext passphrase (ok salt, w) =
      with_nonce plaintext (derive_key passphrase salt) salt (read_full nonce_len w)

  -- `Encrypt`: the salt, the nonce and the ciphertext, one behind the other.
  unfoldable pub encrypt : Bytes → Bytes → Call W (CryptoError E) Bytes
  unfolding with_salt
  encrypt plaintext passphrase w = with_salt plaintext passphrase (read_full salt_len w)

  abbrev pub plaintext_of : Option Bytes → Result (CryptoError E) Bytes
  plaintext_of none = err decryption_failed
  plaintext_of (some plaintext) = ok plaintext

  unfoldable pub unsealed : Bytes → Result E Aead → Result (CryptoError E) Bytes
  unsealed bytes (err e) = err (creating_cipher e)
  unsealed bytes (ok gcm) = plaintext_of (
      gcm.open_sealed (take (drop bytes salt_len) nonce_len) (drop (drop bytes salt_len) nonce_len))

  -- `DecryptWithKey`, which does not read the salt.
  unfoldable pub decrypt_with_key : Bytes → Bytes → Result (CryptoError E) Bytes
  unfolding unsealed
  decrypt_with_key bytes key =
      if ltb (length bytes) 29 then err data_too_short else unsealed bytes (new_gcm key)

  -- `Decrypt`, with the key of the passphrase and the salt in front.
  unfoldable pub decrypt : Bytes → Bytes → Result (CryptoError E) Bytes
  unfolding unsealed
  decrypt bytes passphrase =
      if ltb (length bytes) 29
      then err data_too_short
      else unsealed bytes (new_gcm (derive_key passphrase (take bytes salt_len)))
