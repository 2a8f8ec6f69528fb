-- ===== src/Tests/Crypto.antt =====
-- Encryption with a cipher that only puts a byte in front.
use secret_rotator.Prelude.{
  ℕ, zero, suc, ◌≡◌, refl, sym, ◌∙◌, ap, subst, [], ◌∷◌, length, Option, none, some, arith,
}
use secret_rotator.Prelude.Result.{Result, ok, ok-injective}
use secret_rotator.Prelude.Text.{codes}
use secret_rotator.Crypto.{Bytes, Aead, encrypt, decrypt}
use secret_rotator.Crypto.Framing.{AeadLaws, Decrypts, decrypt-encrypt}

abbrev pub opened : Bytes → Option Bytes
opened [] = none
opened (c ∷ p) = some p

abbrev pub cipher : Aead
cipher = record { seal = λ nonce p. 0 ∷ p; open_sealed = λ nonce. opened }

cipher-AeadLaws : AeadLaws cipher
cipher-AeadLaws = record { open_seal = λ nonce p. refl; seal_len = λ nonce p. omega arith }

abbrev pub derive : Bytes → Bytes → Bytes
derive passphrase salt = passphrase

abbrev pub new_cipher : Bytes → Result (Unit {0}) Aead
new_cipher key = ok cipher

pub new_cipher-AeadLaws : (key : Bytes) (gcm : Aead) → new_cipher key ≡ ok gcm → AeadLaws gcm
new_cipher-AeadLaws key gcm h = subst AeadLaws (ok-injective h) cipher-AeadLaws

abbrev pub zeros : ℕ → Bytes
zeros zero = []
zeros (suc n) = 0 ∷ zeros n

pub length-zeros : (n : ℕ) → length (zeros n) ≡ n
length-zeros zero = refl
length-zeros (suc n) = ap (λ m. suc m) (length-zeros n)

abbrev pub read_zeros : ℕ → Unit {0} → Result (Unit {0}) Bytes × Unit {0}
read_zeros n w = (ok (zeros n), w)

pub zeros-full :
    (n : ℕ) (w : Unit {0}) (bytes : Bytes) → (read_zeros n w).0 ≡ ok bytes → length bytes ≡ n
zeros-full n w bytes h = ap length (sym (ok-injective h)) ∙ length-zeros n

decrypt-encrypt_example :
    Decrypts derive new_cipher read_zeros zeros-full new_cipher-AeadLaws
      (λ bytes. decrypt derive new_cipher read_zeros bytes (codes "pass"))
      (codes "secret")
      (encrypt derive new_cipher read_zeros (codes "secret") (codes "pass") tt)
decrypt-encrypt_example =
    decrypt-encrypt derive new_cipher read_zeros zeros-full new_cipher-AeadLaws (codes "secret")
      (codes "pass") tt
