-- ===== src/Credentials/Generator/Decode.antt =====
-- The alphabet and the decoding of the values of internal/infrastructure/credential/generator.go.
use secret_rotator.Prelude.{
  ℕ, ◌+◌, ◌-◌, ◌*◌, ◌/◌, ◌%◌, ◌<◌, ◌≡◌, refl, sym, ap, subst, leb, ◌==◌, ◌&&◌, List, [], ◌∷◌, All,
  arith, if◌then◌else◌,
}
use secret_rotator.Prelude.Int.{ℤ}
use secret_rotator.Prelude.Result.{Result, ok, err, ok-injective}
use secret_rotator.Prelude.Text.{Text}
use secret_rotator.Domain.Target.{Credential}
use secret_rotator.Envstore.Line.Reparse.{is_plain, Plain}
use secret_rotator.Application.Ports.{Call}
use secret_rotator.Credentials.Generator.{digit, encode, byte_count, encoded, generate}

digit-Plain : (i : ℕ) → Plain (digit i)
unfolding digit is_plain
digit-Plain i = ground arith

pub encode-Plain : (bytes : List ℕ) → All Plain (encode bytes)
unfolding encode
encode-Plain [] = tt
encode-Plain (a ∷ []) = (digit-Plain (a / 4), (digit-Plain (a % 4 * 16), tt))
encode-Plain (a ∷ b ∷ []) =
    (digit-Plain (a / 4), (digit-Plain (a % 4 * 16 + b / 16), (digit-Plain (b % 16 * 4), tt)))
encode-Plain (a ∷ b ∷ c ∷ rest) = (
  digit-Plain (a / 4),
  (
    digit-Plain (a % 4 * 16 + b / 16),
    (digit-Plain (b % 16 * 4 + c / 64), (digit-Plain (c % 64), encode-Plain rest)),
  ),
)

add_zero : (n : ℕ) → n + 0 ≡ n
add_zero n = omega arith

cons_cong : {x y : ℕ} {xs ys : List ℕ} → x ≡ y → xs ≡ ys → x ∷ xs ≡ y ∷ ys
cons_cong p q = cc

-- The value of a digit.
abbrev digit_value : ℕ → ℕ
digit_value c =
    if leb b'a' c && leb c b'z'
    then c - b'a' + 26
    else if leb b'A' c && leb c b'Z'
    then c - b'A'
    else if leb b'0' c && leb c b'9'
    then c - b'0' + 52
    else if c == b'-'
    then 62
    else 63

digit_value-digit : (i : ℕ) → i < 64 → digit_value (digit i) ≡ i
unfolding digit
digit_value-digit i h = ground arith

abbrev first_byte : ℕ → ℕ → ℕ
first_byte p q = digit_value p * 4 + digit_value q / 16

abbrev second_byte : ℕ → ℕ → ℕ
second_byte q r = digit_value q % 16 * 16 + digit_value r / 4

abbrev third_byte : ℕ → ℕ → ℕ
third_byte r s = digit_value r % 4 * 64 + digit_value s

first_byte-digit :
    (a x : ℕ) → a < 256 → x < 16 → first_byte (digit (a / 4)) (digit (a % 4 * 16 + x)) ≡ a
first_byte-digit a x p q =
    let e : a / 4 * 4 + (a % 4 * 16 + x) / 16 ≡ a = omega arith in
    rw (digit_value-digit (a / 4) (omega arith), digit_value-digit (a % 4 * 16 + x) (omega arith)) e

second_byte-digit :
    (x b y : ℕ)
    → x < 4
    → b < 256
    → y < 4
    → second_byte (digit (x * 16 + b / 16)) (digit (b % 16 * 4 + y)) ≡ b
second_byte-digit x b y p q r =
    let e : (x * 16 + b / 16) % 16 * 16 + (b % 16 * 4 + y) / 4 ≡ b = omega arith in
    rw
      (
        digit_value-digit (x * 16 + b / 16) (omega arith),
        digit_value-digit (b % 16 * 4 + y) (omega arith),
      )
      e

third_byte-digit :
    (x c : ℕ) → x < 16 → c < 256 → third_byte (digit (x * 4 + c / 64)) (digit (c % 64)) ≡ c
third_byte-digit x c p q =
    let e : (x * 4 + c / 64) % 4 * 64 + c % 64 ≡ c = omega arith in
    rw (digit_value-digit (x * 4 + c / 64) (omega arith), digit_value-digit (c % 64) (omega arith))
      e

-- The bytes that a text of such digits stands for.
abbrev pub decode : Text → List ℕ
decode [] = []
decode (p ∷ []) = []
decode (p ∷ q ∷ []) = first_byte p q ∷ []
decode (p ∷ q ∷ r ∷ []) = first_byte p q ∷ second_byte q r ∷ []
decode (p ∷ q ∷ r ∷ s ∷ rest) = first_byte p q ∷ second_byte q r ∷ third_byte r s ∷ decode rest

abbrev pub IsByte : ℕ → Type 0
IsByte b = b < 256

pub decode-encode : (bytes : List ℕ) → All IsByte bytes → decode (encode bytes) ≡ bytes
unfolding encode
decode-encode [] h = refl
decode-encode (a ∷ []) (p, h) =
    cons_cong (rw (add_zero (a % 4 * 16)) at (first_byte-digit a 0 p (omega arith))) refl
decode-encode (a ∷ b ∷ []) (p, (q, h)) = cons_cong (first_byte-digit a (b / 16) p (omega arith)) (
    cons_cong
      (rw (add_zero (b % 16 * 4)) at (second_byte-digit (a % 4) b 0 (omega arith) q (omega arith)))
      refl)
decode-encode (a ∷ b ∷ c ∷ rest) (p, (q, (r, h))) =
    cons_cong (first_byte-digit a (b / 16) p (omega arith)) (
      cons_cong (second_byte-digit (a % 4) b (c / 64) (omega arith) q (omega arith))
        (cons_cong (third_byte-digit (b % 16) c (omega arith) r) (decode-encode rest h)))

module _ {W E : Type 0} (read_random : ℕ → Call W E (List ℕ)) where
  encoded-decode :
      (x : Result E (List ℕ) × W) (c : Credential)
      → ((bytes : List ℕ) → x.0 ≡ ok bytes → All IsByte bytes)
      → (encoded read_random x).0 ≡ ok c
      → All Plain c × (x.0 ≡ ok (decode c))
  unfolding encoded
  encoded-decode (err e, w) c h k = cc
  encoded-decode (ok bytes, w) c h k =
      let e : encode bytes ≡ c = ok-injective k in
      (
        rw (sym e) (encode-Plain bytes),
        rw (sym e) (ap ok (sym (decode-encode bytes (h bytes refl)))),
      )

  -- A value that the generator returns is made of URL-safe base64 characters, and it decodes to
  -- exactly the random bytes that were read for it.
  pub generate-decode :
      (n : ℤ) (w : W) (c : Credential)
      → ((bytes : List ℕ) → (read_random (byte_count n) w).0 ≡ ok bytes → All IsByte bytes)
      → (generate read_random n w).0 ≡ ok c
      → All Plain c × ((read_random (byte_count n) w).0 ≡ ok (decode c))
  unfolding generate
  generate-decode n w c h k = encoded-decode (read_random (byte_count n) w) c h k

  encoded-Plain :
      (x : Result E (List ℕ) × W) (c : Credential) → (encoded read_random x).0 ≡ ok c → All Plain c
  unfolding encoded
  encoded-Plain (err e, w) c k = cc
  encoded-Plain (ok bytes, w) c k = subst (All Plain) (ok-injective k) (encode-Plain bytes)

  pub generate-Plain :
      (n : ℤ) (w : W) (c : Credential) → (generate read_random n w).0 ≡ ok c → All Plain c
  unfolding generate
  generate-Plain n w c k = encoded-Plain (read_random (byte_count n) w) c k
