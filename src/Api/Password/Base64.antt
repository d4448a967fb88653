-- ===== src/Api/Password/Base64.antt =====
-- What is encoded is decoded.
use oarlock.Prelude.{
  ℕ, ◌+◌, ◌*◌, ◌/◌, ◌%◌, ◌≡◌, ◌<◌, refl, ap, ◌∙◌, map, Text, false, some, List, [], ◌∷◌, ◌==◌, ◌||◌,
  arith,
}
use oarlock.Api.Password.{digit, digit_value, encode, digit_values, bytes_of, decode}

digit-value : (n : ℕ) → n < 64 → digit_value (digit n) ≡ some n
unfolding digit digit_value
digit-value n h = ground arith

-- A digit is none of the bytes that the parts of a hash and the decoder treat apart.
pub digit-plain : (n : ℕ) → ((digit n == b'$') ≡ false) × ((digit n == 10 || digit n == 13) ≡ false)
unfolding digit
digit-plain n = (ground arith, ground arith)

-- The bytes of a text of Go.
pub data IsBytes : Text → Type 0 where
  nil : IsBytes []
  cons : {b : ℕ} {s : Text} → b < 256 → IsBytes s → IsBytes (b ∷ s)

pub sextets : Text → List ℕ
sextets [] = []
sextets (a ∷ []) = a / 4 ∷ a % 4 * 16 ∷ []
sextets (a ∷ b ∷ []) = a / 4 ∷ (a % 4 * 16 + b / 16) ∷ b % 16 * 4 ∷ []
sextets (a ∷ b ∷ c ∷ s) = a / 4 ∷ (a % 4 * 16 + b / 16) ∷ (b % 16 * 4 + c / 64) ∷ c % 64 ∷ sextets s

pub encode-sextets : (s : Text) → encode s ≡ map digit (sextets s)
unfolding encode sextets
encode-sextets [] = refl
encode-sextets (a ∷ []) = refl
encode-sextets (a ∷ b ∷ []) = refl
encode-sextets (a ∷ b ∷ c ∷ s) =
    ap
      (λ (l : Text).
        digit (a / 4)
        ∷ digit (a % 4 * 16 + b / 16)
        ∷ digit (b % 16 * 4 + c / 64)
        ∷ digit (c % 64)
        ∷ l)
      (encode-sextets s)

-- Numbers of six bits.
data AreSmall : List ℕ → Type 0 where
  nil : AreSmall []
  cons : {v : ℕ} {vs : List ℕ} → v < 64 → AreSmall vs → AreSmall (v ∷ vs)

sextets-AreSmall : (s : Text) → IsBytes s → AreSmall (sextets s)
unfolding sextets
sextets-AreSmall [] h = AreSmall.nil
sextets-AreSmall (a ∷ []) (IsBytes.cons p _) =
    AreSmall.cons (omega arith) (AreSmall.cons (omega arith) AreSmall.nil)
sextets-AreSmall (a ∷ b ∷ []) (IsBytes.cons p (IsBytes.cons q _)) =
    AreSmall.cons (omega arith)
      (AreSmall.cons (omega arith) (AreSmall.cons (omega arith) AreSmall.nil))
sextets-AreSmall (a ∷ b ∷ c ∷ s) (IsBytes.cons p (IsBytes.cons q (IsBytes.cons r h))) =
    AreSmall.cons (omega arith) (
      AreSmall.cons (omega arith)
        (AreSmall.cons (omega arith) (AreSmall.cons (omega arith) (sextets-AreSmall s h))))

digit_values-digits : (vs : List ℕ) → AreSmall vs → digit_values (map digit vs) ≡ some vs
unfolding digit_values
digit_values-digits [] h = refl
digit_values-digits (v ∷ vs) (AreSmall.cons p h) =
    rw ((digit-plain v).1, digit-value v p, digit_values-digits vs h)

bytes_of-cons :
    (v w x y : ℕ) (vs : List ℕ) (s : Text)
    → bytes_of vs ≡ some s
    → bytes_of (v ∷ w ∷ x ∷ y ∷ vs)
      ≡ some ((v * 4 + w / 16) ∷ (w % 16 * 16 + x / 4) ∷ (x % 4 * 64 + y) ∷ s)
unfolding bytes_of
bytes_of-cons v w x y vs s e = rw e

bytes_of-sextets : (s : Text) → IsBytes s → bytes_of (sextets s) ≡ some s
unfolding sextets bytes_of
bytes_of-sextets [] h = refl
bytes_of-sextets (a ∷ []) (IsBytes.cons p _) =
    let first : a / 4 * 4 + a % 4 * 16 / 16 ≡ a = omega arith in rw first
bytes_of-sextets (a ∷ b ∷ []) (IsBytes.cons p (IsBytes.cons q _)) =
    let first : a / 4 * 4 + (a % 4 * 16 + b / 16) / 16 ≡ a = omega arith in
    let second : (a % 4 * 16 + b / 16) % 16 * 16 + b % 16 * 4 / 4 ≡ b = omega arith in
    rw (first, second)
bytes_of-sextets (a ∷ b ∷ c ∷ s) (IsBytes.cons p (IsBytes.cons q (IsBytes.cons r h))) =
    let first : a / 4 * 4 + (a % 4 * 16 + b / 16) / 16 ≡ a = omega arith in
    let second : (a % 4 * 16 + b / 16) % 16 * 16 + (b % 16 * 4 + c / 64) / 4 ≡ b = omega arith in
    let third : (b % 16 * 4 + c / 64) % 4 * 64 + c % 64 ≡ c = omega arith in
    bytes_of-cons (a / 4) (a % 4 * 16 + b / 16) (b % 16 * 4 + c / 64) (c % 64) (sextets s) s
      (bytes_of-sextets s h)
    ∙ rw (first, second, third)

pub decode-encode : (s : Text) → IsBytes s → decode (encode s) ≡ some s
unfolding decode
decode-encode s h =
    let digits = digit_values-digits (sextets s) (sextets-AreSmall s h) in
    rw (encode-sextets s, digits, decode) (bytes_of-sextets s h)
