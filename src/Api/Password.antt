-- ===== src/Api/Password.antt =====
-- engine/internal/api/password.go: the text form of argon2id hashes.
pub mod Base64
pub mod Verified
use oarlock.Prelude.{
  ℕ, zero, suc, ◌+◌, ◌-◌, ◌*◌, ◌/◌, ◌%◌, ◌^◌, ◌≡◌, Text, text_eq, codes, Bool, true, false, ◌&&◌,
  ◌||◌, Option, none, some, List, [], ◌∷◌, ◌++◌, leb, ltb, ◌==◌, if◌then◌else◌, length,
}

-- `base64.RawStdEncoding`: the digit of six bits.
unfoldable pub digit : ℕ → ℕ
digit n =
    if ltb n 26
    then b'A' + n
    else if ltb n 52
    then 71 + n
    else if ltb n 62
    then n - 4
    else if n == 62
    then b'+'
    else b'/'

unfoldable pub digit_value : ℕ → Option ℕ
digit_value c =
    if leb b'A' c && leb c b'Z'
    then some (c - b'A')
    else if leb b'a' c && leb c b'z'
    then some (c - 71)
    else if leb b'0' c && leb c b'9'
    then some (c + 4)
    else if c == b'+'
    then some 62
    else if c == b'/'
    then some 63
    else none

unfoldable pub encode : Text → Text
unfolding digit
encode [] = []
encode (a ∷ []) = digit (a / 4) ∷ digit (a % 4 * 16) ∷ []
encode (a ∷ b ∷ []) = digit (a / 4) ∷ digit (a % 4 * 16 + b / 16) ∷ digit (b % 16 * 4) ∷ []
encode (a ∷ b ∷ c ∷ s) =
    digit (a / 4)
    ∷ digit (a % 4 * 16 + b / 16)
    ∷ digit (b % 16 * 4 + c / 64)
    ∷ digit (c % 64)
    ∷ encode s

-- The values of the digits; line ends are skipped.
unfoldable pub digit_values : Text → Option (List ℕ)
unfolding digit_value
digit_values [] = some []
digit_values (c ∷ s) =
    let rest = digit_values s in
    if c == 10 || c == 13 then rest else elim (digit_value c) [
      | none ↦ none
      | some v ↦ elim rest [ none ↦ none | some vs ↦ some (v ∷ vs) ]
    ]

-- The bytes of digits; what is left of the last ones is dropped, and one alone is an error.
unfoldable pub bytes_of : List ℕ → Option Text
bytes_of [] = some []
bytes_of (v ∷ []) = none
bytes_of (v ∷ w ∷ []) = some ((v * 4 + w / 16) ∷ [])
bytes_of (v ∷ w ∷ x ∷ []) = some ((v * 4 + w / 16) ∷ (w % 16 * 16 + x / 4) ∷ [])
bytes_of (v ∷ w ∷ x ∷ y ∷ vs) =
    let rest = bytes_of vs in
    elim rest [
      | none ↦ none
      | some s ↦ some ((v * 4 + w / 16) ∷ (w % 16 * 16 + x / 4) ∷ (x % 4 * 64 + y) ∷ s)
    ]

unfoldable pub decode : Text → Option Text
unfolding digit_values bytes_of
decode s = elim (digit_values s) [ none ↦ none | some vs ↦ bytes_of vs ]

-- `strings.Split`, at dollars.
unfoldable pub split : Text → List Text
split [] = [] ∷ []
split (c ∷ s) =
    let parts = split s in
    if c == b'$' then [] ∷ parts else elim parts [ [] ↦ (c ∷ []) ∷ [] | p ∷ ps ↦ (c ∷ p) ∷ ps ]

-- The verb `%d` of `fmt.Sscanf`, from the digits on: the number so far, and the text behind it.
unfoldable pub scan_digits : ℕ → Text → ℕ × Text
scan_digits n [] = (n, [])
scan_digits n (c ∷ s) =
    let more = scan_digits (n * 10 + (c - b'0')) s in
    if leb b'0' c && leb c b'9' then more else (n, c ∷ s)

-- A number of at most so many bits. White space before a number, which a hash does not have, is not
-- skipped here.
unfoldable pub scan_nat : ℕ → Text → Option (ℕ × Text)
unfolding scan_digits
scan_nat bits [] = none
scan_nat bits (c ∷ s) =
    let (n, rest) = scan_digits 0 (c ∷ s) in
    if leb b'0' c && leb c b'9' && ltb n (2 ^ bits) then some (n, rest) else none

-- The rest of a text behind a literal of the format.
unfoldable pub scan_literal : Text → Text → Option Text
scan_literal [] s = some s
scan_literal (v ∷ vs) [] = none
scan_literal (v ∷ vs) (c ∷ s) = if v == c then scan_literal vs s else none

unfoldable pub scan_field : Text → ℕ → Text → Option (ℕ × Text)
unfolding scan_literal scan_nat
scan_field literal bits s = elim (scan_literal literal s) [
  | none ↦ none
  | some rest ↦ scan_nat bits rest
]

abbrev without_plus : Text → Text
without_plus [] = []
without_plus (c ∷ s) = if c == b'+' then s else c ∷ s

-- Whether `v=%d` reads the version 19. A sign may stand there.
unfoldable pub is_version : Text → Bool
unfolding scan_literal scan_nat
is_version s = elim (scan_literal (codes "v=") s) [
  | none ↦ false
  | some rest ↦ elim (scan_nat 63 (without_plus rest)) [ none ↦ false | some p ↦ p.0 == 19 ]
]

-- `m=%d,t=%d,p=%d`; what stands behind is ignored.
unfoldable pub scan_params : Text → Option (ℕ × ℕ × ℕ)
unfolding scan_field
scan_params s = elim (scan_field (codes "m=") 32 s) [
  | none ↦ none
  | some p ↦ elim (scan_field (codes ",t=") 32 p.1) [
    | none ↦ none
    | some q ↦ elim (scan_field (codes ",p=") 8 q.1) [ none ↦ none | some r ↦ some (p.0, q.0, r.0) ]
  ]
]

-- `derive` is `argon2.IDKey`: the password, the salt, the time, the memory, the threads and the length.
module _ (derive : Text → Text → ℕ → ℕ → ℕ → ℕ → Text) where
  -- The random salt is an argument; `none` is the error of the generator.
  unfoldable pub hash_password : Text → Option Text → Option Text
  unfolding encode
  hash_password password none = none
  hash_password password (some salt) = some (
      codes "$argon2id$v=19$m=19456,t=2,p=1$"
      ++ encode salt
      ++ b'$' ∷ encode (derive password salt 2 19456 1 32))

  unfoldable pub matches_key : Text → Text → Text → Text → Bool
  unfolding scan_params decode text_eq
  matches_key password params salt key = elim (scan_params params) [
    | none ↦ false
    | some p ↦ elim (decode salt) [
      | none ↦ false
      | some s ↦ elim (decode key) [
        | none ↦ false
        | some [] ↦ false
        | some (b ∷ want) ↦
            text_eq (derive password s p.1 p.0 p.2 (length (b ∷ want) % 2 ^ 32)) (b ∷ want)
      ]
    ]
  ]

  unfoldable pub verify_parts : Text → List Text → Bool
  unfolding matches_key is_version text_eq
  verify_parts password (_ ∷ name ∷ version ∷ params ∷ salt ∷ key ∷ []) =
      text_eq name (codes "argon2id") && is_version version && matches_key password params salt key
  verify_parts password _ = false

  unfoldable pub verify_password : Text → Text → Bool
  unfolding split verify_parts
  verify_password encoded password = verify_parts password (split encoded)
