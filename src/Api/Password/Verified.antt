-- ===== src/Api/Password/Verified.antt =====
-- A password verifies against its hash.
use oarlock.Prelude.{
  ℕ, ◌%◌, ◌^◌, ◌≡◌, refl, ap, map, Text, text_eq, text_eq_iff, ◌∙◌, codes, true, false, some, List,
  [], ◌∷◌, ◌++◌, ◌==◌, arith, length,
}
use oarlock.Api.Password.{
  digit, encode, decode, split, scan_params, is_version, hash_password, matches_key, verify_parts,
  verify_password, scan_digits, scan_nat, scan_literal, scan_field,
}
use oarlock.Api.Password.Base64.{IsBytes, digit-plain, decode-encode, sextets, encode-sextets}

split-cons :
    (c : ℕ) (s p : Text) (ps : List Text)
    → (c == b'$') ≡ false
    → split s ≡ p ∷ ps
    → split (c ∷ s) ≡ (c ∷ p) ∷ ps
unfolding split
split-cons c s p ps h e = rw (h, e)

split-digits :
    (vs : List ℕ) (rest p : Text) (ps : List Text)
    → split rest ≡ p ∷ ps
    → split (map digit vs ++ rest) ≡ (map digit vs ++ p) ∷ ps
split-digits [] rest p ps h = h
split-digits (v ∷ vs) rest p ps h =
    split-cons (digit v) (map digit vs ++ rest) (map digit vs ++ p) ps (digit-plain v).0
      (split-digits vs rest p ps h)

-- Text that is encoded has no dollar.
split-encode :
    (s rest p : Text) (ps : List Text)
    → split rest ≡ p ∷ ps
    → split (encode s ++ rest) ≡ (encode s ++ p) ∷ ps
split-encode s rest p ps h = rw (encode-sextets s) (split-digits (sextets s) rest p ps h)

append-nil : (s : Text) → s ++ [] ≡ s
append-nil [] = refl
append-nil (c ∷ s) = ap (λ (l : Text). c ∷ l) (append-nil s)

split-two :
    (salt key : Text) → split (encode salt ++ b'$' ∷ encode key) ≡ encode salt ∷ encode key ∷ []
unfolding split
split-two salt key =
    let last : split (encode key) ≡ encode key ∷ [] =
      rw (append-nil (encode key)) at (split-encode key [] [] [] refl) in
    let both = split-encode salt (b'$' ∷ encode key) [] (encode key ∷ []) (rw last) in
    rw (append-nil (encode salt)) at both

module _ (derive : Text → Text → ℕ → ℕ → ℕ → ℕ → Text) where
  -- A key that was derived with the parameters of the text matches.
  matches_key-own :
      (password salt key salt_text key_text : Text)
      → decode salt_text ≡ some salt
      → decode key_text ≡ some key
      → length key ≡ 32
      → derive password salt 2 19456 1 32 ≡ key
      → matches_key derive password (codes "m=19456,t=2,p=1") salt_text key_text ≡ true
  unfolding matches_key scan_params scan_field scan_literal scan_nat scan_digits
  matches_key-own password salt [] salt_text key_text d e n same = absurd (ground arith)
  matches_key-own password salt (x ∷ key) salt_text key_text d e n same =
      let bits : length (x ∷ key) % 2 ^ 32 ≡ 32 = rw n in
      let derived : derive password salt 2 19456 1 (length (x ∷ key) % 2 ^ 32) ≡ x ∷ key =
        ap (λ (m : ℕ). derive password salt 2 19456 1 m) bits ∙ same in
      rw (d, e, matches_key) ((text_eq_iff _ (x ∷ key)).1 derived)

  -- A password verifies against the hash that is made of it: given that the salt and the derived key
  -- are bytes, of which the key has the 32 that are asked for.
  pub verify_password-hash_password :
      (password salt encoded : Text)
      → IsBytes salt
      → IsBytes (derive password salt 2 19456 1 32)
      → length (derive password salt 2 19456 1 32) ≡ 32
      → hash_password derive password (some salt) ≡ some encoded
      → verify_password derive encoded password ≡ true
  unfolding hash_password verify_password verify_parts split is_version scan_literal scan_nat
      scan_digits text_eq
  verify_password-hash_password password salt encoded b k n h =
      let key = derive password salt 2 19456 1 32 in
      let made : codes "$argon2id$v=19$m=19456,t=2,p=1$" ++ encode salt ++ b'$' ∷ encode key
          ≡ encoded =
        ground arith in
      rw (← made, split-two salt key)
        (matches_key-own password salt key (encode salt) (encode key) (decode-encode salt b)
          (decode-encode key k) n refl)
