-- ===== src/Vault/Opens.antt =====
-- What is sealed in the vault opens again.
use oarlock.Prelude.{
  ◌≡◌, refl, Text, text_eq, codes, false, Option, some, [], ◌∷◌, ◌++◌, ltb, length, length-append,
  take-append_self, drop-append_self, arith,
}
use oarlock.Json.{Value, str, obj, field, end, marshal}
use oarlock.Api.Triggers.Config.{decode_string, decode_members, fold_name}
use oarlock.Vault.{Cipher, IsAead, encrypt, decrypt, seal_secret, open_secret, payload_value}

-- The payload that a new secret has.
abbrev pub payload : Text → Value
payload value = obj (field (codes "value") (str value) end)

payload_value-payload : (value : Text) → payload_value (payload value) ≡ some value
unfolding payload_value decode_string decode_members fold_name text_eq
payload_value-payload [] = refl
payload_value-payload (b ∷ value) = refl

module _ (c : Cipher) (aead : IsAead c) where
  pub decrypt-encrypt :
      (nonce plain sealed : Text)
      → length nonce ≡ c.nonce_size
      → encrypt c (some nonce) plain ≡ some sealed
      → decrypt c sealed ≡ some plain
  unfolding encrypt decrypt
  decrypt-encrypt nonce plain sealed n h =
      let body = c.seal nonce plain in
      let made : nonce ++ body ≡ sealed = ground arith in
      let long : ltb (length (nonce ++ body)) c.nonce_size ≡ false =
        ground (arith, length-append nonce body) in
      rw (← made, long, ← n, take-append_self nonce body, drop-append_self nonce body)
        (aead.open_sealed-seal nonce plain)

  pub open_secret-seal_secret :
      (parse_json : Text → Option Value) (nonce value sealed : Text)
      → length nonce ≡ c.nonce_size
      → parse_json (marshal (payload value)) ≡ some (payload value)
      → seal_secret c (some nonce) value ≡ some sealed
      → open_secret c parse_json sealed ≡ some value
  unfolding seal_secret open_secret
  open_secret-seal_secret parse_json nonce value sealed n parses h =
      rw (decrypt-encrypt nonce (marshal (payload value)) sealed n h, parses, open_secret)
        (payload_value-payload value)
