-- ===== src/Vault.antt =====
-- engine/internal/vault/vault.go: the encryption of secrets at rest.
pub mod Opens
use oarlock.Prelude.{
  ℕ, ◌+◌, ◌-◌, ◌*◌, ◌≤◌, ◌≡◌, Text, text_eq, codes, Bool, true, false, ◌&&◌, Option, none, some,
  List, [], ◌∷◌, ◌++◌, leb, ltb, ◌==◌, length, take, drop, if◌then◌else◌,
}
use oarlock.Prelude.Tables.{find}
use oarlock.Json.{Value, str, obj, field, end, marshal}
use oarlock.Api.Triggers.Config.{decode_string}

-- AES-GCM under the master key, whose length `New` has checked.
pub record Cipher : Type 0 where
  pub seal : Text → Text → Text
  pub open_sealed : Text → Text → Option Text
  pub nonce_size : ℕ

-- What is sealed with a nonce is opened with it, and nonces have bytes.
pub record IsAead (c : Cipher) : Type 0 where
  pub open_sealed-seal :
      (nonce plain : Text) → c.open_sealed nonce (c.seal nonce plain) ≡ some plain
  pub nonce_size-pos : 1 ≤ c.nonce_size

-- A row of `secrets`; `created_by`, the key's id and the time are left out.
pub record SecretRow : Type 0 where
  pub id : ℕ
  pub workspace : ℕ
  pub name : Text
  pub type : Text
  pub provider : Option Text
  pub encrypted_data : Text

pub record ServerRow : Type 0 where
  pub id : ℕ
  pub workspace : ℕ
  pub name : Text
  pub url : Text
  pub auth_encrypted : Option Text
  pub is_enabled : Bool

abbrev pub dev_key : Text
dev_key = codes "0b5e8836f9aeaf6e6a3e2bd1b1f0c39d8a1c2e4f5a6b7c8d9e0f1a2b3c4d5e6f"

abbrev hex_value : ℕ → Option ℕ
hex_value c =
    if leb b'0' c && leb c b'9'
    then some (c - b'0')
    else if leb b'a' c && leb c b'f'
    then some (c - 87)
    else if leb b'A' c && leb c b'F'
    then some (c - 55)
    else none

-- `hex.DecodeString`.
unfoldable pub decode_hex : Text → Option Text
decode_hex [] = some []
decode_hex (a ∷ []) = none
decode_hex (a ∷ b ∷ s) =
    let rest = decode_hex s in
    elim (hex_value a) [
      | none ↦ none
      | some high ↦ elim (hex_value b) [
        | none ↦ none
        | some low ↦ elim rest [ none ↦ none | some bytes ↦ some ((high * 16 + low) ∷ bytes) ]
      ]
    ]

-- `New`: the key and whether it is the one of development; `none` is the error.
unfoldable pub new_vault : Text → Option (Text × Bool)
unfolding decode_hex text_eq
new_vault hex_key =
    let using_dev_key = text_eq hex_key [] in
    elim (decode_hex (if using_dev_key then dev_key else hex_key)) [
      | none ↦ none
      | some key ↦ if length key == 32 then some (key, using_dev_key) else none
    ]

-- The value of a payload, in the shape before secrets too.
unfoldable pub payload_value : Value → Option Text
unfolding decode_string text_eq
payload_value payload = elim (decode_string (codes "value") payload) [
  | none ↦ none
  | some value ↦ elim (decode_string (codes "api_key") payload) [
    | none ↦ none
    | some key ↦ some (if text_eq value [] then key else value)
  ]
]

-- `workspace_id = $1 and name = $2`.
unfoldable pub named : ℕ → Text → SecretRow → Bool
unfolding text_eq
named workspace name s = s.workspace == workspace && text_eq s.name name

-- The random nonce is an argument; `none` is the error of the generator.
module _ (c : Cipher) where
  unfoldable pub encrypt : Option Text → Text → Option Text
  encrypt none plain = none
  encrypt (some nonce) plain = some (nonce ++ c.seal nonce plain)

  unfoldable pub decrypt : Text → Option Text
  decrypt sealed =
      if ltb (length sealed) c.nonce_size
      then none
      else c.open_sealed (take c.nonce_size sealed) (drop c.nonce_size sealed)

  unfoldable pub seal_secret : Option Text → Text → Option Text
  unfolding encrypt marshal
  seal_secret nonce value = encrypt nonce (marshal (obj (field (codes "value") (str value) end)))

  unfoldable pub open_auth : Option Text → Option Text
  unfolding decrypt
  open_auth none = some []
  open_auth (some []) = some []
  open_auth (some (b ∷ sealed)) = decrypt (b ∷ sealed)

  -- The address and the header of an enabled server.
  unfoldable pub server : ℕ → Text → List ServerRow → Option (Text × Text)
  unfolding find open_auth text_eq
  server workspace name rows =
      elim (find (λ s. s.workspace == workspace && text_eq s.name name) rows) [
        | none ↦ none
        | some s ↦
            if s.is_enabled
            then elim (open_auth s.auth_encrypted) [
              | none ↦ none
              | some header ↦ some (s.url, header)
            ]
            else none
      ]

-- `parse_json` is `json.Unmarshal` of a text.
module _ (c : Cipher) (parse_json : Text → Option Value) where
  unfoldable pub open_secret : Text → Option Text
  unfolding decrypt payload_value
  open_secret sealed = elim (decrypt c sealed) [
    | none ↦ none
    | some raw ↦ elim (parse_json raw) [ none ↦ none | some payload ↦ payload_value payload ]
  ]

  -- The secrets of a workspace by name; one that does not open is an error.
  unfoldable pub workspace_secrets : ℕ → List SecretRow → Option (List (Text × Text))
  unfolding open_secret
  workspace_secrets workspace [] = some []
  workspace_secrets workspace (s ∷ rows) =
      let rest = workspace_secrets workspace rows in
      let opened : Option (List (Text × Text)) = elim (open_secret s.encrypted_data) [
        | none ↦ none
        | some value ↦ elim rest [ none ↦ none | some found ↦ some ((s.name, value) ∷ found) ]
      ] in
      if s.workspace == workspace then opened else rest

  -- The key of an executor: its provider, which an `api_key` always has, and its value.
  unfoldable pub api_key : ℕ → Text → List SecretRow → Option (Option Text × Text)
  unfolding find named open_secret text_eq
  api_key workspace name rows =
      elim (find (λ s. named workspace name s && text_eq s.type (codes "api_key")) rows) [
        | none ↦ none
        | some s ↦ elim (open_secret s.encrypted_data) [
          | none ↦ none
          | some key ↦ some (s.provider, key)
        ]
      ]
