-- ===== src/Api/Secrets/Stored.antt =====
-- What a stored secret opens to.
use oarlock.Prelude.{
  ℕ, ◌≡◌, inl, inr, Text, text_eq, true, false, ◌||◌, Option, none, some, List, [], ◌∷◌, Memᴰ,
  arith, length, if◌then◌else◌, trim_space, Bool-cases, Option-cases, refl, subst,
}
use oarlock.Prelude.Tables.{any_row, update, update-Mem}
use oarlock.Json.{Value, marshal}
use oarlock.Api.Http.{reply, error}
use oarlock.Api.Uses.{matches_name}
use oarlock.Api.Secrets.{
  SecretTable, SecretReq, has_id, owned, api_key_type, generic, allowed_provider, store_secret,
  create_secret, rotate_secret, resealed,
}
use oarlock.Vault.{Cipher, IsAead, SecretRow, named, seal_secret, open_secret, workspace_secrets}
use oarlock.Vault.Opens.{payload, open_secret-seal_secret}

-- A table with one more secret of a workspace, which opens.
module _ (c : Cipher) (parse_json : Text → Option Value) where
  workspace_secrets-cons :
      (s : SecretRow) (rows : List SecretRow) (value : Text) (old : List (Text × Text))
      → open_secret c parse_json s.encrypted_data ≡ some value
      → workspace_secrets c parse_json s.workspace rows ≡ some old
      → workspace_secrets c parse_json s.workspace (s ∷ rows) ≡ some ((s.name, value) ∷ old)
  unfolding workspace_secrets
  workspace_secrets-cons s rows value old opens had =
      rw (opens, had, workspace_secrets) (ground arith)

  -- A row after a rotation, which may seal another value in it.
  resealed-opens :
      (id workspace : ℕ) (sealed value : Text) (rows : List SecretRow) {s : SecretRow}
      → open_secret c parse_json sealed ≡ some value
      → Memᴰ s rows
      → (s' : SecretRow) × Memᴰ s' (update (owned id workspace) (resealed sealed) rows)
        × (s'.id ≡ s.id)
        × (s'.workspace ≡ s.workspace)
        × (s'.name ≡ s.name)
        × (open_secret c parse_json s'.encrypted_data ≡ (
            if owned id workspace s then some value else open_secret c parse_json s.encrypted_data))
  resealed-opens id workspace sealed value rows {s} opens m =
      let put = update-Mem (owned id workspace) (resealed sealed) rows m in
      elim (Bool-cases (owned id workspace s)) [
        | inl e ↦ (resealed sealed s, rw e at put, refl, refl, refl, rw e opens)
        | inr e ↦ (s, rw e at put, refl, refl, refl, rw e refl)
      ]

module _ (c : Cipher) (aead : IsAead c) (parse_json : Text → Option Value) (nonce : Text)
    (sized : length nonce ≡ c.nonce_size) where
  store_secret-stores :
      (workspace id : ℕ) (name type : Text) (provider : Option Text) (value : Text)
      → (old : List (Text × Text)) (ss ss' : SecretTable)
      → parse_json (marshal (payload value)) ≡ some (payload value)
      → workspace_secrets c parse_json workspace ss.rows ≡ some old
      → store_secret c workspace name type provider value (some nonce) ss
        ≡ (ss', reply 201 (has_id id))
      → (any_row (named workspace name) ss.rows ≡ false)
        × (workspace_secrets c parse_json workspace ss'.rows ≡ some ((name, value) ∷ old))
  unfolding store_secret error
  store_secret-stores workspace id name type provider value old ss ss' parses had h =
      elim (Option-cases (seal_secret c (some nonce) value)) [
        | inl e ↦ absurd (ground arith)
        | inr (sealed, e) ↦ elim (Bool-cases (any_row (named workspace name) ss.rows)) [
          | inl f ↦ absurd (ground arith)
          | inr f ↦
              let row : SecretRow = record {
                id = ss.next_id;
                workspace = workspace;
                name = name;
                type = type;
                provider = provider;
                encrypted_data = sealed;
              } in
              let made : row ∷ ss.rows ≡ ss'.rows = ground arith in
              (
                f,
                rw (← made) (
                    workspace_secrets-cons c parse_json row ss.rows value old
                      (open_secret-seal_secret c aead parse_json nonce value sealed sized parses e)
                      had),
              )
        ]
      ]

  -- A secret that is created has a name that matches the pattern and that no secret of the workspace
  -- had, and the secrets of the workspace are then those before and the trimmed value under the
  -- trimmed name: given that they opened before, that the cipher opens what it seals with a nonce of
  -- its size, and that JSON reads the payload of the value as it was written.
  pub create_secret-stores :
      (workspace id : ℕ) (r : SecretReq) (old : List (Text × Text)) (ss ss' : SecretTable)
      → parse_json (marshal (payload (trim_space r.value))) ≡ some (payload (trim_space r.value))
      → workspace_secrets c parse_json workspace ss.rows ≡ some old
      → create_secret c workspace (some r) (some nonce) ss ≡ (ss', reply 201 (has_id id))
      → (matches_name (trim_space r.name) ≡ true)
        × (any_row (named workspace (trim_space r.name)) ss.rows ≡ false)
        × (workspace_secrets c parse_json workspace ss'.rows
            ≡ some ((trim_space r.name, trim_space r.value) ∷ old))
  unfolding create_secret error
  create_secret-stores workspace id r old ss ss' parses had h =
      let stored = λ (provider : Option Text).
        store_secret-stores workspace id (trim_space r.name) r.type provider (trim_space r.value)
          old ss ss' parses had in
      elim (Bool-cases (text_eq (trim_space r.name) [] || text_eq (trim_space r.value) [])) [
        | inl e ↦ absurd (ground arith)
        | inr e ↦ elim (Bool-cases (matches_name (trim_space r.name))) [
          | inr f ↦ absurd (ground arith)
          | inl f ↦ elim (Bool-cases (text_eq r.type api_key_type)) [
            | inl g ↦ elim (Bool-cases (allowed_provider r.provider)) [
              | inl k ↦
                  let (free, now) =
                    stored (some r.provider) (rw (e, f, g, k, create_secret) at h) in
                  (f, free, now)
              | inr k ↦ absurd (ground arith)
            ]
            | inr g ↦ elim (Bool-cases (text_eq r.type generic)) [
              | inl k ↦
                  let (free, now) = stored none (rw (e, f, g, k, create_secret) at h) in
                  (f, free, now)
              | inr k ↦ absurd (ground arith)
            ]
          ]
        ]
      ]

  -- A rotation that succeeds is one of a secret that the workspace has; after it each secret of the
  -- table stands under its id, workspace and name, and opens to the trimmed new value if it is that
  -- one, and as before if not: given that the cipher opens what it seals with a nonce of its size, and
  -- that JSON reads the payload of the value as it was written.
  pub rotate_secret-opens :
      (workspace id : ℕ) (value : Text) (ss ss' : SecretTable) (s : SecretRow)
      → parse_json (marshal (payload (trim_space value))) ≡ some (payload (trim_space value))
      → rotate_secret c workspace (some id) (some value) (some nonce) ss
        ≡ (ss', reply 200 (has_id id))
      → Memᴰ s ss.rows
      → (any_row (owned id workspace) ss.rows ≡ true)
        × ((s' : SecretRow) × Memᴰ s' ss'.rows
            × (s'.id ≡ s.id)
            × (s'.workspace ≡ s.workspace)
            × (s'.name ≡ s.name)
            × (open_secret c parse_json s'.encrypted_data ≡ (
                if owned id workspace s
                then some (trim_space value)
                else open_secret c parse_json s.encrypted_data)))
  unfolding rotate_secret error
  rotate_secret-opens workspace id value ss ss' s parses h m =
      elim (Bool-cases (text_eq (trim_space value) [])) [
        | inl e ↦ absurd (ground arith)
        | inr e ↦ elim (Option-cases (seal_secret c (some nonce) (trim_space value))) [
          | inl f ↦ absurd (ground arith)
          | inr (sealed, f) ↦ elim (Bool-cases (any_row (owned id workspace) ss.rows)) [
            | inr g ↦ absurd (ground arith)
            | inl g ↦
                let made : update (owned id workspace) (resealed sealed) ss.rows ≡ ss'.rows =
                  ground arith in
                let (s', k, i, w, n, o) =
                  resealed-opens c parse_json id workspace sealed (trim_space value) ss.rows
                    (open_secret-seal_secret c aead parse_json nonce (trim_space value) sealed sized
                      parses f)
                    m in
                (g, (s', subst (λ rows. Memᴰ s' rows) made k, i, w, n, o))
          ]
        ]
      ]
