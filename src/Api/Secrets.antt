-- ===== src/Api/Secrets.antt =====
-- engine/internal/api/resources.go: the secrets of a workspace.
pub mod Stored
pub mod Unused
use oarlock.Prelude.{
  ℕ, suc, Text, text_eq, codes, Bool, true, false, ◌&&◌, ◌||◌, Option, none, some, List, [], ◌∷◌,
  ◌++◌, ◌==◌, if◌then◌else◌, trim_space,
}
use oarlock.Prelude.Tables.{find, update, delete, any_row}
use oarlock.Json.{Value}
use oarlock.Api.Http.{Reply, reply, error, said, name_taken, library_error}
use oarlock.Api.Workflows.{Catalog}
use oarlock.Api.Uses.{matches_name, distinct_names, referencing_workflows, workflows_mentioning}
use oarlock.Vault.{Cipher, SecretRow, named, seal_secret}

pub record SecretTable : Type 0 where
  pub rows : List SecretRow
  pub next_id : ℕ

-- The body of `POST /v1/secrets`, whose members are empty where the request leaves them out.
pub record SecretReq : Type 0 where
  pub name : Text
  pub type : Text
  pub provider : Text
  pub value : Text

-- The body of a response: an id, the workflows in the way, or nothing.
pub data Body : Type 0 where
  has_id : ℕ → Body
  used_by : List Text → Body
  no_content : Body

abbrev pub api_key_type : Text
api_key_type = codes "api_key"

abbrev pub generic : Text
generic = codes "generic"

abbrev required : Reply Body
required = error 400 (said (codes "name, type, and value are required"))

abbrev bad_name : Reply Body
bad_name = error 422 (
    said
      (codes "name must be alphanumeric/_/- (it is referenced as secrets.<name> in expressions)"))

abbrev bad_provider : Reply Body
bad_provider =
    error 422 (said (codes "api_key secrets need a provider: anthropic, openai, or openrouter"))

abbrev bad_type : Reply Body
bad_type = error 422 (said (codes "type must be generic or api_key"))

abbrev pub invalid_id : Reply Body
invalid_id = error 400 (said (codes "invalid secret id"))

abbrev pub not_found : Reply Body
not_found = error 404 (said (codes "secret not found"))

-- `where id = $1 and workspace_id = $2`.
unfoldable pub owned : ℕ → ℕ → SecretRow → Bool
owned id workspace s = s.id == id && s.workspace == workspace

-- `allowedProviders`.
unfoldable pub allowed_provider : Text → Bool
unfolding text_eq
allowed_provider p =
    text_eq p (codes "anthropic") || text_eq p (codes "openai") || text_eq p (codes "openrouter")

abbrev pub resealed : Text → SecretRow → SecretRow
resealed sealed s = record s { encrypted_data = sealed }

-- The random nonce is an argument; `none` is the error of the generator.
module _ (c : Cipher) where
  unfoldable pub store_secret :
      ℕ → Text → Text → Option Text → Text → Option Text → SecretTable → SecretTable × Reply Body
  unfolding seal_secret any_row named
  store_secret workspace name type provider value random ss = elim (seal_secret c random value) [
    | none ↦ (ss, error 500 library_error)
    | some sealed ↦
        if any_row (named workspace name) ss.rows then (ss, error 409 (name_taken name)) else (
          record {
            rows =
                record {
                  id = ss.next_id;
                  workspace = workspace;
                  name = name;
                  type = type;
                  provider = provider;
                  encrypted_data = sealed;
                }
                ∷ ss.rows;
            next_id = suc ss.next_id;
          },
          reply 201 (has_id ss.next_id),
        )
  ]

  -- `none` is a body that cannot be decoded.
  unfoldable pub create_secret :
      ℕ → Option SecretReq → Option Text → SecretTable → SecretTable × Reply Body
  unfolding store_secret matches_name allowed_provider trim_space text_eq
  create_secret workspace none random ss = (ss, required)
  create_secret workspace (some r) random ss =
      let name = trim_space r.name in
      let value = trim_space r.value in
      if text_eq name [] || text_eq value []
      then (ss, required)
      else if matches_name name
      then (if text_eq r.type api_key_type
          then (if allowed_provider r.provider
              then store_secret workspace name r.type (some r.provider) value random ss
              else (ss, bad_provider))
          else if text_eq r.type generic
          then store_secret workspace name r.type none value random ss
          else (ss, bad_type))
      else (ss, bad_name)

  -- The id in the path and the value in the body, where they can be parsed.
  unfoldable pub rotate_secret :
      ℕ → Option ℕ → Option Text → Option Text → SecretTable → SecretTable × Reply Body
  unfolding seal_secret owned any_row update trim_space text_eq
  rotate_secret workspace none value random ss = (ss, invalid_id)
  rotate_secret workspace (some id) none random ss =
      (ss, error 400 (said (codes "value is required")))
  rotate_secret workspace (some id) (some value) random ss =
      if text_eq (trim_space value) []
      then (ss, error 400 (said (codes "value is required")))
      else elim (seal_secret c random (trim_space value)) [
        | none ↦ (ss, error 500 library_error)
        | some sealed ↦
            if any_row (owned id workspace) ss.rows
            then (
              record ss { rows = update (owned id workspace) (resealed sealed) ss.rows },
              reply 200 (has_id id),
            )
            else (ss, not_found)
      ]

-- The end of a deletion, by the workflows that use the secret.
unfoldable pub delete_unused : ℕ → ℕ → Option (List Text) → SecretTable → SecretTable × Reply Body
unfolding owned delete
delete_unused workspace id none ss = (ss, error 500 library_error)
delete_unused workspace id (some (n ∷ ns)) ss = (ss, reply 409 (used_by (n ∷ ns)))
delete_unused workspace id (some []) ss =
    (record ss { rows = delete (owned id workspace) ss.rows }, reply 204 no_content)

-- `print` is the text that the database gives of a jsonb value.
module _ (print : Value → Text) where
  -- The workflows that use a secret, as a key of an `ai.*` step or in a text.
  unfoldable pub users_of : ℕ → Text → Catalog → Option (List Text)
  unfolding referencing_workflows workflows_mentioning distinct_names
  users_of workspace name c =
      elim (referencing_workflows print workspace (codes "ai.") (codes "api_key") name c) [
        | none ↦ none
        | some refs ↦ elim (workflows_mentioning print workspace name c) [
          | none ↦ none
          | some mentioned ↦ some (distinct_names (refs ++ mentioned))
        ]
      ]

  unfoldable pub delete_secret : ℕ → Option ℕ → Catalog → SecretTable → SecretTable × Reply Body
  unfolding find owned users_of delete_unused
  delete_secret workspace none c ss = (ss, invalid_id)
  delete_secret workspace (some id) c ss = elim (find (owned id workspace) ss.rows) [
    | none ↦ (ss, not_found)
    | some s ↦ delete_unused workspace id (users_of workspace s.name c) ss
  ]
