-- ===== src/Api/Servers.antt =====
-- engine/internal/api/resources.go: the MCP servers of a workspace.
pub mod Resolved
pub mod Orphans
use oarlock.Prelude.{
  ℕ, suc, Text, text_eq, codes, Bool, true, false, not, ◌&&◌, ◌||◌, Option, none, some, List, [],
  ◌∷◌, ◌==◌, if◌then◌else◌, trim_space, is_prefix,
}
use oarlock.Prelude.Tables.{find, update, delete, any_row}
use oarlock.Json.{Value}
use oarlock.Api.Http.{Reply, reply, error, said, name_taken, library_error}
use oarlock.Api.Workflows.{Catalog}
use oarlock.Api.Uses.{referencing_workflows}
use oarlock.Vault.{Cipher, ServerRow, encrypt}

pub record Servers : Type 0 where
  pub rows : List ServerRow
  pub next_id : ℕ

-- `mcpServerReq`: a header that is left out is kept, an empty one cleared.
pub record ServerReq : Type 0 where
  pub name : Text
  pub url : Text
  pub auth_header : Option Text
  pub is_enabled : Option Bool

pub data Body : Type 0 where
  has_id : ℕ → Body
  used_by : List Text → Body
  no_content : Body

abbrev invalid_id : Reply Body
invalid_id = error 400 (said (codes "invalid mcp server id"))

abbrev invalid_body : Reply Body
invalid_body = error 400 (said (codes "invalid body"))

abbrev not_found : Reply Body
not_found = error 404 (said (codes "mcp server not found"))

-- `where id = $1 and workspace_id = $2`.
unfoldable pub owned : ℕ → ℕ → ServerRow → Bool
owned id workspace s = s.id == id && s.workspace == workspace

-- `unique (workspace_id, name)`.
unfoldable pub server_named : ℕ → Text → ServerRow → Bool
unfolding text_eq
server_named workspace name s = s.workspace == workspace && text_eq s.name name

unfoldable pub name_taken_by_other : ℕ → ℕ → Text → ServerRow → Bool
unfolding server_named owned
name_taken_by_other id workspace name s =
    server_named workspace name s && not (owned id workspace s)

-- `validate`: the message of the error.
unfoldable pub validate_server : ServerReq → Option Text
unfolding trim_space text_eq is_prefix
validate_server r =
    let u = trim_space r.url in
    if text_eq (trim_space r.name) []
    then some (codes "name is required")
    else if is_prefix (codes "http://") u || is_prefix (codes "https://") u
    then none
    else some (codes "url must start with http:// or https://")

-- A server is enabled where the request does not say.
abbrev pub enabled : ServerReq → Bool
enabled r = elim r.is_enabled [ none ↦ true | some b ↦ b ]

-- What an update writes; the header only where there is one.
abbrev pub revised : ServerReq → Option (Option Text) → ServerRow → ServerRow
revised r auth s = record s {
  name = trim_space r.name;
  url = trim_space r.url;
  is_enabled = enabled r;
  auth_encrypted = elim auth [ none ↦ s.auth_encrypted | some sealed ↦ sealed ];
}

unfoldable pub save_server :
    ℕ → ℕ → ServerReq → Option (Option Text) → Servers → Servers × Reply Body
unfolding any_row name_taken_by_other owned update
save_server workspace id r auth ss =
    if any_row (name_taken_by_other id workspace (trim_space r.name)) ss.rows
    then (ss, error 409 library_error)
    else (
      record ss { rows = update (owned id workspace) (revised r auth) ss.rows },
      reply 200 (has_id id),
    )

-- The random nonce is an argument; `none` is the error of the generator.
module _ (c : Cipher) where
  -- The sealed header, which is null without one.
  unfoldable pub seal_auth : Option Text → Option Text → Option (Option Text)
  unfolding trim_space text_eq encrypt
  seal_auth random none = some none
  seal_auth random (some header) =
      if text_eq (trim_space header) []
      then some none
      else elim (encrypt c random (trim_space header)) [
        | none ↦ none
        | some sealed ↦ some (some sealed)
      ]

  unfoldable pub create_server : ℕ → Option ServerReq → Option Text → Servers → Servers × Reply Body
  unfolding validate_server seal_auth any_row server_named trim_space
  create_server workspace none random ss = (ss, invalid_body)
  create_server workspace (some r) random ss = elim (validate_server r) [
    | some message ↦ (ss, error 422 (said message))
    | none ↦ elim (seal_auth random r.auth_header) [
      | none ↦ (ss, error 500 library_error)
      | some sealed ↦
          if any_row (server_named workspace (trim_space r.name)) ss.rows
          then (ss, error 409 (name_taken r.name))
          else (
            record {
              rows =
                  record {
                    id = ss.next_id;
                    workspace = workspace;
                    name = trim_space r.name;
                    url = trim_space r.url;
                    auth_encrypted = sealed;
                    is_enabled = true;
                  }
                  ∷ ss.rows;
              next_id = suc ss.next_id;
            },
            reply 201 (has_id ss.next_id),
          )
    ]
  ]

  -- The end of an update, by the workflows that use the name which goes away.
  unfoldable pub write_server :
      ℕ → ℕ → Option (List Text) → ServerReq → Option Text → Servers → Servers × Reply Body
  unfolding save_server seal_auth
  write_server workspace id none r random ss = (ss, error 500 library_error)
  write_server workspace id (some (n ∷ ns)) r random ss = (ss, reply 409 (used_by (n ∷ ns)))
  write_server workspace id (some []) r random ss = elim r.auth_header [
    | none ↦ save_server workspace id r none ss
    | some header ↦ elim (seal_auth random (some header)) [
      | none ↦ (ss, error 500 library_error)
      | some sealed ↦ save_server workspace id r (some sealed) ss
    ]
  ]

-- The end of a deletion, likewise.
unfoldable pub remove_server : ℕ → ℕ → Option (List Text) → Servers → Servers × Reply Body
unfolding owned delete
remove_server workspace id none ss = (ss, error 500 library_error)
remove_server workspace id (some (n ∷ ns)) ss = (ss, reply 409 (used_by (n ∷ ns)))
remove_server workspace id (some []) ss =
    (record ss { rows = delete (owned id workspace) ss.rows }, reply 204 no_content)

-- `print` is the text that the database gives of a jsonb value.
module _ (print : Value → Text) where
  abbrev pub server_users : ℕ → Text → Catalog → Option (List Text)
  server_users workspace name cat =
      referencing_workflows print workspace (codes "mcp.") (codes "server") name cat

  -- Only a new name has to be free of users.
  unfoldable pub rename_users : ℕ → ServerReq → ServerRow → Catalog → Option (List Text)
  unfolding text_eq trim_space referencing_workflows
  rename_users workspace r s cat =
      if text_eq s.name (trim_space r.name) then some [] else server_users workspace s.name cat

  unfoldable pub update_server :
      Cipher
      → ℕ
      → Option ℕ
      → Option ServerReq
      → Option Text
      → Catalog
      → Servers
      → Servers × Reply Body
  unfolding validate_server find owned rename_users write_server
  update_server c workspace none r random cat ss = (ss, invalid_id)
  update_server c workspace (some id) none random cat ss = (ss, invalid_body)
  update_server c workspace (some id) (some r) random cat ss = elim (validate_server r) [
    | some message ↦ (ss, error 422 (said message))
    | none ↦ elim (find (owned id workspace) ss.rows) [
      | none ↦ (ss, not_found)
      | some s ↦ write_server c workspace id (rename_users workspace r s cat) r random ss
    ]
  ]

  unfoldable pub delete_server : ℕ → Option ℕ → Catalog → Servers → Servers × Reply Body
  unfolding find owned referencing_workflows remove_server
  delete_server workspace none cat ss = (ss, invalid_id)
  delete_server workspace (some id) cat ss = elim (find (owned id workspace) ss.rows) [
    | none ↦ (ss, not_found)
    | some s ↦ remove_server workspace id (server_users workspace s.name cat) ss
  ]
