-- ===== src/Api/Tokens.antt =====
-- engine/internal/api/tokens.go, and `authenticateToken` of engine/internal/api/mcpserver.go: the
-- API tokens of a workspace.
pub mod Rotation
use oarlock.Prelude.{
  ℕ, suc, ◌≡◌, Text, text_eq, codes, Bool, true, false, not, ◌&&◌, ◌||◌, Option, none, some, List,
  [], ◌∷◌, ◌++◌, ◌==◌, if◌then◌else◌, take, is_prefix, trim_space,
}
use oarlock.Prelude.Tables.{find, update, delete, any_row}
use oarlock.Api.Http.{Reply, reply, error, said, name_taken, library_error}

pub record ApiToken : Type 0 where
  pub id : ℕ
  pub workspace : ℕ
  pub name : Text
  pub token_hash : Text
  pub prefix : Text
  pub created_by : Option ℕ
  pub last_used_at : Option ℕ

pub record Tokens : Type 0 where
  pub rows : List ApiToken
  pub next_id : ℕ

-- The body of a response: the id with the raw token, or nothing.
pub data Body : Type 0 where
  minted : ℕ → Text → Body
  no_content : Body

-- The rest of a text behind a prefix that it has.
unfoldable pub behind : Text → Text → Option Text
behind [] s = some s
behind (v ∷ vs) [] = none
behind (v ∷ vs) (c ∷ s) = if v == c then behind vs s else none

abbrev pub bearer : Text
bearer = codes "Bearer "

abbrev pub has_hash : Text → ApiToken → Bool
has_hash hashed t = text_eq t.token_hash hashed

abbrev token_by_id : ℕ → ApiToken → Bool
token_by_id id t = t.id == id

abbrev pub used : ℕ → ApiToken → ApiToken
used now t = record t { last_used_at = some now }

-- `where id = $1 and workspace_id = $2`.
unfoldable pub owned : ℕ → ℕ → ApiToken → Bool
owned id workspace t = t.id == id && t.workspace == workspace

unfoldable pub has_name : ℕ → Text → ApiToken → Bool
unfolding text_eq
has_name workspace name t = t.workspace == workspace && text_eq t.name name

-- The unique hash is the one of another row.
unfoldable pub taken_by_other : ℕ → ℕ → Text → ApiToken → Bool
unfolding owned text_eq
taken_by_other id workspace hashed t = has_hash hashed t && not (owned id workspace t)

abbrev pub rotated : Text → Text → ApiToken → ApiToken
rotated hashed prefix t = record t { token_hash = hashed; prefix = prefix; last_used_at = none }

abbrev invalid_id : {A : Type 0} → Reply A
invalid_id = error 400 (said (codes "invalid token id"))

abbrev not_found : {A : Type 0} → Reply A
not_found = error 404 (said (codes "token not found"))

-- The raw token in a header.
unfoldable pub raw_of : Text → Option Text
unfolding behind is_prefix trim_space
raw_of authorization = elim (behind bearer authorization) [
  | none ↦ none
  | some rest ↦ let raw = trim_space rest in if is_prefix (codes "oak_") raw then some raw else none
]

-- `hash` is `hashToken`. The hexadecimal digits of the random bytes are an argument; `none` is the
-- error of the generator.
module _ (hash : Text → Text) where
  -- The workspace of the token in the header, and the table with the use of the token.
  unfoldable pub authenticate_token : Text → ℕ → Tokens → Tokens × Option ℕ
  unfolding raw_of find update text_eq
  authenticate_token authorization now ts = elim (raw_of authorization) [
    | none ↦ (ts, none)
    | some raw ↦ elim (find (has_hash (hash raw)) ts.rows) [
      | none ↦ (ts, none)
      | some t ↦
          (record ts { rows = update (token_by_id t.id) (used now) ts.rows }, some t.workspace)
    ]
  ]

  -- The raw token, its hash and the prefix that is shown.
  unfoldable pub new_api_token : Text → Text × Text × Text
  new_api_token hex = let raw = codes "oak_" ++ hex in (raw, hash raw, take 8 raw)

  unfoldable pub insert_token : ℕ → Text → Text → Option ℕ → Tokens → Tokens × Reply Body
  unfolding new_api_token any_row has_name text_eq
  insert_token workspace name hex user ts =
      let (raw, hashed, prefix) = new_api_token hex in
      if any_row (has_name workspace name) ts.rows || any_row (has_hash hashed) ts.rows
      then (ts, error 409 (name_taken name))
      else (
        record {
          rows =
              record {
                id = ts.next_id;
                workspace = workspace;
                name = name;
                token_hash = hashed;
                prefix = prefix;
                created_by = user;
                last_used_at = none;
              }
              ∷ ts.rows;
          next_id = suc ts.next_id;
        },
        reply 201 (minted ts.next_id raw),
      )

  -- The request of an admin, who is `user`; the name is what the body has.
  unfoldable pub create_api_token :
      ℕ → Option ℕ → Option Text → Option Text → Tokens → Tokens × Reply Body
  unfolding insert_token trim_space text_eq
  create_api_token workspace user none hex ts = (ts, error 400 (said (codes "name is required")))
  create_api_token workspace user (some name) hex ts =
      if text_eq (trim_space name) []
      then (ts, error 400 (said (codes "name is required")))
      else elim hex [
        | none ↦ (ts, error 500 library_error)
        | some digits ↦ insert_token workspace (trim_space name) digits user ts
      ]

  unfoldable pub swap_token : ℕ → ℕ → Text → Tokens → Tokens × Reply Body
  unfolding new_api_token any_row owned taken_by_other update text_eq
  swap_token workspace id hex ts =
      let (raw, hashed, prefix) = new_api_token hex in
      if any_row (owned id workspace) ts.rows
      then (if any_row (taken_by_other id workspace hashed) ts.rows
          then (ts, error 500 library_error)
          else (
            record ts { rows = update (owned id workspace) (rotated hashed prefix) ts.rows },
            reply 200 (minted id raw),
          ))
      else (ts, not_found)

  unfoldable pub rotate_api_token : ℕ → Option ℕ → Option Text → Tokens → Tokens × Reply Body
  unfolding swap_token
  rotate_api_token workspace none hex ts = (ts, invalid_id)
  rotate_api_token workspace (some id) none ts = (ts, error 500 library_error)
  rotate_api_token workspace (some id) (some digits) ts = swap_token workspace id digits ts

unfoldable pub delete_api_token : ℕ → Option ℕ → Tokens → Tokens × Reply Body
unfolding any_row owned delete
delete_api_token workspace none ts = (ts, invalid_id)
delete_api_token workspace (some id) ts =
    if any_row (owned id workspace) ts.rows
    then (record ts { rows = delete (owned id workspace) ts.rows }, reply 204 no_content)
    else (ts, not_found)
