-- ===== src/Api/Servers/Orphans.antt =====
-- engine/internal/api/resources.go: a server that goes away or is renamed, and the steps that name it.
use oarlock.Prelude.{
  ℕ, ◌≡◌, ◌⊎◌, refl, inl, inr, Text, text_eq, text_eq_iff, codes, true, false, Option, none, some,
  List, [], ◌∷◌, Memᴰ, arith, trim_space, Bool-cases, Option-cases,
}
use oarlock.Prelude.Tables.{find, find-some}
use oarlock.Json.{Value}
use oarlock.Api.Http.{reply, error}
use oarlock.Api.Workflows.{WorkflowRow, Catalog}
use oarlock.Api.Uses.{current_definition, any_step}
use oarlock.Api.Uses.Named.{referencing_workflows-nil}
use oarlock.Api.Servers.{
  Servers, ServerReq, has_id, no_content, owned, validate_server, write_server, remove_server,
  rename_users, server_users, update_server, delete_server,
}
use oarlock.Vault.{Cipher, ServerRow}

remove_server-nil :
    (workspace id : ℕ) (users : Option (List Text)) (ss ss' : Servers)
    → remove_server workspace id users ss ≡ (ss', reply 204 no_content)
    → users ≡ some []
unfolding remove_server error
remove_server-nil workspace id none ss ss' h = absurd (ground arith)
remove_server-nil workspace id (some []) ss ss' h = refl
remove_server-nil workspace id (some (n ∷ ns)) ss ss' h = absurd (ground arith)

write_server-nil :
    (c : Cipher) (workspace id : ℕ) (users : Option (List Text)) (r : ServerReq)
    → (random : Option Text) (ss ss' : Servers)
    → write_server c workspace id users r random ss ≡ (ss', reply 200 (has_id id))
    → users ≡ some []
unfolding write_server error
write_server-nil c workspace id none r random ss ss' h = absurd (ground arith)
write_server-nil c workspace id (some []) r random ss ss' h = refl
write_server-nil c workspace id (some (n ∷ ns)) r random ss ss' h = absurd (ground arith)

module _ (print : Value → Text) (workspace id : ℕ) (cat : Catalog) (ss ss' : Servers) where
  -- A server that is deleted was one of the workspace, and no step `mcp.*` of a current definition of
  -- the workspace names it.
  pub delete_server-unused :
      {w : WorkflowRow} {definition : Value}
      → delete_server print workspace (some id) cat ss ≡ (ss', reply 204 no_content)
      → Memᴰ w cat.workflows
      → w.workspace ≡ workspace
      → current_definition cat.versions w ≡ some definition
      → (s : ServerRow) × Memᴰ s ss.rows
        × (owned id workspace s ≡ true)
        × (any_step print (codes "mcp.") (codes "server") s.name definition ≡ some false)
  unfolding delete_server error
  delete_server-unused h m same current = elim (Option-cases (find (owned id workspace) ss.rows)) [
    | inl e ↦ absurd (ground arith)
    | inr (s, e) ↦
        let (n, q) = find-some (owned id workspace) ss.rows e in
        let users =
          remove_server-nil workspace id (server_users print workspace s.name cat) ss ss'
            (rw (e, delete_server) at h) in
        (
          s,
          n,
          q,
          referencing_workflows-nil print workspace s.name cat (codes "mcp.") (codes "server") users
              m same current,
        )
  ]

  -- A server that is updated was one of the workspace, and it keeps its name, or no step `mcp.*` of a
  -- current definition of the workspace names it as it was.
  pub update_server-unused :
      (c : Cipher) (r : ServerReq) (random : Option Text) {w : WorkflowRow} {definition : Value}
      → update_server print c workspace (some id) (some r) random cat ss
        ≡ (ss', reply 200 (has_id id))
      → Memᴰ w cat.workflows
      → w.workspace ≡ workspace
      → current_definition cat.versions w ≡ some definition
      → (s : ServerRow) × Memᴰ s ss.rows
        × (owned id workspace s ≡ true)
        × ((s.name ≡ trim_space r.name)
            ⊎ (any_step print (codes "mcp.") (codes "server") s.name definition ≡ some false))
  unfolding update_server rename_users error
  update_server-unused c r random h m same current = elim (Option-cases (validate_server r)) [
    | inr (message, v) ↦ absurd (ground arith)
    | inl v ↦ elim (Option-cases (find (owned id workspace) ss.rows)) [
      | inl e ↦ absurd (ground arith)
      | inr (s, e) ↦
          let (n, q) = find-some (owned id workspace) ss.rows e in
          let users =
            write_server-nil c workspace id (rename_users print workspace r s cat) r random ss ss'
              (rw (v, e, update_server) at h) in
          elim (Bool-cases (text_eq s.name (trim_space r.name))) [
            | inl k ↦ (s, n, q, inl ((text_eq_iff s.name (trim_space r.name)).0 k))
            | inr k ↦ (
              s,
              n,
              q,
              inr (
                  referencing_workflows-nil print workspace s.name cat (codes "mcp.")
                    (codes "server") (rw (k, rename_users) at users) m same current),
            )
          ]
    ]
  ]
