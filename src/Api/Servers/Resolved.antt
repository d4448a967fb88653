-- ===== src/Api/Servers/Resolved.antt =====
-- What the executors get of a server that was updated.
use oarlock.Prelude.{
  ℕ, ◌≡◌, ◌≤◌, refl, inl, inr, Text, text_eq, text_eq_refl, true, false, Option, none, some, ◌∙◌,
  subst, List, [], ◌∷◌, ◌++◌, arith, length, length-append, if◌then◌else◌, trim_space, Bool-cases,
  Option-cases,
}
use oarlock.Prelude.Tables.{find, any_row, update, find-updated}
use oarlock.Json.{Value}
use oarlock.Api.Http.{reply, error}
use oarlock.Api.Workflows.{Catalog}
use oarlock.Api.Servers.{
  Servers, ServerReq, has_id, owned, server_named, name_taken_by_other, enabled, revised,
  validate_server, save_server, seal_auth, write_server, rename_users, update_server,
}
use oarlock.Vault.{Cipher, IsAead, ServerRow, encrypt, decrypt, open_auth, server}
use oarlock.Vault.Opens.{decrypt-encrypt}

revised-server_named :
    (id workspace : ℕ) (r : ServerReq) (auth : Option (Option Text)) (s : ServerRow)
    → owned id workspace s ≡ true
    → server_named workspace (trim_space r.name) (revised r auth s) ≡ true
unfolding owned server_named
revised-server_named id workspace r auth s h = ground (arith, text_eq_refl (trim_space r.name))

module _ (c : Cipher) where
  open_auth-decrypt :
      (sealed : Text) → 1 ≤ length sealed → open_auth c (some sealed) ≡ decrypt c sealed
  unfolding open_auth
  open_auth-decrypt [] h = absurd (ground arith)
  open_auth-decrypt (b ∷ sealed) h = refl

  encrypt-cons :
      (nonce plain sealed : Text)
      → 1 ≤ length nonce
      → encrypt c (some nonce) plain ≡ some sealed
      → 1 ≤ length sealed
  unfolding encrypt
  encrypt-cons nonce plain sealed n h =
      let made : nonce ++ c.seal nonce plain ≡ sealed = ground arith in
      rw (← made, length-append nonce (c.seal nonce plain)) (omega arith)

  -- What a server resolves to, where the query finds its row.
  server-found :
      (workspace : ℕ) (name : Text) (rows : List ServerRow) (s : ServerRow) (header : Text)
      → find (server_named workspace name) rows ≡ some s
      → open_auth c s.auth_encrypted ≡ some header
      → server c workspace name rows ≡ (if s.is_enabled then some (s.url, header) else none)
  unfolding server server_named
  server-found workspace name rows s header h opens = rw (h, opens, server)

module _ (c : Cipher) (aead : IsAead c) where
  -- A sealed header opens to its trimmed text.
  open_auth-seal_auth :
      (nonce header : Text) (sealed : Option Text)
      → length nonce ≡ c.nonce_size
      → seal_auth c (some nonce) (some header) ≡ some sealed
      → open_auth c sealed ≡ some (trim_space header)
  unfolding seal_auth encrypt open_auth text_eq
  open_auth-seal_auth nonce header sealed n h = sealed_of (trim_space header) h
    where
      sealed_of :
          (plain : Text)
          → (if text_eq plain []
              then some none
              else elim (encrypt c (some nonce) plain) [ none ↦ none | some z ↦ some (some z) ])
            ≡ some sealed
          → open_auth c sealed ≡ some plain
      sealed_of [] h =
          let made : none ≡ sealed = ground arith in
          subst (λ (o : Option Text). open_auth c o ≡ some []) made refl
      sealed_of (b ∷ plain) h =
          let z = nonce ++ c.seal nonce (b ∷ plain) in
          let made : some z ≡ sealed = ground arith in
          let bytes : 1 ≤ length nonce = omega (arith, aead.nonce_size-pos, n) in
          subst (λ (o : Option Text). open_auth c o ≡ some (b ∷ plain)) made
            (open_auth-decrypt c z (encrypt-cons c nonce (b ∷ plain) z bytes refl)
              ∙ decrypt-encrypt c aead nonce (b ∷ plain) z n refl)

  save_server-saved :
      (workspace id : ℕ) (r : ServerReq) (auth : Option (Option Text)) (ss ss' : Servers)
      → save_server workspace id r auth ss ≡ (ss', reply 200 (has_id id))
      → (any_row (name_taken_by_other id workspace (trim_space r.name)) ss.rows ≡ false)
        × (ss'.rows ≡ update (owned id workspace) (revised r auth) ss.rows)
  unfolding save_server error
  save_server-saved workspace id r auth ss ss' h =
      elim (Bool-cases (any_row (name_taken_by_other id workspace (trim_space r.name)) ss.rows)) [
        | inl e ↦ absurd (ground arith)
        | inr e ↦ (e, ground arith)
      ]

  -- What the update writes where no workflow is in the way and the request has a header.
  write_server-saves :
      (workspace id : ℕ) (users : Option (List Text)) (r : ServerReq) (nonce header : Text)
      → (ss ss' : Servers) → r.auth_header ≡ some header
      → write_server c workspace id users r (some nonce) ss ≡ (ss', reply 200 (has_id id))
      → (sealed : Option Text) × (seal_auth c (some nonce) (some header) ≡ some sealed)
        × (save_server workspace id r (some sealed) ss ≡ (ss', reply 200 (has_id id)))
  unfolding write_server error
  write_server-saves workspace id none r nonce header ss ss' a h = absurd (ground arith)
  write_server-saves workspace id (some (n ∷ ns)) r nonce header ss ss' a h = absurd (ground arith)
  write_server-saves workspace id (some []) r nonce header ss ss' a h =
      elim (Option-cases (seal_auth c (some nonce) (some header))) [
        | inl e ↦ absurd (ground arith)
        | inr (sealed, e) ↦ (sealed, e, rw (a, e, write_server) at h)
      ]

  -- After an update that succeeds and has a header, the server's name resolves to its trimmed URL with
  -- its trimmed header where it is enabled, and to nothing where it is not: given that the cipher
  -- opens what it seals with a nonce of its size.
  pub update_server-resolves :
      (print : Value → Text) (workspace id : ℕ) (r : ServerReq) (nonce header : Text)
      → (cat : Catalog) (ss ss' : Servers) → length nonce ≡ c.nonce_size
      → r.auth_header ≡ some header
      → update_server print c workspace (some id) (some r) (some nonce) cat ss
        ≡ (ss', reply 200 (has_id id))
      → server c workspace (trim_space r.name) ss'.rows
        ≡ (if enabled r then some (trim_space r.url, trim_space header) else none)
  unfolding update_server error
  update_server-resolves print workspace id r nonce header cat ss ss' n a h =
      elim (Option-cases (validate_server r)) [
        | inr (message, v) ↦ absurd (ground arith)
        | inl v ↦ elim (Option-cases (find (owned id workspace) ss.rows)) [
          | inl e ↦ absurd (ground arith)
          | inr (s, e) ↦
              let (sealed, k, saved) =
                write_server-saves workspace id (rename_users print workspace r s cat) r nonce
                  header ss ss' a (rw (v, e, update_server) at h) in
              let (free, rows) = save_server-saved workspace id r (some sealed) ss ss' saved in
              let found =
                find-updated (server_named workspace (trim_space r.name)) (owned id workspace)
                  (revised r (some sealed)) ss.rows
                  (revised-server_named id workspace r (some sealed)) free e in
              rw rows (
                server-found c workspace (trim_space r.name)
                  (update (owned id workspace) (revised r (some sealed)) ss.rows)
                  (revised r (some sealed) s) (trim_space header) found
                  (open_auth-seal_auth nonce header sealed n k))
        ]
      ]
