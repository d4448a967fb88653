-- ===== src/Api/Auth/Principals.antt =====
-- Who is admitted, and as what.
use oarlock.Prelude.{
  ℕ, ◌≡◌, ◌<◌, sym, ap, ◌∙◌, inl, inr, Text, text_eq_iff, true, false, none, some, Memᴰ, arith,
  Bool-cases, Option-cases, is_prefix,
}
use oarlock.Prelude.Tables.{find, oldest, find-some, oldest-some}
use oarlock.Api.Users.{Member, Session, Accounts, is_admin_role, with_id}
use oarlock.Api.Tokens.{bearer, authenticate_token}
use oarlock.Api.Auth.{
  Principal, Auth, Request, admitted, admin, auth_skip, live_session, member_is, join_session,
  load_session, token_principal, with_auth, require_admin,
}

-- The principal is the one of a session that has not expired, with the role of its user in the
-- workspace.
pub record OfSession (hash : Text → Text) (now : ℕ) (cookie : Text) (a : Accounts) (p : Principal)
    : Type 0 where
  pub session : Session
  pub stored : Memᴰ session a.sessions
  pub presented : session.token ≡ hash cookie
  pub unexpired : now < session.expires_at
  pub user : p.user ≡ some session.user
  pub member : Member
  pub joined : Memᴰ member a.members
  pub own : member.user ≡ session.user
  pub workspace : p.workspace ≡ member.workspace
  pub role : p.role ≡ member.role
  pub hashed : p.session_token_hash ≡ hash cookie

some-inj : {p q : Principal} → some p ≡ some q → p ≡ q
some-inj h = cc

module _ (hash : Text → Text) (now : ℕ) where
  pub load_session-OfSession :
      (cookie : Text) (a : Accounts) {p : Principal}
      → load_session hash now cookie a ≡ some p
      → OfSession hash now cookie a p
  unfolding load_session join_session
  load_session-OfSession cookie a {p} h =
      elim (Option-cases (find (live_session (hash cookie) now) a.sessions)) [
        | inl e ↦ absurd (ground arith)
        | inr (s, e) ↦ elim (Option-cases (find (with_id s.user) a.users)) [
          | inl f ↦ absurd (ground arith)
          | inr (u, f) ↦ elim (Option-cases (oldest (member_is u.id) a.members)) [
            | inl g ↦ absurd (ground arith)
            | inr (m, g) ↦
                let (stored, live) = find-some (live_session (hash cookie) now) a.sessions e in
                let (_, same) = find-some (with_id s.user) a.users f in
                let (joined, own) = oldest-some (member_is u.id) a.members g in
                record {
                  session = s;
                  stored = stored;
                  presented = (text_eq_iff s.token (hash cookie)).0 (ground arith);
                  unexpired = ground arith;
                  user = ground arith;
                  member = m;
                  joined = joined;
                  own = ground arith;
                  workspace = ground arith;
                  role = ground arith;
                  hashed = ground arith;
                }
          ]
        ]
      ]

  -- A token's principal is no admin.
  token_principal-plain :
      (authorization : Text) (s : Auth) {p : Principal}
      → (token_principal hash now authorization s).1 ≡ some p
      → admin (some p) ≡ false
  unfolding token_principal admin
  token_principal-plain authorization s h =
      elim (Option-cases (authenticate_token hash authorization now s.tokens).1) [
        | inl e ↦ absurd (ground arith)
        | inr (w, e) ↦ ground arith
      ]

  -- A request that `WithAuth` admits and `requireAdmin` lets pass carries no API token: its cookie is
  -- that of a session that is stored and has not expired, and the user of the session is an owner or
  -- an admin of the workspace in which the request is handled.
  pub with_auth-admin :
      (r : Request) (s s' : Auth) (p : Principal)
      → with_auth hash now r s ≡ (s', admitted p)
      → require_admin (some p) ≡ none
      → (cookie : Text) × (o : OfSession hash now cookie s.accounts p) × (r.cookie ≡ some cookie)
        × (is_prefix bearer r.authorization ≡ false)
        × (o.member.workspace ≡ p.workspace)
        × (is_admin_role o.member.role ≡ true)
  unfolding with_auth require_admin
  with_auth-admin r s s' p h passed = elim (Bool-cases (auth_skip r.path)) [
    | inl e ↦ absurd (ground arith)
    | inr e ↦ elim (Bool-cases (is_prefix bearer r.authorization)) [
      | inl f ↦ elim (Option-cases (token_principal hash now r.authorization s).1) [
        | inl g ↦ absurd (ground arith)
        | inr (q, g) ↦
            let same : q ≡ p = ground arith in
            let plain = token_principal-plain r.authorization s g in
            absurd (ground (arith, ap (λ (t : Principal). admin (some t)) same))
      ]
      | inr f ↦ elim (Option-cases r.cookie) [
        | inl g ↦ absurd (ground arith)
        | inr (cookie, g) ↦ elim (Option-cases (load_session hash now cookie s.accounts)) [
          | inl k ↦ absurd (ground arith)
          | inr (q, k) ↦
              let same : q ≡ p = ground arith in
              let o =
                load_session-OfSession cookie s.accounts
                  (k ∙ ap (λ (t : Principal). some t) same) in
              let role = o.role in
              (cookie, o, g, f, sym o.workspace, ground (arith, ap is_admin_role role))
        ]
      ]
    ]
  ]
