-- ===== src/Api/Auth.antt =====
-- engine/internal/api/auth.go: sessions, sign-in and the principal of a request.
pub mod Principals
use oarlock.Prelude.{
  ℕ, ◌+◌, ◌*◌, ◌≡◌, Text, text_eq, codes, Bool, true, false, not, ◌&&◌, ◌||◌, Option, none, some,
  List, [], ◌∷◌, ◌++◌, ltb, ◌==◌, if◌then◌else◌, length, is_prefix, trim_space,
}
use oarlock.Prelude.Tables.{find, oldest, update, delete, any_row}
use oarlock.Api.Http.{Reply, reply, error, said, library_error}
use oarlock.Api.RateLimit.{LoginLimiter, allowed, fail, reset}
use oarlock.Api.Users.{
  User, Member, Session, Accounts, is_admin_role, with_id, has_email, session_of, min_password_len,
}
use oarlock.Api.Tokens.{Tokens, bearer, authenticate_token}

pub data PrincipalKind : Type 0 where
  session token : PrincipalKind

-- `authInfo`, less the names that only `me` shows. `nil` is the user of a token.
pub record Principal : Type 0 where
  pub kind : PrincipalKind
  pub user : Option ℕ
  pub workspace : ℕ
  pub role : Text
  pub must_change_password : Bool
  pub session_token_hash : Text

abbrev pub is_session : PrincipalKind → Bool
is_session PrincipalKind.session = true
is_session PrincipalKind.token = false

-- The method `admin`.
unfoldable pub admin : Option Principal → Bool
admin none = false
admin (some p) = is_session p.kind && is_admin_role p.role

-- What the handlers share: the rows, the cache `setupConfigured` and the limiter `loginAttempts`.
pub record Auth : Type 0 where
  pub accounts : Accounts
  pub tokens : Tokens
  pub setup_configured : Bool
  pub attempts : LoginLimiter

-- The parts of a request that are read here. An absent header is empty, as `Header.Get` has it.
pub record Request : Type 0 where
  pub path : Text
  pub authorization : Text
  pub cookie : Option Text
  pub client_ip : Text

-- The body of a response. `signed_in` sets the cookie to a token, `signed_out` clears it.
pub data Body : Type 0 where
  done signed_out : Body
  signed_in : Text → Body
  authentication_required : Bool → Body

-- What `WithAuth` does: the handler runs, with the principal in its context or none, or a response.
pub data Access : Type 0 where
  unguarded : Access
  admitted : Principal → Access
  denied : Reply Body → Access

-- 30 days, in nanoseconds.
abbrev pub session_ttl : ℕ
session_ttl = 30 * 24 * 3600 * 1_000_000_000

unfoldable pub auth_skip : Text → Bool
unfolding text_eq
auth_skip path =
    text_eq path (codes "/v1/setup")
    || (text_eq path (codes "/v1/login") || text_eq path (codes "/v1/logout"))

abbrev pub has_password : User → Bool
has_password u = elim u.password_hash [ none ↦ false | some h ↦ true ]

-- Whether no user can log in yet, with the cache that keeps the answer "no".
unfoldable pub setup_required : Auth → Auth × Bool
unfolding any_row
setup_required s =
    if s.setup_configured
    then (s, false)
    else (let exists = any_row has_password s.accounts.users in
        (if exists then record s { setup_configured = true } else s, not exists))

abbrev pub live_session : Text → ℕ → Session → Bool
live_session hashed now s = text_eq s.token hashed && ltb now s.expires_at

-- `order by m.created_at limit 1`: the first membership of the user.
abbrev pub member_is : ℕ → Member → Bool
member_is user m = m.user == user

-- The principal of a session's row: its join with the user and the user's first membership. The
-- workspace of a membership exists.
unfoldable pub join_session : Text → Session → Accounts → Option Principal
unfolding find oldest
join_session hashed s a = elim (find (with_id s.user) a.users) [
  | none ↦ none
  | some u ↦ elim (oldest (member_is u.id) a.members) [
    | none ↦ none
    | some m ↦ some (record {
      kind = PrincipalKind.session;
      user = some u.id;
      workspace = m.workspace;
      role = m.role;
      must_change_password = u.must_change_password;
      session_token_hash = hashed;
    })
  ]
]

-- `hash` is `hashToken`: the hexadecimal digits of a SHA-256. `now` is the time of the database.
module _ (hash : Text → Text) (now : ℕ) where
  -- The write of `last_seen_at`, which nothing here reads, is left out.
  unfoldable pub load_session : Text → Accounts → Option Principal
  unfolding find text_eq join_session
  load_session cookie a = elim (find (live_session (hash cookie) now) a.sessions) [
    | none ↦ none
    | some s ↦ join_session (hash cookie) s a
  ]

  unfoldable pub token_principal : Text → Auth → Auth × Option Principal
  unfolding authenticate_token
  token_principal authorization s =
      let (tokens, workspace) = authenticate_token hash authorization now s.tokens in
      (
        record s { tokens = tokens },
        elim workspace [
          | none ↦ none
          | some w ↦ some (record {
            kind = PrincipalKind.token;
            user = none;
            workspace = w;
            role = codes "editor";
            must_change_password = false;
            session_token_hash = [];
          })
        ],
      )

  abbrev cookie_principal : Option Text → Accounts → Option Principal
  cookie_principal none a = none
  cookie_principal (some cookie) a = load_session cookie a

  unfoldable pub with_auth : Request → Auth → Auth × Access
  unfolding auth_skip is_prefix token_principal load_session setup_required
  with_auth r s =
      if auth_skip r.path
      then (s, unguarded)
      else if is_prefix bearer r.authorization
      then (let (s', found) = token_principal r.authorization s in
          (
            s',
            elim found [
              | none ↦ denied (error 401 (said (codes "invalid API token")))
              | some p ↦ admitted p
            ],
          ))
      else elim (cookie_principal r.cookie s.accounts) [
        | some p ↦ (s, admitted p)
        | none ↦
            let (s', setup) = setup_required s in
            (s', denied (reply 401 (authentication_required setup)))
      ]

-- What a handler behind `requireAdmin`, and one behind `requireSession`, is given: the response
-- that refuses, or none.
unfoldable pub require_admin : Option Principal → Option (Reply Body)
unfolding admin
require_admin p = if admin p then none else some (error 403 (said (codes "admin access required")))

unfoldable pub require_session : Option Principal → Option (Reply Body)
require_session none = some (error 403 (said (codes "session required")))
require_session (some p) =
    if is_session p.kind then none else some (error 403 (said (codes "session required")))
