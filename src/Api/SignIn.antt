-- ===== src/Api/SignIn.antt =====
-- engine/internal/api/auth.go: setup, login, logout and the change of a password.
pub mod Setup
pub mod Login
pub mod Passwords
pub mod Verified
use oarlock.Prelude.{
  ℕ, ◌+◌, ◌≡◌, Text, text_eq, codes, Bool, true, false, not, ◌&&◌, ◌||◌, Option, none, some, List,
  [], ◌∷◌, ◌++◌, ltb, ◌==◌, if◌then◌else◌, length, trim_space,
}
use oarlock.Prelude.Tables.{find, oldest, update, delete, any_row}
use oarlock.Api.Http.{Reply, reply, error, said, library_error}
use oarlock.Api.RateLimit.{allowed, fail, reset}
use oarlock.Api.Users.{
  User, Member, Session, Accounts, with_id, has_email, session_of, min_password_len,
}
use oarlock.Api.Auth.{
  Principal, Auth, Body, done, signed_in, signed_out, session_ttl, setup_required, member_is,
}

abbrev bad : {A : Type 0} → ℕ → Text → Reply A
bad status message = error status (said message)

abbrev short_password : Reply Body
short_password = error 422 (said (codes "password must be at least 8 characters"))

abbrev pub has_token : Text → Session → Bool
has_token hashed s = text_eq s.token hashed

abbrev pub no_password : User → Bool
no_password u = elim u.password_hash [ none ↦ true | some h ↦ false ]

-- `m.user_id = u.id and m.role = 'owner'`, for a user without a password.
unfoldable pub unclaimed : Accounts → User → Bool
unfolding any_row text_eq
unclaimed a u =
    no_password u
    && any_row (λ (m : Member). member_is u.id m && text_eq m.role (codes "owner")) a.members

-- The unique address is the one of another user.
unfoldable pub email_of_other : Text → ℕ → User → Bool
unfolding text_eq
email_of_other email id u = has_email email u && not (u.id == id)

abbrev pub claim_account : Text → Text → Text → User → User
claim_account email name hashed u = record u {
  email = email;
  name = name;
  password_hash = some hashed;
  must_change_password = false;
}

abbrev pub change : Text → User → User
change hashed u = record u { password_hash = some hashed; must_change_password = false }

abbrev pub set_accounts : Accounts → Auth → Auth
set_accounts a s = record s { accounts = a }

-- `where user_id = $1 and token <> $2`.
unfoldable pub other_session : ℕ → Text → Session → Bool
unfolding text_eq
other_session user hashed s = session_of user s && not (text_eq s.token hashed)

-- The user whose password it is.
unfoldable pub authenticate : (Text → Text → Bool) → Text → Text → Accounts → Option ℕ
unfolding find text_eq
authenticate verify_password email password a = elim (find (has_email email) a.users) [
  | none ↦ none
  | some u ↦ elim u.password_hash [
    | none ↦ none
    | some hashed ↦ if verify_password hashed password then some u.id else none
  ]
]

abbrev pub limit_key : Text → Text → Text
limit_key ip email = ip ++ (codes "|" ++ email)

abbrev pub expired : ℕ → Session → Bool
expired now s = ltb s.expires_at now

-- What the check of the current password says; `none` lets the change pass.
unfoldable pub refuses_change :
    (Text → Text → Bool) → ℕ → Bool → Text → Accounts → Option (Reply Body)
unfolding find
refuses_change verify_password user true current a = none
refuses_change verify_password user false current a = elim (find (with_id user) a.users) [
  | none ↦ some (error 500 library_error)
  | some u ↦ elim u.password_hash [
    | none ↦ some (bad 403 (codes "current password is incorrect"))
    | some hashed ↦
        if verify_password hashed current
        then none
        else some (bad 403 (codes "current password is incorrect"))
  ]
]

unfoldable pub logout : (Text → Text) → Option Text → Auth → Auth × Reply Body
unfolding delete text_eq
logout hash none s = (s, reply 204 signed_out)
logout hash (some cookie) s = (
  set_accounts
      (record s.accounts { sessions = delete (has_token (hash cookie)) s.accounts.sessions }) s,
  reply 204 signed_out,
)

-- `hash` is `hashToken`, `hash_password` is `hashPassword`, which may fail, and `verify_password` is
-- `verifyPassword`. The hexadecimal digits of a new token are an argument; `none` is the error of the
-- generator of random bytes. An e-mail address is trimmed and in lower case.
module _ (hash : Text → Text) (hash_password : Text → Option Text)
    (verify_password : Text → Text → Bool) (now : ℕ) where
  -- The table of sessions with the new one; `none` is an error.
  unfoldable pub start_session : ℕ → Option Text → Accounts → Option (Text × Accounts)
  unfolding any_row text_eq
  start_session user none a = none
  start_session user (some fresh) a =
      if any_row (has_token (hash fresh)) a.sessions
      then none
      else some (
        fresh,
        record a {
          sessions =
              record { token = hash fresh; user = user; expires_at = now + session_ttl }
              ∷ a.sessions;
        },
      )

  -- The response of a handler that ends with a new session.
  unfoldable pub sign_in : ℕ → ℕ → Option Text → Auth → Auth × Reply Body
  unfolding start_session
  sign_in status user fresh s = elim (start_session user fresh s.accounts) [
    | none ↦ (s, error 500 library_error)
    | some (token, a) ↦ (set_accounts a s, reply status (signed_in token))
  ]

  -- The update of the owner, and what follows it.
  unfoldable pub claim_owner : Text → Text → Text → Option Text → Auth → Auth × Reply Body
  unfolding oldest unclaimed any_row email_of_other update delete sign_in
  claim_owner email name hashed fresh s = elim (oldest (unclaimed s.accounts) s.accounts.users) [
    | none ↦ (s, bad 409 (codes "setup is already complete"))
    | some u ↦
        if any_row (email_of_other email u.id) s.accounts.users
        then (s, error 500 library_error)
        else sign_in 201 u.id fresh (record s {
          accounts = record s.accounts {
            users =
                update (λ x. with_id u.id x && no_password x) (claim_account email name hashed)
                  s.accounts.users;
            sessions = delete (session_of u.id) s.accounts.sessions;
          };
          setup_configured = true;
        })
  ]

  unfoldable pub setup_with : Text → Text → Text → Option Text → Auth → Auth × Reply Body
  unfolding claim_owner any_row text_eq trim_space
  setup_with email name password fresh s =
      if text_eq email [] || not (any_row (λ b. b == b'@') email)
      then (s, bad 422 (codes "a valid email is required"))
      else if ltb (length password) min_password_len
      then (s, short_password)
      else elim (hash_password password) [
        | none ↦ (s, error 500 library_error)
        | some hashed ↦ claim_owner email (trim_space name) hashed fresh s
      ]

  unfoldable pub setup : Option (Text × Text × Text) → Option Text → Auth → Auth × Reply Body
  unfolding setup_required setup_with
  setup body fresh s =
      let (s', required) = setup_required s in
      if not required then (s', bad 409 (codes "setup is already complete")) else elim body [
        | none ↦ (s', bad 400 (codes "invalid body"))
        | some (email, name, password) ↦ setup_with email name password fresh s'
      ]

  -- The limiter has its own clock, which is `now` too.
  unfoldable pub login_with : Text → Text → Text → Option Text → Auth → Auth × Reply Body
  unfolding authenticate allowed fail reset delete sign_in
  login_with ip email password fresh s =
      let key = limit_key ip email in
      let (free, attempts) = allowed key now s.attempts in
      if not free
      then (record s { attempts = attempts }, bad 429 (codes "too many attempts; try again later"))
      else elim (authenticate verify_password email password s.accounts) [
        | none ↦ (
          record s { attempts = fail key now attempts },
          bad 401 (codes "invalid email or password"),
        )
        | some user ↦ sign_in 200 user fresh (record s {
          attempts = reset key attempts;
          accounts = record s.accounts { sessions = delete (expired now) s.accounts.sessions };
        })
      ]

  unfoldable pub login : Text → Option (Text × Text) → Option Text → Auth → Auth × Reply Body
  unfolding login_with
  login ip none fresh s = (s, bad 400 (codes "invalid body"))
  login ip (some (email, password)) fresh s = login_with ip email password fresh s

  -- Behind `requireSession`, so the principal has a user: `user`. The flag is the one that the
  -- principal was loaded with.
  unfoldable pub change_password : ℕ → Bool → Text → Option (Text × Text) → Auth → Auth × Reply Body
  unfolding refuses_change update delete other_session
  change_password user must_change session_token_hash none s = (s, bad 400 (codes "invalid body"))
  change_password user must_change session_token_hash (some (current, new)) s =
      if ltb (length new) min_password_len
      then (s, short_password)
      else elim (refuses_change verify_password user must_change current s.accounts) [
        | some refusal ↦ (s, refusal)
        | none ↦ elim (hash_password new) [
          | none ↦ (s, error 500 library_error)
          | some hashed ↦ (
            set_accounts
                (record s.accounts {
                  users = update (with_id user) (change hashed) s.accounts.users;
                  sessions = delete (other_session user session_token_hash) s.accounts.sessions;
                })
                s,
            reply 200 done,
          )
        ]
      ]
