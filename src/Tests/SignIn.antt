-- ===== src/Tests/SignIn.antt =====
-- An owner who sets the instance up, signs in, manages a token and changes the password.
use oarlock.Prelude.{
  ℕ, ◌+◌, ◌≡◌, ◌≢◌, inl, inr, refl, Text, text_eq, codes, Bool, true, false, Option, none, some,
  List, [], ◌∷◌, Memᴰ, arith, ltb, is_prefix, trim_space, if◌then◌else◌,
}
use oarlock.Prelude.Tables.{any_row}
use oarlock.Api.Http.{reply, error, said}
use oarlock.Api.RateLimit.{allowed, new_login_limiter}
use oarlock.Api.RateLimit.Sliding.{Call, fails, checks, after_calls, recent_failures}
use oarlock.Api.Users.{
  User, Member, Session, Accounts, no_content, is_admin_role, delete_user, member_of, admin_count,
  is_admin,
}
use oarlock.Api.Tokens.{
  Tokens, minted, bearer, raw_of, authenticate_token, rotate_api_token, create_api_token,
  delete_api_token,
}
use oarlock.Api.Tokens.Rotation.{rotate_api_token-swaps}
use oarlock.Api.Auth.{
  Auth, Principal, PrincipalKind, Request, admitted, signed_in, load_session, join_session,
  session_ttl, with_auth, require_admin, has_password,
}
use oarlock.Api.Auth.Principals.{OfSession, with_auth-admin}
use oarlock.Api.SignIn.{authenticate, change_password, login, setup, unclaimed}
use oarlock.Api.SignIn.Setup.{setup-once}
use oarlock.Api.SignIn.Login.{login-load, login-refused, new_session}
use oarlock.Api.SignIn.Passwords.{signed_out_by_admin}

-- Toy hashes that depend on what they hash.
abbrev hash : Text → Text
hash token = b'#' ∷ token

abbrev hash_password : Text → Option Text
hash_password password = some (b'$' ∷ password)

abbrev verify_password : Text → Text → Bool
verify_password hashed password = text_eq hashed (b'$' ∷ password)

abbrev seeded : User
seeded = record {
  id = 1;
  email = codes "owner@localhost";
  name = [];
  password_hash = none;
  must_change_password = false;
}

abbrev owner : Member
owner = record { workspace = 7; user = 1; role = codes "owner" }

abbrev fresh_instance : Auth
fresh_instance = record {
  accounts = record { users = seeded ∷ []; members = owner ∷ []; sessions = []; next_id = 2 };
  tokens = record { rows = []; next_id = 1 };
  setup_configured = false;
  attempts = new_login_limiter;
}

abbrev account : Option (Text × Text × Text)
account = some (codes "ada@example.org", codes "Ada", codes "correct horse")

abbrev set_up : Auth
set_up = (setup hash hash_password verify_password 10 account (some (codes "t1")) fresh_instance).0

sets_up :
    setup hash hash_password verify_password 10 account (some (codes "t1")) fresh_instance
    ≡ (set_up, reply 201 (signed_in (codes "t1")))
unfolding setup text_eq unclaimed
sets_up = refl

-- Another process, whose cache is not set.
abbrev restarted : Auth
restarted = record set_up { setup_configured = false }

setup-once_example :
    (u : User) × Memᴰ u fresh_instance.accounts.users
    × (unclaimed fresh_instance.accounts u ≡ true)
    × (any_row has_password fresh_instance.accounts.users ≡ false)
    × ((rest : List Session) × (set_up.accounts.sessions
          ≡ new_session (hash (codes "t1")) u.id 10 ∷ rest))
    × (any_row has_password set_up.accounts.users ≡ true)
    × (setup hash hash_password verify_password 20 account (some (codes "t2")) restarted ≡ (
      record restarted { setup_configured = true },
      error 409 (said (codes "setup is already complete")),
    ))
setup-once_example =
    setup-once hash hash_password verify_password 10 (some (codes "t1")) set_up (codes "t1") account
      account (some (codes "t2")) 20 fresh_instance restarted sets_up (λ x m p. (x, m, refl, p))

abbrev logged_in : Auth
logged_in =
    (login hash hash_password verify_password 20 (codes "ip")
      (some (codes "ada@example.org", codes "correct horse")) (some (codes "t2")) set_up).0

logs_in :
    login hash hash_password verify_password 20
      (codes "ip")
      (some (codes "ada@example.org", codes "correct horse"))
      (some (codes "t2"))
      set_up
    ≡ (logged_in, reply 200 (signed_in (codes "t2")))
unfolding login setup text_eq unclaimed allowed
logs_in = refl

login-load_example :
    (user : ℕ) × (◌≡◌ {A = Option Text} (some (codes "t2")) (some (codes "t2")))
    × (authenticate verify_password
          (codes "ada@example.org")
          (codes "correct horse")
          set_up.accounts
        ≡ some user)
    × (load_session hash 30 (codes "t2") logged_in.accounts ≡ (
        if ltb 30 (20 + session_ttl)
        then join_session
            (hash (codes "t2"))
            (new_session (hash (codes "t2")) user 20)
            set_up.accounts
        else none))
login-load_example =
    login-load hash hash_password verify_password 20 (codes "ip") (codes "ada@example.org")
      (codes "correct horse") (codes "t2") (some (codes "t2")) set_up logged_in 30 logs_in

abbrev history : List Call
history = fails (codes "ip|ada@example.org") 15 ∷ []

abbrev failed_before : Auth
failed_before = record set_up { attempts = after_calls history }

wrong_password :
    authenticate verify_password (codes "ada@example.org") (codes "guess") failed_before.accounts
    ≡ none
unfolding authenticate setup text_eq unclaimed
wrong_password = refl

login-refused_example :
    let (s', r) =
      login hash hash_password verify_password 20
        (codes "ip")
        (some (codes "ada@example.org", codes "guess"))
        (some (codes "t3"))
        failed_before in
    let open_to = ltb (recent_failures (codes "ip|ada@example.org") 20 history) 10 in
    (r ≡ (
      if open_to
      then error 401 (said (codes "invalid email or password"))
      else error 429 (said (codes "too many attempts; try again later"))))
    × (s'.accounts ≡ failed_before.accounts)
    × (s'.attempts ≡ (
        if open_to
        then after_calls (
            fails (codes "ip|ada@example.org") 20
            ∷ checks (codes "ip|ada@example.org") 20
            ∷ history)
        else after_calls (checks (codes "ip|ada@example.org") 20 ∷ history)))
login-refused_example =
    login-refused hash hash_password verify_password 20 (codes "ip") (codes "ada@example.org")
      (codes "guess") (some (codes "t3")) failed_before history refl (omega arith, tt)
      (inr wrong_password)

abbrev visit : Request
visit = record {
  path = codes "/v1/users";
  authorization = [];
  cookie = some (codes "t2");
  client_ip = codes "ip";
}

abbrev ada : Principal
ada = record {
  kind = PrincipalKind.session;
  user = some 1;
  workspace = 7;
  role = codes "owner";
  must_change_password = false;
  session_token_hash = codes "#t2";
}

is_let_in : with_auth hash 30 visit logged_in ≡ (logged_in, admitted ada)
unfolding with_auth login setup text_eq unclaimed allowed
is_let_in = refl

may_manage : require_admin (some ada) ≡ none
unfolding require_admin is_admin_role text_eq
may_manage = refl

with_auth-admin_example :
    (cookie : Text) × (o : OfSession hash 30 cookie logged_in.accounts ada) × (◌≡◌ {A = Option Text}
      (some (codes "t2"))
      (some cookie))
    × (is_prefix bearer [] ≡ false)
    × (o.member.workspace ≡ 7)
    × (is_admin_role o.member.role ≡ true)
with_auth-admin_example = with_auth-admin hash 30 visit logged_in logged_in ada is_let_in may_manage

abbrev two_users : Accounts
two_users = record {
  users = record seeded { id = 2; email = codes "bob@example.org" } ∷ seeded ∷ [];
  members = record { workspace = 7; user = 2; role = codes "admin" } ∷ owner ∷ [];
  sessions =
      record { token = codes "#b"; user = 2; expires_at = 90 }
      ∷ record { token = codes "#t2"; user = 1; expires_at = 90 }
      ∷ [];
  next_id = 3;
}

abbrev without_bob : Accounts
without_bob = (delete_user 7 2 two_users).0

bob_goes : delete_user 7 2 two_users ≡ (without_bob, no_content)
unfolding delete_user text_eq member_of admin_count is_admin is_admin_role
bob_goes = refl

ada_stays : load_session hash 30 (codes "t2") without_bob ≡ some ada
unfolding load_session delete_user text_eq member_of admin_count is_admin is_admin_role
ada_stays = refl

bob_is_out : load_session hash 30 (codes "b") without_bob ≡ none
unfolding load_session delete_user text_eq member_of admin_count is_admin is_admin_role
bob_is_out = refl

signed_out_by_admin_example : ada.user ≢ some 2
signed_out_by_admin_example =
    signed_out_by_admin hash hash_password 7 2 30 [] (codes "t2") two_users without_bob ada
      (inl bob_goes) ada_stays

abbrev changed : Auth
changed =
    (change_password hash hash_password verify_password 30 1 false (codes "#t2")
      (some (codes "correct horse", codes "battery staple")) logged_in).0

abbrev issued : Tokens
issued =
    (create_api_token hash 7 (some 1) (some (codes "ci")) (some (codes "0a0b"))
      (record { rows = []; next_id = 1 })).0

abbrev rotated_once : Tokens
rotated_once = (rotate_api_token hash 7 (some 1) (some (codes "0c0d")) issued).0

rotates :
    rotate_api_token hash 7 (some 1) (some (codes "0c0d")) issued
    ≡ (rotated_once, reply 200 (minted 1 (codes "oak_0c0d")))
unfolding rotate_api_token create_api_token text_eq trim_space
rotates = refl

old_header : raw_of (codes "Bearer oak_0a0b") ≡ some (codes "oak_0a0b")
unfolding raw_of
old_header = refl

rotate_api_token-swaps_example :
    (authenticate_token hash (codes "Bearer oak_0a0b") 50 rotated_once).1 ≡ (
      if text_eq (hash (codes "oak_0c0d")) (hash (codes "oak_0a0b"))
      then some 7
      else (authenticate_token hash
          (codes "Bearer oak_0a0b")
          50
          (delete_api_token 7 (some 1) issued).0).1)
rotate_api_token-swaps_example =
    rotate_api_token-swaps hash 7 1 (codes "0c0d") (codes "oak_0c0d") (codes "Bearer oak_0a0b")
      (codes "oak_0a0b") 50 issued rotated_once rotates old_header
