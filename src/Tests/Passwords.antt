-- ===== src/Tests/Passwords.antt =====
-- Hashes of passwords.
use oarlock.Prelude.{
  text_eq, Bool, false, ◌⊎◌, Memᴰ, ℕ, zero, suc, ◌≡◌, ◌<◌, refl, Text, codes, true, none, some, [],
  ◌∷◌, arith,
}
use oarlock.Api.RateLimit.{new_login_limiter}
use oarlock.Api.Users.{User}
use oarlock.Api.Auth.{Auth, done}
use oarlock.Api.Http.{reply}
use oarlock.Api.SignIn.{authenticate, change_password}
use oarlock.Api.SignIn.Passwords.{IsGiven}
use oarlock.Api.SignIn.Verified.{change_password-authenticates}
use oarlock.Api.Password.{hash_password, verify_password, scan_params, decode}
use oarlock.Api.Password.Base64.{IsBytes}

abbrev repeat : ℕ → ℕ → Text
repeat b zero = []
repeat b (suc n) = b ∷ repeat b n

repeat-IsBytes : (b : ℕ) → b < 256 → (n : ℕ) → IsBytes (repeat b n)
repeat-IsBytes b h zero = IsBytes.nil
repeat-IsBytes b h (suc n) = IsBytes.cons h (repeat-IsBytes b h n)

-- A derivation that gives the length and nothing else of its arguments.
abbrev derive : Text → Text → ℕ → ℕ → ℕ → ℕ → Text
derive password salt time memory threads n = repeat 7 n

abbrev hashed : Text
hashed = codes "$argon2id$v=19$m=19456,t=2,p=1$AwMD$BwcHBwcHBwcHBwcHBwcHBwcHBwcHBwcHBwcHBwcHBwc"

base64_test : decode (codes "aGVsbG8") ≡ some (codes "hello")
unfolding decode
base64_test = refl

params_test : scan_params (codes "m=65536,t=3,p=256") ≡ none
unfolding scan_params
params_test = refl

abbrev invited : User
invited = record {
  id = 1;
  email = codes "ada@example.org";
  name = codes "Ada";
  password_hash = some (codes "$temporary");
  must_change_password = true;
}

abbrev ada : User
ada = record invited { password_hash = some hashed; must_change_password = false }

abbrev before : Auth
before = record {
  accounts = record { users = invited ∷ []; members = []; sessions = []; next_id = 2 };
  tokens = record { rows = []; next_id = 1 };
  setup_configured = true;
  attempts = new_login_limiter;
}

abbrev after : Auth
after = record before { accounts = record before.accounts { users = ada ∷ [] } }

changes :
    change_password
      (λ t. t)
      (λ p. hash_password derive p (some (repeat 3 3)))
      (verify_password derive)
      30
      1
      true
      (codes "t")
      (some ([], codes "battery staple"))
      before
    ≡ (after, reply 200 done)
unfolding change_password hash_password
changes = refl

change_password-authenticates_example :
    ((◌≡◌ {A = Bool} true true) ⊎ IsGiven (verify_password derive) 1 [] before.accounts)
    × (authenticate
          (verify_password derive)
          (codes "ada@example.org")
          (codes "battery staple")
          after.accounts
        ≡ some 1)
unfolding text_eq
change_password-authenticates_example =
    change_password-authenticates derive (repeat 3 3) (repeat-IsBytes 3 (omega arith) 3) (λ t. t) 30
      [] true (codes "t") (codes "battery staple") before after ada changes (Memᴰ.head refl)
      (omega arith) (repeat-IsBytes 7 (omega arith) 32) refl
