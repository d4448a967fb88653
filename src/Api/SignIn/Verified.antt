-- ===== src/Api/SignIn/Verified.antt =====
-- A password that was changed lets its user in, with the hashes of password.go.
use oarlock.Prelude.{
  ℕ, ◌≡◌, ◌≤◌, ◌⊎◌, refl, Text, text_eq_refl, Bool, true, some, Memᴰ, length, count_if,
}
use oarlock.Prelude.Tables.{find}
use oarlock.Prelude.Keys.{find-single}
use oarlock.Api.Http.{reply}
use oarlock.Api.Users.{User, has_email}
use oarlock.Api.Auth.{Auth, done}
use oarlock.Api.SignIn.{authenticate, change_password}
use oarlock.Api.SignIn.Passwords.{IsGiven, change_password-stored}
use oarlock.Api.Password.{hash_password, verify_password}
use oarlock.Api.Password.Base64.{IsBytes}
use oarlock.Api.Password.Verified.{verify_password-hash_password}

has_email-own : (u : User) → has_email u.email u ≡ true
has_email-own u = text_eq_refl u.email

module _ (derive : Text → Text → ℕ → ℕ → ℕ → ℕ → Text) (salt : Text) (salted : IsBytes salt) where
  -- A change of the password that succeeds had the current password, unless the user had to change
  -- it; and the user's address with the new password then authenticates the user: given that no other
  -- user has the address, and that the salt and the derived key are bytes, of which the key has 32.
  pub change_password-authenticates :
      (hash : Text → Text) (now : ℕ) (current : Text) (must_change : Bool) (token new : Text)
      → (s s' : Auth) (u : User)
      → change_password hash
          (λ p. hash_password derive p (some salt))
          (verify_password derive)
          now
          u.id
          must_change
          token
          (some (current, new))
          s
        ≡ (s', reply 200 done)
      → Memᴰ u s'.accounts.users
      → count_if (has_email u.email) s'.accounts.users ≤ 1
      → IsBytes (derive new salt 2 19456 1 32)
      → length (derive new salt 2 19456 1 32) ≡ 32
      → ((must_change ≡ true) ⊎ IsGiven (verify_password derive) u.id current s.accounts)
        × (authenticate (verify_password derive) u.email new s'.accounts ≡ some u.id)
  unfolding authenticate
  change_password-authenticates hash now current must_change token new s s' u h m single bytes
        sized =
      let (hashed, made, given, stored, _) =
        change_password-stored hash (λ p. hash_password derive p (some salt))
          (verify_password derive) now u.id current must_change token new s s' h u m refl in
      let verified : verify_password derive hashed new ≡ true =
        verify_password-hash_password derive new salt hashed salted bytes sized made in
      let found : find (has_email u.email) s'.accounts.users ≡ some u =
        find-single (has_email u.email) s'.accounts.users single m (has_email-own u) in
      (given, rw (found, stored, verified, authenticate))
