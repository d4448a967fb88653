-- ===== src/Api/SignIn/Passwords.antt =====
-- Whose sessions end when a password changes or a user goes.
use oarlock.Prelude.{
  ℕ, ◌≡◌, ◌≢◌, ◌⊎◌, refl, ap, inl, inr, Text, Bool, true, false, ◌&&◌, Option, none, some, List,
  Memᴰ, arith, ltb, leb, ◌==◌, length, if◌then◌else◌, Bool-cases, Option-cases, subst,
}
use oarlock.Prelude.Tables.{find, update, delete, update-from}
use oarlock.Prelude.Keys.{delete-away}
use oarlock.Api.Http.{Reply, reply, error}
use oarlock.Api.Users.{
  User, Member, Session, Accounts, is_admin_role, admin_count, with_id, session_of, no_content,
  ok_id, member_role, remove_user, delete_user, reset_user_password,
}
use oarlock.Api.Auth.{PrincipalKind, Principal, Auth, Body, done, load_session}
use oarlock.Api.Auth.Principals.{load_session-OfSession}
use oarlock.Api.SignIn.{change, other_session, refuses_change, change_password}

-- The sessions of a user are gone.
delete_user-sessions :
    (w id : ℕ) (a a' : Accounts)
    → delete_user w id a ≡ (a', no_content)
    → a'.sessions ≡ delete (session_of id) a.sessions
unfolding delete_user remove_user
delete_user-sessions w id a a' h = elim (Option-cases (member_role w id a)) [
  | inl e ↦ absurd (ground arith)
  | inr (role, e) ↦ elim (Bool-cases (is_admin_role role && leb (admin_count w a) 1)) [
    | inl f ↦ absurd (ground arith)
    | inr f ↦ ground arith
  ]
]

reset_user_password-sessions :
    (hash_password : Text → Option Text) (w id : ℕ) (password : Text) (a a' : Accounts)
    → reset_user_password hash_password w id password a ≡ (a', ok_id id)
    → a'.sessions ≡ delete (session_of id) a.sessions
unfolding reset_user_password
reset_user_password-sessions hash_password w id password a a' h =
    elim (Bool-cases (ltb (length password) 8)) [
      | inl e ↦ absurd (ground arith)
      | inr e ↦ elim (Option-cases (member_role w id a)) [
        | inl f ↦ absurd (ground arith)
        | inr (role, f) ↦ elim (Option-cases (hash_password password)) [
          | inl g ↦ absurd (ground arith)
          | inr (hashed, g) ↦ ground arith
        ]
      ]
    ]

-- The password that was given is the user's.
abbrev pub IsGiven : (Text → Text → Bool) → ℕ → Text → Accounts → Type 0
IsGiven verify_password user given a =
    (u : User) × (hashed : Text) × (find (with_id user) a.users ≡ some u)
    × (u.password_hash ≡ some hashed)
    × (verify_password hashed given ≡ true)

changed_user :
    (user : ℕ) (hashed : Text) (u x : User)
    → u ≡ (if with_id user x then change hashed x else x)
    → u.id ≡ user
    → (u.password_hash ≡ some hashed) × (u.must_change_password ≡ false)
changed_user user hashed u x e own = elim (Bool-cases (x.id == user)) [
  | inl f ↦ (ground arith, ground arith)
  | inr f ↦ absurd (ground (arith, ap (λ (y : User). y.id) e))
]

-- The principal of a session's row.
abbrev joined : Text → User → Member → Bool → Principal
joined hashed u m must_change = record {
  kind = PrincipalKind.session;
  user = some u.id;
  workspace = m.workspace;
  role = m.role;
  must_change_password = must_change;
  session_token_hash = hashed;
}

module _ (hash : Text → Text) where
  signed_out :
      (id now : ℕ) (cookie : Text) (ss : List Session) (a : Accounts) {p : Principal}
      → a.sessions ≡ delete (session_of id) ss
      → load_session hash now cookie a ≡ some p
      → p.user ≢ some id
  signed_out id now cookie ss a {p} gone h same =
      let o = load_session-OfSession hash now cookie a h in
      let user = o.user in
      let away = delete-away (session_of id) ss (subst (λ l. Memᴰ o.session l) gone o.stored) in
      ground arith

  -- After an admin has deleted a user or has reset the user's password, no cookie is loaded as a
  -- session of that user.
  pub signed_out_by_admin :
      (hash_password : Text → Option Text) (w id now : ℕ) (password cookie : Text) (a a' : Accounts)
      (p : Principal)
      → (delete_user w id a ≡ (a', no_content))
        ⊎ (reset_user_password hash_password w id password a ≡ (a', ok_id id))
      → load_session hash now cookie a' ≡ some p
      → p.user ≢ some id
  signed_out_by_admin hash_password w id now password cookie a a' p (inl h) =
      signed_out id now cookie a.sessions a' (delete_user-sessions w id a a' h)
  signed_out_by_admin hash_password w id now password cookie a a' p (inr h) =
      signed_out id now cookie a.sessions a'
        (reset_user_password-sessions hash_password w id password a a' h)

  module _ (hash_password : Text → Option Text) (verify_password : Text → Text → Bool) (now : ℕ)
      (user : ℕ) (current : Text) where
    refuses_change-IsGiven :
        (must_change : Bool) (a : Accounts)
        → refuses_change verify_password user must_change current a ≡ none
        → (must_change ≡ true) ⊎ IsGiven verify_password user current a
    unfolding refuses_change
    refuses_change-IsGiven true a h = inl refl
    refuses_change-IsGiven false a h = elim (Option-cases (find (with_id user) a.users)) [
      | inl e ↦ absurd (ground arith)
      | inr (u, e) ↦ elim (Option-cases u.password_hash) [
        | inl f ↦ absurd (ground arith)
        | inr (hashed, f) ↦ inr (u, hashed, e, f, ground arith)
      ]
    ]

    refuses_change-done :
        (must_change : Bool) (a : Accounts) {r : Reply Body}
        → refuses_change verify_password user must_change current a ≡ some r
        → r ≢ reply 200 done
    unfolding refuses_change error
    refuses_change-done true a h e = absurd (ground arith)
    refuses_change-done false a h e = elim (Option-cases (find (with_id user) a.users)) [
      | inl f ↦ absurd (ground arith)
      | inr (u, f) ↦ elim (Option-cases u.password_hash) [
        | inl g ↦ absurd (ground arith)
        | inr (hashed, g) ↦ absurd (ground arith)
      ]
    ]

    module _ (must_change : Bool) (token new : Text) (s s' : Auth)
        (changed : change_password hash hash_password verify_password now user must_change token
            (some (current, new))
            s
          ≡ (s', reply 200 done)) where
      change_password-changed :
          (hashed : Text) × (hash_password new ≡ some hashed)
          × ((must_change ≡ true) ⊎ IsGiven verify_password user current s.accounts)
          × (s'.accounts.users ≡ update (with_id user) (change hashed) s.accounts.users)
          × (s'.accounts.sessions ≡ delete (other_session user token) s.accounts.sessions)
          × (s'.accounts.members ≡ s.accounts.members)
      unfolding change_password error
      change_password-changed = elim (Bool-cases (ltb (length new) 8)) [
        | inl e ↦ absurd (ground arith)
        | inr e ↦
            elim (Option-cases
              (refuses_change verify_password user must_change current s.accounts)) [
                | inr (r, f) ↦ absurd (refuses_change-done must_change s.accounts f (ground arith))
                | inl f ↦ elim (Option-cases (hash_password new)) [
                  | inl g ↦ absurd (ground arith)
                  | inr (hashed, g) ↦ (
                    hashed,
                    g,
                    refuses_change-IsGiven must_change s.accounts f,
                    ground arith,
                    ground arith,
                    ground arith,
                  )
                ]
              ]
      ]

      -- A change of the password that succeeds had the current password, unless the user had to
      -- change it; and the user then has the hash of the new one and need not change it.
      pub change_password-stored :
          (u : User)
          → Memᴰ u s'.accounts.users
          → u.id ≡ user
          → (hashed : Text) × (hash_password new ≡ some hashed)
            × ((must_change ≡ true) ⊎ IsGiven verify_password user current s.accounts)
            × (u.password_hash ≡ some hashed)
            × (u.must_change_password ≡ false)
      change_password-stored u m own =
          let (hashed, e, given, users, _, _) = change_password-changed in
          let (x, _, same) =
            update-from (with_id user) (change hashed) s.accounts.users
              (subst (λ l. Memᴰ u l) users m) in
          let (stored, free) = changed_user user hashed u x same own in
          (hashed, e, given, stored, free)
