-- ===== src/Api/SignIn/Setup.antt =====
-- engine/internal/api/auth.go: `setup`, which claims the account of the owner.
use oarlock.Prelude.{
  ℕ, ◌≡◌, ap, ◌&&◌, ◌∙◌, refl, inl, inr, Text, text_eq, codes, Bool, true, false, not, ◌||◌, Option,
  some, List, [], ◌∷◌, Memᴰ, arith, ltb, ◌==◌, length, Bool-cases, Option-cases, trim_space, subst,
}
use oarlock.Prelude.Tables.{
  oldest, update, any_row, oldest-some, update-Mem, any_row-of, any_row-some,
}
use oarlock.Api.Http.{reply, error, said}
use oarlock.Api.Users.{User, Session, Accounts, with_id}
use oarlock.Api.Auth.{Auth, signed_in, setup_required, has_password}
use oarlock.Api.SignIn.{
  unclaimed, no_password, claim_account, email_of_other, claim_owner, setup_with, setup,
}
use oarlock.Api.SignIn.Login.{sign_in-signed_in, new_session}

setup_required-true :
    (s : Auth)
    → (setup_required s).1 ≡ true
    → (s.setup_configured ≡ false)
      × (any_row has_password s.accounts.users ≡ false)
      × ((setup_required s).0 ≡ s)
unfolding setup_required
setup_required-true s h = elim (Bool-cases s.setup_configured) [
  | inl e ↦ absurd (ground arith)
  | inr e ↦ elim (Bool-cases (any_row has_password s.accounts.users)) [
    | inl f ↦ absurd (ground arith)
    | inr f ↦ (e, f, rw (e, f))
  ]
]

-- Where a password exists, setup is refused, whether the cache says so or not.
setup-configured :
    (hash : Text → Text) (hash_password : Text → Option Text) (verify_password : Text → Text → Bool)
    (now : ℕ) (body : Option (Text × Text × Text)) (fresh : Option Text) (s : Auth)
    → any_row has_password s.accounts.users ≡ true
    → setup hash hash_password verify_password now body fresh s
      ≡ (record s { setup_configured = true }, error 409 (said (codes "setup is already complete")))
unfolding setup setup_required
setup-configured hash hash_password verify_password now body fresh s h =
    elim (Bool-cases s.setup_configured) [ inl e ↦ ground (arith, e) | inr e ↦ rw (e, h) refl ]

unclaimed-no_password : (a : Accounts) (u : User) → unclaimed a u ≡ true → no_password u ≡ true
unfolding unclaimed
unclaimed-no_password a u h = ground (arith, h)

-- The row of the claimed account has a password.
claimed-has_password :
    (email name hashed : Text) (us : List User) (u : User)
    → Memᴰ u us
    → no_password u ≡ true
    → any_row has_password
        (update (λ x. with_id u.id x && no_password x) (claim_account email name hashed) us)
      ≡ true
claimed-has_password email name hashed us u m free =
    let p = λ (x : User). with_id u.id x && no_password x in
    let m' = update-Mem p (claim_account email name hashed) us m in
    any_row-of has_password (update p (claim_account email name hashed) us) m'
      (ground (arith, free))

module _ (hash : Text → Text) (hash_password : Text → Option Text)
    (verify_password : Text → Text → Bool) (now : ℕ) (fresh : Option Text) (s' : Auth)
    (token : Text) where
  claim_owner-claimed :
      (email name hashed : Text) (s : Auth)
      → claim_owner hash hash_password verify_password now email name hashed fresh s
        ≡ (s', reply 201 (signed_in token))
      → (u : User) × (oldest (unclaimed s.accounts) s.accounts.users ≡ some u)
        × (fresh ≡ some token)
        × (any_row has_password s'.accounts.users ≡ true)
        × ((rest : List Session) × (s'.accounts.sessions
              ≡ new_session (hash token) u.id now ∷ rest))
  unfolding claim_owner error
  claim_owner-claimed email name hashed s h =
      elim (Option-cases (oldest (unclaimed s.accounts) s.accounts.users)) [
        | inl e ↦ absurd (ground arith)
        | inr (u, e) ↦ elim (Bool-cases (any_row (email_of_other email u.id) s.accounts.users)) [
          | inl f ↦ absurd (ground arith)
          | inr f ↦
              let (drawn, _, same, _) =
                sign_in-signed_in hash hash_password verify_password now 201 u.id fresh _ s' token
                  (rw (e, f, claim_owner) at h) in
              let (m, free) = oldest-some (unclaimed s.accounts) s.accounts.users e in
              (
                u,
                e,
                drawn,
                ap (λ (a : Accounts). any_row has_password a.users) same
                    ∙ claimed-has_password email name hashed s.accounts.users u m
                        (unclaimed-no_password s.accounts u free),
                (_, ap (λ (a : Accounts). a.sessions) same),
              )
        ]
      ]

  setup_with-claimed :
      (email name password : Text) (s : Auth)
      → setup_with hash hash_password verify_password now email name password fresh s
        ≡ (s', reply 201 (signed_in token))
      → (u : User) × (oldest (unclaimed s.accounts) s.accounts.users ≡ some u)
        × (fresh ≡ some token)
        × (any_row has_password s'.accounts.users ≡ true)
        × ((rest : List Session) × (s'.accounts.sessions
              ≡ new_session (hash token) u.id now ∷ rest))
  unfolding setup_with error
  setup_with-claimed email name password s h =
      elim (Bool-cases (text_eq email [] || not (any_row (λ b. b == b'@') email))) [
        | inl e ↦ absurd (ground arith)
        | inr e ↦ elim (Bool-cases (ltb (length password) 8)) [
          | inl f ↦ absurd (ground arith)
          | inr f ↦ elim (Option-cases (hash_password password)) [
            | inl g ↦ absurd (ground arith)
            | inr (hashed, g) ↦
                claim_owner-claimed email (trim_space name) hashed s (rw (e, f, g, setup_with) at h)
          ]
        ]
      ]

  -- A setup that succeeds found that no user had a password; the session that it starts is the one of
  -- a user who is an owner, and some user has a password after it. In every later state, whatever its
  -- cache says, as after a restart, in which the users that had a password then still have one, a
  -- setup is refused with 409, and sets the cache only.
  pub setup-once :
      (body body' : Option (Text × Text × Text)) (fresh' : Option Text) (later : ℕ) (s t : Auth)
      → setup hash hash_password verify_password now body fresh s
        ≡ (s', reply 201 (signed_in token))
      → ((x : User)
          → Memᴰ x s'.accounts.users
          → has_password x ≡ true
          → (y : User) × Memᴰ y t.accounts.users × (y.id ≡ x.id) × (has_password y ≡ true))
      → (u : User) × Memᴰ u s.accounts.users
        × (unclaimed s.accounts u ≡ true)
        × (any_row has_password s.accounts.users ≡ false)
        × ((rest : List Session) × (s'.accounts.sessions
              ≡ new_session (hash token) u.id now ∷ rest))
        × (any_row has_password s'.accounts.users ≡ true)
        × (setup hash hash_password verify_password later body' fresh' t ≡ (
          record t { setup_configured = true },
          error 409 (said (codes "setup is already complete")),
        ))
  unfolding setup error
  setup-once body body' fresh' later s t h keeps = elim (Bool-cases (setup_required s).1) [
    | inr e ↦ absurd (ground arith)
    | inl e ↦
        let (_, none', same) = setup_required-true s e in
        elim (Option-cases body) [
          | inl f ↦ absurd (ground arith)
          | inr ((email, name, password), f) ↦
              let (u, found, _, configured, session) = setup_with-claimed email name password s (
                subst
                  (λ t.
                    setup_with hash hash_password verify_password now email name password fresh t
                    ≡ (s', reply 201 (signed_in token)))
                  same (rw (e, f, setup) at h)) in
              let (m, owner) = oldest-some (unclaimed s.accounts) s.accounts.users found in
              let (x, k, has) = any_row-some has_password s'.accounts.users configured in
              let (y, stays, _, has') = keeps x k has in
              (
                u,
                m,
                owner,
                none',
                session,
                configured,
                setup-configured hash hash_password verify_password later body' fresh' t
                    (any_row-of has_password t.accounts.users stays has'),
              )
        ]
  ]
