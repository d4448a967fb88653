-- ===== src/Api/SignIn/Login.antt =====
-- Who signs in, and for how long.
use oarlock.Prelude.{
  ℕ, ◌+◌, ◌≡◌, ◌⊎◌, ◌≤◌, refl, ap, ◌∙◌, inl, inr, Text, text_eq_refl, codes, Bool, false, Option,
  none, some, List, [], ◌∷◌, arith, ltb, if◌then◌else◌, Bool-cases, Option-cases,
}
use oarlock.Prelude.Tables.{find, any_row, delete}
use oarlock.Api.Http.{reply, error, said}
use oarlock.Api.RateLimit.{LoginLimiter, allowed, reset}
use oarlock.Api.RateLimit.Sliding.{
  Call, checks, fails, after_calls, InOrder, recent_failures, allowed-recent,
}
use oarlock.Api.Users.{Session, Accounts}
use oarlock.Api.Auth.{Auth, signed_in, session_ttl, live_session, load_session, join_session}
use oarlock.Api.SignIn.{
  has_token, start_session, sign_in, authenticate, limit_key, expired, login_with, login,
}

-- Where no session has the hash, none is live.
find-live :
    (hashed : Text) (later : ℕ) (ss : List Session)
    → any_row (has_token hashed) ss ≡ false
    → find (live_session hashed later) ss ≡ none
unfolding find any_row
find-live hashed later [] h = refl
find-live hashed later (s ∷ ss) h = ground (arith, find-live hashed later ss)

abbrev pub new_session : Text → ℕ → ℕ → Session
new_session hashed user now = record { token = hashed; user = user; expires_at = now + session_ttl }

module _ (hash : Text → Text) (hash_password : Text → Option Text)
    (verify_password : Text → Text → Bool) (now : ℕ) where
  -- What a handler that ends with a new session did.
  pub sign_in-signed_in :
      (status user : ℕ) (fresh : Option Text) (s s' : Auth) (token : Text)
      → sign_in hash hash_password verify_password now status user fresh s
        ≡ (s', reply status (signed_in token))
      → (fresh ≡ some token)
        × (any_row (has_token (hash token)) s.accounts.sessions ≡ false)
        × (s'.accounts ≡ record s.accounts {
          sessions = new_session (hash token) user now ∷ s.accounts.sessions;
        })
        × (s'.setup_configured ≡ s.setup_configured)
  unfolding sign_in start_session error
  sign_in-signed_in status user none s s' token h = absurd (ground arith)
  sign_in-signed_in status user (some raw) s s' token h =
      elim (Bool-cases (any_row (has_token (hash raw)) s.accounts.sessions)) [
        | inl e ↦ absurd (ground arith)
        | inr e ↦
            let same : raw ≡ token = ground arith in
            rw (← same) (refl, e, ground arith, ground arith)
      ]

  -- Until it expires, the new session is loaded from its token.
  load_session-new :
      (token : Text) (user later : ℕ) (a a' : Accounts)
      → any_row (has_token (hash token)) a.sessions ≡ false
      → a' ≡ record a { sessions = new_session (hash token) user now ∷ a.sessions }
      → load_session hash later token a' ≡ (
          if ltb later (now + session_ttl)
          then join_session (hash token) (new_session (hash token) user now) a'
          else none)
  unfolding load_session find
  load_session-new token user later a a' free same =
      rw same (elim (Bool-cases (ltb later (now + session_ttl))) [
        | inl e ↦ rw (text_eq_refl (hash token), e)
        | inr e ↦ rw (text_eq_refl (hash token), e, find-live (hash token) later a.sessions free)
      ])

  -- The token that a login hands out is the one that was drawn, and belongs to the user whose address
  -- and password were given. Before thirty days have passed it loads that user's session, later none.
  pub login-load :
      (ip email password token : Text) (fresh : Option Text) (s s' : Auth) (later : ℕ)
      → login hash hash_password verify_password now ip (some (email, password)) fresh s
        ≡ (s', reply 200 (signed_in token))
      → (user : ℕ) × (fresh ≡ some token)
        × (authenticate verify_password email password s.accounts ≡ some user)
        × (load_session hash later token s'.accounts ≡ (
            if ltb later (now + session_ttl)
            then join_session (hash token) (new_session (hash token) user now) s.accounts
            else none))
  unfolding login login_with error join_session
  login-load ip email password token fresh s s' later h =
      elim (Bool-cases (allowed (limit_key ip email) now s.attempts).0) [
        | inr e ↦ absurd (ground arith)
        | inl e ↦ elim (Option-cases (authenticate verify_password email password s.accounts)) [
          | inl f ↦ absurd (ground arith)
          | inr (user, f) ↦
              let cleaned : Auth = record s {
                attempts =
                    reset (limit_key ip email) (allowed (limit_key ip email) now s.attempts).1;
                accounts = record s.accounts {
                  sessions = delete (expired now) s.accounts.sessions;
                };
              } in
              let (drawn, free, same, _) =
                sign_in-signed_in 200 user fresh cleaned s' token (rw (e, f, login_with) at h) in
              (
                user,
                drawn,
                f,
                load_session-new token user later cleaned.accounts s'.accounts free same
                    ∙ ap
                        (λ (a : Accounts).
                          if ltb later (now + session_ttl)
                          then join_session (hash token) (new_session (hash token) user now) a
                          else none)
                        same,
              )
        ]
      ]

  -- After any calls of the limiter in the order of its clock, a login is refused if ten logins of the
  -- address from the host have failed within the window since the last success, or if no user has the
  -- address and the password: with 429 in the first case, whatever the password, else with one and the
  -- same 401 for an unknown address and a wrong password. No account changes, and only the 401 counts
  -- as a failure.
  pub login-refused :
      (ip email password : Text) (fresh : Option Text) (s : Auth) (cs : List Call)
      → s.attempts ≡ after_calls cs
      → InOrder now cs
      → (10 ≤ recent_failures (limit_key ip email) now cs)
        ⊎ (authenticate verify_password email password s.accounts ≡ none)
      → let key = limit_key ip email in
        let open_to = ltb (recent_failures key now cs) 10 in
        let (s', r) =
          login hash hash_password verify_password now ip (some (email, password)) fresh s in
        (r ≡ (
          if open_to
          then error 401 (said (codes "invalid email or password"))
          else error 429 (said (codes "too many attempts; try again later"))))
        × (s'.accounts ≡ s.accounts)
        × (s'.attempts ≡ (
            if open_to
            then after_calls (fails key now ∷ checks key now ∷ cs)
            else after_calls (checks key now ∷ cs)))
  unfolding login login_with
  login-refused ip email password fresh s cs e o h =
      let key = limit_key ip email in
      let free = ap (λ (l : LoginLimiter). (allowed key now l).0) e ∙ allowed-recent cs key now o in
      elim (Bool-cases (ltb (recent_failures key now cs) 10)) [
        | inr t ↦ rw (free, t, e) (refl, refl, refl)
        | inl t ↦
            let wrong : authenticate verify_password email password s.accounts ≡ none = elim h [
              | inl full ↦ absurd (ground arith)
              | inr none' ↦ none'
            ] in
            rw (free, t, wrong, e) (refl, refl, refl)
      ]
