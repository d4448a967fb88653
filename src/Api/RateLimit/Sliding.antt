-- ===== src/Api/RateLimit/Sliding.antt =====
-- The limiter against the history of the calls: what it prunes never mattered.
use oarlock.Prelude.{
  ℕ, suc, ◌+◌, ◌≤◌, ◌≡◌, refl, ◌∙◌, Text, text_eq, text_eq_iff, Bool, true, false, ◌&&◌, List, [],
  ◌∷◌, ◌++◌, ltb, if◌then◌else◌, length, count_if, select, arith, Bool-cases, inl, inr,
}
use oarlock.Api.RateLimit.{
  LoginLimiter, new_login_limiter, set_failures, within, prune, allowed, fail, reset,
}

-- A call of the limiter, with its time.
pub data Call : Type 0 where
  checks fails : Text → ℕ → Call
  resets : Text → Call

abbrev pub call : Call → LoginLimiter → LoginLimiter
call (checks key now) l = (allowed key now l).1
call (fails key now) l = fail key now l
call (resets key) l = reset key l

-- The limiter after the calls, of which the latest stands first.
abbrev pub after_calls : List Call → LoginLimiter
after_calls [] = new_login_limiter
after_calls (c ∷ cs) = call c (after_calls cs)

-- The clock does not run backwards, and has not passed `now`.
abbrev pub InOrder : ℕ → List Call → Type 0
InOrder now [] = Unit
InOrder now (checks key t ∷ cs) = (t ≤ now) × InOrder t cs
InOrder now (fails key t ∷ cs) = (t ≤ now) × InOrder t cs
InOrder now (resets key ∷ cs) = InOrder now cs

-- How many logins of the key have failed within the window since the key was last reset.
abbrev pub recent_failures : Text → ℕ → List Call → ℕ
recent_failures key now [] = 0
recent_failures key now (checks k t ∷ cs) = recent_failures key now cs
recent_failures key now (fails k t ∷ cs) =
    let rest = recent_failures key now cs in
    if text_eq key k && within new_login_limiter.window now t then suc rest else rest
recent_failures key now (resets k ∷ cs) =
    let rest = recent_failures key now cs in if text_eq key k then 0 else rest

module _ {ℓ} {A : Type ℓ} where
  length-select : (p : A → Bool) (xs : List A) → length (select p xs) ≡ count_if p xs
  length-select p [] = refl
  length-select p (x ∷ xs) = ground (arith, length-select p xs)

  count_if-select :
      (p q : A → Bool) (xs : List A)
      → ((x : A) → p x ≡ true → q x ≡ true)
      → count_if p (select q xs) ≡ count_if p xs
  count_if-select p q [] h = refl
  count_if-select p q (x ∷ xs) h = ground (arith, h x, count_if-select p q xs h)

  count_if-append :
      (p : A → Bool) (xs ys : List A) → count_if p (xs ++ ys) ≡ count_if p xs + count_if p ys
  count_if-append p [] ys = omega arith
  count_if-append p (x ∷ xs) ys = ground (arith, count_if-append p xs ys)

-- What an earlier time prunes is outside the window later.
within-earlier : (w t now x : ℕ) → t ≤ now → within w now x ≡ true → within w t x ≡ true
within-earlier w t now x h e = ground arith

after_calls-window : (cs : List Call) → (after_calls cs).window ≡ new_login_limiter.window
unfolding allowed fail reset set_failures prune
after_calls-window [] = refl
after_calls-window (checks key t ∷ cs) = after_calls-window cs
after_calls-window (fails key t ∷ cs) = after_calls-window cs
after_calls-window (resets key ∷ cs) = after_calls-window cs

after_calls-max : (cs : List Call) → (after_calls cs).max ≡ new_login_limiter.max
unfolding allowed fail reset set_failures prune
after_calls-max [] = refl
after_calls-max (checks key t ∷ cs) = after_calls-max cs
after_calls-max (fails key t ∷ cs) = after_calls-max cs
after_calls-max (resets key ∷ cs) = after_calls-max cs

-- Pruning at an earlier time leaves what counts later.
prune-recent :
    (cs : List Call) (xs : List ℕ) (t now : ℕ)
    → t ≤ now
    → count_if (within new_login_limiter.window now) (select (within (after_calls cs).window t) xs)
      ≡ count_if (within new_login_limiter.window now) xs
prune-recent cs xs t now h = rw (after_calls-window cs) (
    count_if-select (within new_login_limiter.window now) (within new_login_limiter.window t) xs
      (λ x. within-earlier new_login_limiter.window t now x h))

later-InOrder : (cs : List Call) (t now : ℕ) → t ≤ now → InOrder t cs → InOrder now cs
later-InOrder [] t now h o = tt
later-InOrder (checks key u ∷ cs) t now h (u', o) = (omega arith, o)
later-InOrder (fails key u ∷ cs) t now h (u', o) = (omega arith, o)
later-InOrder (resets key ∷ cs) t now h o = later-InOrder cs t now h o

one_more : (a b : ℕ) (c : Bool) → a ≡ b → a + (if c then 1 else 0) ≡ (if c then suc b else b)
one_more a b true e = omega arith
one_more a b false e = omega arith

-- The failures of the map that are in the window are those of the history.
kept-recent :
    (cs : List Call) (key : Text) (now : ℕ)
    → InOrder now cs
    → count_if (within new_login_limiter.window now) ((after_calls cs).failures key)
      ≡ recent_failures key now cs
unfolding allowed fail reset set_failures prune
kept-recent [] key now o = refl
kept-recent (checks k t ∷ cs) key now (h, o) =
    let ih = kept-recent cs key now (later-InOrder cs t now h o) in
    elim (Bool-cases (text_eq key k)) [
      | inr e ↦ rw e ih
      | inl e ↦
          rw (e, ← (text_eq_iff key k).0 e)
            (prune-recent cs ((after_calls cs).failures key) t now h ∙ ih)
    ]
kept-recent (fails k t ∷ cs) key now (h, o) =
    let ih = kept-recent cs key now (later-InOrder cs t now h o) in
    elim (Bool-cases (text_eq key k)) [
      | inr e ↦ rw e ih
      | inl e ↦
          let same = (text_eq_iff key k).0 e in
          let pruned = prune-recent cs ((after_calls cs).failures key) t now h in
          let split =
            count_if-append (within new_login_limiter.window now)
              (select (within (after_calls cs).window t) ((after_calls cs).failures key))
              (t ∷ []) in
          rw (e, ← same)
            (split ∙ one_more _ _ (within new_login_limiter.window now t) (pruned ∙ ih))
    ]
kept-recent (resets k ∷ cs) key now o =
    let ih = kept-recent cs key now o in
    elim (Bool-cases (text_eq key k)) [ inr e ↦ rw e ih | inl e ↦ rw e refl ]

-- After any calls in the order of the clock, a login of a key is allowed at a time exactly where
-- fewer than ten logins of the key have failed in the fifteen minutes before since its last reset.
pub allowed-recent :
    (cs : List Call) (key : Text) (now : ℕ)
    → InOrder now cs
    → (allowed key now (after_calls cs)).0 ≡ ltb (recent_failures key now cs) 10
unfolding allowed prune
allowed-recent cs key now o = rw (
  length-select (within (after_calls cs).window now) ((after_calls cs).failures key),
  after_calls-window cs,
  after_calls-max cs,
  kept-recent cs key now o,
)
