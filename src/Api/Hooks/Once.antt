-- ===== src/Api/Hooks/Once.antt =====
-- Which deliveries start a run, and that a repeated one starts none.
use oarlock.Prelude.{
  ℕ, ◌≡◌, refl, ap, ◌⊎◌, inl, inr, Text, text_eq, text_eq_iff, Bool, true, false, Option, none,
  some, List, [], arith, Bool-cases, Option-cases,
}
use oarlock.Prelude.Tables.{find}
use oarlock.Json.{Value, marshal}
use oarlock.Engine.Store.{Db, Error, Result, ok, err}
use oarlock.Engine.Runs.{Started, start_run_opts}
use oarlock.Api.Hooks.{
  Hook, Delivery, Answer, accepted, hook_at, is_live_hook, admits, verify_hmac, hook_input,
  engine_run_opts, webhook, answer, answer_error,
}

is_accepted : Answer → Bool
is_accepted (accepted run) = true
is_accepted _ = false

run_of : Answer → ℕ
run_of (accepted run) = run
run_of _ = 0

answer_error-refuses : (e : Error) → is_accepted (answer_error e) ≡ false
unfolding is_accepted
answer_error-refuses e = ground arith

answer-accepted :
    (db : Db) (r : Result Started) {db' : Db} {run : ℕ}
    → answer db r ≡ (db', accepted run)
    → r ≡ ok (record { run = run; created = true; db = db' })
unfolding is_accepted run_of
answer-accepted db (err e) h =
    absurd (ground (arith, ap (λ x. is_accepted x.1) h, answer_error-refuses e))
answer-accepted db (ok s) h = elim (Bool-cases s.created) [
  | inr c ↦ absurd (ground (arith, ap (λ x. is_accepted x.1) h))
  | inl c ↦
      let h' = rw c at h in
      let same_db = ap (λ (x : Db × Answer). x.0) h in
      let same_run = ap (λ (x : Db × Answer). run_of x.1) h' in
      ap ok (λ i. record { run = same_run i; created = c i; db = same_db i })
]

module _ (uuid : ℕ → Text) (hmac : Text → Text → Text) (parse_json : Text → Option Value) where
  -- The start of the hook's workflow created the run.
  abbrev StartedBy : Delivery → Db → Db → ℕ → Hook → Type 0
  StartedBy d db db' run hook =
      start_run_opts uuid hook.workspace hook.workflow (marshal (hook_input uuid hmac parse_json d))
        (engine_run_opts uuid hmac parse_json hook.trigger d.idempotency_key) db
      ≡ ok (record { run = run; created = true; db = db' })

  -- A delivery that created a run, and what it passed.
  record Fired (hooks : List Hook) (d : Delivery) (db db' : Db) (run : ℕ) : Type 0 where
    hook : Hook
    routed : find (hook_at d.slug d.path) hooks ≡ some hook
    live : is_live_hook hook ≡ true
    admitted : admits uuid hmac parse_json hook.secret d ≡ true
    started : StartedBy d db db' run hook

  webhook-Fired :
      (hooks : List Hook) (d : Delivery) (db db' : Db) (run : ℕ)
      → webhook uuid hmac parse_json hooks d db ≡ (db', accepted run)
      → Fired hooks d db db' run
  unfolding webhook is_accepted
  webhook-Fired hooks d db db' run e = elim (Option-cases (find (hook_at d.slug d.path) hooks)) [
    | inl a ↦ let e' = rw (a, webhook) at e in absurd (ground (arith, ap (λ x. is_accepted x.1) e'))
    | inr (h, a) ↦ elim (Bool-cases (is_live_hook h)) [
      | inr b ↦
          let e' = rw (a, b, webhook) at e in absurd (ground (arith, ap (λ x. is_accepted x.1) e'))
      | inl b ↦ elim (Bool-cases (admits uuid hmac parse_json h.secret d)) [
        | inr c ↦
            let e' = rw (a, b, c, webhook) at e in
            absurd (ground (arith, ap (λ x. is_accepted x.1) e'))
        | inl c ↦ record {
          hook = h;
          routed = a;
          live = b;
          admitted = c;
          started = answer-accepted db _ (rw (a, b, c, webhook) at e);
        }
      ]
    ]
  ]

  admits-signed :
      (secret : Option Text) (d : Delivery)
      → admits uuid hmac parse_json secret d ≡ true
      → (secret ≡ none)
        ⊎ (secret ≡ some [])
        ⊎ ((s : Text) × (secret ≡ some s) × (hmac s d.body ≡ d.signature))
  unfolding admits verify_hmac
  admits-signed none d a = inl refl
  admits-signed (some s) d a = elim (Bool-cases (text_eq s [])) [
    | inl z ↦ inr (inl (ap some ((text_eq_iff s []).0 z)))
    | inr z ↦ inr (inr (s, refl, (text_eq_iff (hmac s d.body) d.signature).0 (ground arith)))
  ]

  -- A delivery that creates a run names a hook that is enabled, of an enabled workflow with a version;
  -- and where the hook has a secret, the delivery's signature is the one of its body under the secret.
  pub webhook-signed :
      (hooks : List Hook) (d : Delivery) (db db' : Db) (run : ℕ)
      → webhook uuid hmac parse_json hooks d db ≡ (db', accepted run)
      → (h : Hook) × (find (hook_at d.slug d.path) hooks ≡ some h)
        × (is_live_hook h ≡ true)
        × ((h.secret ≡ none)
            ⊎ (h.secret ≡ some [])
            ⊎ ((s : Text) × (h.secret ≡ some s) × (hmac s d.body ≡ d.signature)))
  webhook-signed hooks d db db' run e =
      let f = webhook-Fired hooks d db db' run e in
      (f.hook, f.routed, f.live, admits-signed f.hook.secret d f.admitted)
