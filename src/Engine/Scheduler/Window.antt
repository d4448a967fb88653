-- ===== src/Engine/Scheduler/Window.antt =====
-- The search of the window finds the latest activation in it, and misses none.
use oarlock.Prelude.{
  ℕ, zero, suc, ◌+◌, ◌-◌, ◌≤◌, ◌<◌, ◌≡◌, refl, sym, ◌⊎◌, inl, inr, true, false, Option, none, some,
  arith, ltb, Option-cases, ◌∙◌,
}
use oarlock.Engine.Scheduler.{
  Schedule, Search, result, out_of_fuel, search_window, latest_occurrence,
}

-- What `Next` is documented to give: the first activation that is later than a time.
pub record IsSchedule (next : Schedule) : Type 0 where
  pub later : (t u : ℕ) → next t ≡ some u → t < u
  pub first : (t s u : ℕ) → next t ≡ some u → t ≤ s → s < u → next s ≡ some u
  pub never : (t s : ℕ) → next t ≡ none → t ≤ s → next s ≡ none

-- A time at which the schedule activates.
abbrev pub Activates : Schedule → ℕ → Type 0
Activates next u = (t : ℕ) × (next t ≡ some u)

-- The result is right for the times after `from` up to `now`.
abbrev pub IsLatestIn : Schedule → ℕ → ℕ → Search → Type 0
IsLatestIn next from now out_of_fuel = ⊥
IsLatestIn next from now (result none) = (u : ℕ) → Activates next u → from < u → now < u
IsLatestIn next from now (result (some o)) =
    Activates next o × (from < o) × (o ≤ now) × ((u : ℕ) → Activates next u → o < u → now < u)

-- What the loop has found by the time `t`.
abbrev Found : Schedule → ℕ → ℕ → Option ℕ → Type 0
Found next from t none = t ≡ from
Found next from t (some o) = (o ≡ t) × (Activates next o) × (from < o)

none≢some : (a : ℕ) → none ≡ some a → ⊥
none≢some a e = cc e

some-inj : (a b : ℕ) → some a ≡ some b → a ≡ b
some-inj a b e = cc e

lt_or_ge : (a b : ℕ) → (ltb a b ≡ true) × (a < b) ⊎ (ltb a b ≡ false) × (b ≤ a)
lt_or_ge a b = ground arith

module _ (next : Schedule) (sched : IsSchedule next) where
  -- No activation lies between a time and the next one that the schedule gives.
  gap : (t u v : ℕ) → next t ≡ some u → Activates next v → t < v → u ≤ v
  gap t u v e (s, q) h =
      let later-v = sched.later s v q in
      elim (lt_or_ge v u) [
        | inr (b, le) ↦ le
        | inl (b, vu) ↦ elim (lt_or_ge s t) [
          | inl (c, st) ↦
              let eq = some-inj u v (sym e ∙ sched.first s t v q (omega arith) h) in omega arith
          | inr (c, ts) ↦
              let eq = some-inj u v (sym (sched.first t s u e ts (omega arith)) ∙ q) in omega arith
        ]
      ]

  gap-none : (t v : ℕ) → next t ≡ none → Activates next v → t < v → ⊥
  gap-none t v e (s, q) h = elim (lt_or_ge s t) [
    | inr (b, ts) ↦ absurd (none≢some v (sym (sched.never t s e ts) ∙ q))
    | inl (b, st) ↦ let f = sched.first s t v q (omega arith) h in absurd (none≢some v (sym e ∙ f))
  ]

  -- With nothing more up to `now`, what has been found is the result.
  Found-IsLatestIn :
      (from t now : ℕ) (occ : Option ℕ)
      → Found next from t occ
      → t ≤ now
      → ((v : ℕ) → Activates next v → t < v → now < v)
      → IsLatestIn next from now (result occ)
  Found-IsLatestIn from t now none e h rest = λ u a fu. rest u a (omega arith)
  Found-IsLatestIn from t now (some o) (e, a, fo) h rest =
      (a, fo, omega arith, λ u au ou. rest u au (omega arith))

  search_window-IsLatestIn :
      (fuel now t from : ℕ) (occ : Option ℕ)
      → Found next from t occ
      → from ≤ t
      → t ≤ now
      → now < t + fuel
      → IsLatestIn next from now (search_window next fuel now t occ)
  unfolding search_window
  search_window-IsLatestIn zero now t from occ f ft tn enough = absurd (omega arith)
  search_window-IsLatestIn (suc fuel) now t from occ f ft tn enough = elim (Option-cases (next t)) [
    | inl e ↦
        rw (e, search_window)
          (Found-IsLatestIn from t now occ f tn (λ v a tv. absurd (gap-none t v e a tv)))
    | inr (u, e) ↦ elim (lt_or_ge now u) [
      | inl (b, nu) ↦
          rw (e, b, search_window)
            (Found-IsLatestIn from t now occ f tn
              (λ v a tv. let uv = gap t u v e a tv in omega arith))
      | inr (b, un) ↦
          let tu = sched.later t u e in
          rw (e, b, search_window)
            (search_window-IsLatestIn fuel now u from (some u) (refl, (t, e), omega arith)
              (omega arith) un (omega arith))
    ]
  ]

  -- For a schedule that gives the first activation after a time, and a lookback that is no longer than
  -- the time `now`, the search ends with a result. It finds an activation later than `now - lookback`
  -- and no later than `now`, and every activation after it is later than `now`; or it finds none, and
  -- every activation after `now - lookback` is later than `now`.
  pub latest_occurrence-IsLatestIn :
      (now lookback : ℕ)
      → lookback ≤ now
      → IsLatestIn next (now - lookback) now (latest_occurrence next now lookback)
  unfolding latest_occurrence
  latest_occurrence-IsLatestIn now lookback h =
      search_window-IsLatestIn (suc lookback) now (now - lookback) (now - lookback) none refl
        (omega arith) (omega arith) (omega arith)
