-- ===== src/Engine/System/Quiet.antt =====
-- The attempts of canceled runs: what the inserts and updates of the two tables do to them.
pub mod Workers
pub mod Runs
pub mod Reached
use oarlock.Prelude.{
  ℕ, ◌+◌, ◌≡◌, refl, sym, ◌∙◌, ap, subst, ◌⊎◌, inl, inr, Text, Bool, true, false, Option, none,
  some, List, [], ◌∷◌, Memᴰ, arith, if◌then◌else◌, Bool-cases, Option-cases, ◌==◌,
}
use oarlock.Prelude.Tables.{delete, find, update, any_row, update-from, find-update}
use oarlock.Engine.Store.{RunStatus, TaskStatus, Run, Task, Db, is_live, run_by_id}
use oarlock.Engine.System.{run_of}
use oarlock.Engine.Runs.{canceled_run, pending_of, canceled_task}

abbrev pub is_canceled : RunStatus → Bool
is_canceled RunStatus.canceled = true
is_canceled _ = false

-- The run stands in the table as canceled.
unfoldable pub run_canceled : List Run → ℕ → Bool
run_canceled [] i = false
run_canceled (r ∷ rs) i = if r.id == i then is_canceled r.status else run_canceled rs i

-- No attempt of such a run is queued, running or suspended.
abbrev pub QuietOn : (ℕ → Bool) → List Task → Type 0
QuietOn c ts = (t : Task) → Memᴰ t ts → c t.run ≡ true → is_live t.status ≡ false

pub run_canceled-insert :
    (r : Run) (rs : List Run) (i : ℕ)
    → is_canceled r.status ≡ false
    → run_canceled (r ∷ rs) i ≡ true
    → run_canceled rs i ≡ true
unfolding run_canceled
run_canceled-insert r rs i new h = ground arith

-- An update that cancels nothing.
pub run_canceled-update :
    (p : Run → Bool) (f : Run → Run) (rs : List Run) (i : ℕ)
    → ((r : Run) → ((f r).id ≡ r.id) × (is_canceled (f r).status ≡ false))
    → run_canceled (update p f rs) i ≡ true
    → run_canceled rs i ≡ true
unfolding run_canceled update
run_canceled-update p f [] i keeps h = h
run_canceled-update p f (r ∷ rs) i keeps h =
    let rest = run_canceled-update p f rs i keeps in
    elim (Bool-cases (p r)) [ inl e ↦ ground (arith, keeps r, rest) | inr e ↦ ground (arith, rest) ]

pub run_canceled-cancel :
    (run now : ℕ) (rs : List Run) (i : ℕ)
    → run_canceled (update (run_by_id run) (canceled_run now) rs) i ≡ true
    → (i ≡ run) ⊎ (run_canceled rs i ≡ true)
unfolding run_canceled update
run_canceled-cancel run now [] i h = inr h
run_canceled-cancel run now (r ∷ rs) i h =
    let rest = run_canceled-cancel run now rs i in
    elim (Bool-cases (r.id == run)) [
      | inl e ↦ elim (Bool-cases (r.id == i)) [
        | inl k ↦ inl (ground arith)
        | inr k ↦ ground (arith, rest)
      ]
      | inr e ↦ ground (arith, rest)
    ]

-- Where no row of the run goes with the workflow.
pub run_canceled-delete :
    (workflow : ℕ) (rs : List Run) (i : ℕ)
    → run_of workflow rs i ≡ false
    → run_canceled (delete (λ r. r.workflow == workflow) rs) i ≡ run_canceled rs i
unfolding run_canceled delete run_of
run_canceled-delete workflow [] i h = refl
run_canceled-delete workflow (r ∷ rs) i h = elim (Bool-cases (r.workflow == workflow)) [
  | inl e ↦
      let other : r.id == i ≡ false = ground arith in
      rw (e, other) (run_canceled-delete workflow rs i (rw (other, run_of) at h))
  | inr e ↦
      let rest = run_canceled-delete workflow rs i (ground arith) in
      elim (Bool-cases (r.id == i)) [ inl k ↦ rw (e, k) refl | inr k ↦ rw (e, k) rest ]
]

module _ (c : ℕ → Bool) where
  pub QuietOn-less :
      (c' : ℕ → Bool) (ts : List Task)
      → ((i : ℕ) → c' i ≡ true → c i ≡ true)
      → QuietOn c ts
      → QuietOn c' ts
  QuietOn-less c' ts less quiet t m h = quiet t m (less t.run h)

  -- An update that is guarded by a status that is live.
  pub QuietOn-update :
      (p : Task → Bool) (f : Task → Task) (ts : List Task)
      → ((t : Task) → p t ≡ true → is_live t.status ≡ true)
      → ((t : Task) → (f t).run ≡ t.run)
      → QuietOn c ts
      → QuietOn c (update p f ts)
  QuietOn-update p f ts live keeps quiet t m h =
      let (b, k, q) = update-from p f ts m in
      elim (Bool-cases (p b)) [
        | inr e ↦
            let same : t ≡ b = rw e at q in
            subst (λ (x : Task). is_live x.status ≡ false) (sym same)
              (quiet b k (subst (λ (x : Task). c x.run ≡ true) same h))
        | inl e ↦
            let same : t ≡ f b = rw e at q in
            let mine : c b.run ≡ true =
              subst (λ i. c i ≡ true) (keeps b) (subst (λ (x : Task). c x.run ≡ true) same h) in
            absurd (ground (arith, quiet b k mine, live b e))
      ]

  pub QuietOn-insert :
      (t : Task) (ts : List Task)
      → (c t.run ≡ true → is_live t.status ≡ false)
      → QuietOn c ts
      → QuietOn c (t ∷ ts)
  QuietOn-insert t ts new quiet u (Memᴰ.head e) h =
      subst (λ (x : Task). is_live x.status ≡ false) (sym e)
        (new (subst (λ (x : Task). c x.run ≡ true) e h))
  QuietOn-insert t ts new quiet u (Memᴰ.tail m) h = quiet u m h

  -- The update of a cancel leaves no live attempt of the run, and of no other canceled run.
  pub QuietOn-cancel :
      (c' : ℕ → Bool) (run now : ℕ) (ts : List Task)
      → ((i : ℕ) → c' i ≡ true → (i ≡ run) ⊎ (c i ≡ true))
      → QuietOn c ts
      → QuietOn c' (update (pending_of run) (canceled_task now) ts)
  QuietOn-cancel c' run now ts less quiet t m h =
      let (b, k, q) = update-from (pending_of run) (canceled_task now) ts m in
      elim (Bool-cases (pending_of run b)) [
        | inl e ↦ let same : t ≡ canceled_task now b = rw e at q in rw same refl
        | inr e ↦
            let same : t ≡ b = rw e at q in
            elim (less t.run h) [
              | inl mine ↦ ground (arith, same, mine)
              | inr other ↦ rw same (quiet b k (subst (λ (x : Task). c x.run ≡ true) same other))
            ]
      ]
