-- ===== src/Engine/Advance/Progress.antt =====
-- No run hangs at an advance: in a valid definition a step that is not done has a step below it that
-- is failed, pending or ready, since every chain of needs ends.
use mathlib.Core.List.Memᴰ
use oarlock.Prelude.{
  ◌≡◌, refl, ◌∙◌, ap, ◌⊎◌, inl, inr, Text, false, Option, List, [], ◌∷◌, Memᴰ, arith, Bool-cases,
}
use oarlock.Definition.{Step, Definition, step}
use oarlock.Definition.Graph.{Grounded, intro, find_step-key, find_step-Mem}
use oarlock.Definition.Painting.{IsKnown, NeedsKnown}
use oarlock.Engine.Store.{TaskStatus}
use oarlock.Engine.Advance.{Standing, missing, broken, done, pending, standing, is_done, deps_ok}
use oarlock.Engine.Advance.Scanning.{is_broken, stands, is_ready, some_broken, all_done, ready_keys}

module _ (st : Text → Option TaskStatus) where
  some_broken-Mem :
      (ss : List Step) (s : Step)
      → some_broken st ss ≡ false
      → Memᴰ s ss
      → is_broken (stands st s) ≡ false
  some_broken-Mem [] s h m = elim m [ ]
  some_broken-Mem (t ∷ ss) s h (Memᴰ.head e) =
      ground (arith, ap (λ (x : Step). is_broken (stands st x)) e)
  some_broken-Mem (t ∷ ss) s h (Memᴰ.tail m) = some_broken-Mem ss s (ground arith) m

  ready_keys-Mem :
      (ss : List Step) (s : Step) → ready_keys st ss ≡ [] → Memᴰ s ss → is_ready st s ≡ false
  ready_keys-Mem [] s h m = elim m [ ]
  ready_keys-Mem (t ∷ ss) s h m = elim (Bool-cases (is_ready st t)) [
    | inl e ↦ absurd (ground arith)
    | inr e ↦ later e (ready_keys-Mem ss s (ground arith)) (Memᴰ.cases_cons m)
  ]
    where
      later :
          is_ready st t ≡ false
          → (Memᴰ s ss → is_ready st s ≡ false)
          → (s ≡ t) ⊎ Memᴰ s ss
          → is_ready st s ≡ false
      later e more (inl q) = ap (is_ready st) q ∙ e
      later e more (inr m') = more m'

  -- A need that is not done.
  deps_ok-false :
      (ns : List Text)
      → deps_ok st ns ≡ false
      → (n : Text) × Memᴰ n ns × (is_done (standing (st n)) ≡ false)
  unfolding deps_ok
  deps_ok-false [] h = absurd (ground arith)
  deps_ok-false (n ∷ ns) h = elim (Bool-cases (is_done (standing (st n)))) [
    | inr e ↦ (n, Memᴰ.head refl, e)
    | inl e ↦ let (m, k, q) = deps_ok-false ns (ground arith) in (m, Memᴰ.tail k, q)
  ]

  -- A step that is not done.
  pub all_done-false :
      (ss : List Step)
      → all_done st ss ≡ false
      → (s : Step) × Memᴰ s ss × (is_done (stands st s) ≡ false)
  all_done-false [] h = absurd (ground arith)
  all_done-false (s ∷ ss) h = elim (Bool-cases (is_done (stands st s))) [
    | inr e ↦ (s, Memᴰ.head refl, e)
    | inl e ↦ let (t, m, q) = all_done-false ss (ground arith) in (t, Memᴰ.tail m, q)
  ]

  standing-cases : (x : Standing) → (x ≡ pending) ⊎ ((x ≡ missing) ⊎ ((x ≡ broken) ⊎ (x ≡ done)))
  standing-cases pending = inl refl
  standing-cases missing = inr (inl refl)
  standing-cases broken = inr (inr (inl refl))
  standing-cases done = inr (inr (inr refl))

  module _ (d : Definition) (known : NeedsKnown d) where
    -- Below a step that is not done, where none failed and none is ready, one is pending.
    pub pending_below :
        some_broken st d.steps ≡ false
        → ready_keys st d.steps ≡ []
        → (k : Text) → Grounded d k
        → IsKnown d k
        → is_done (standing (st k)) ≡ false
        → (n : Text) × (standing (st n) ≡ pending)
    unfolding step
    pending_below sound idle k (intro _ below) (s, e) open' =
        elim (standing-cases (standing (st k))) [
          | inl q ↦ (k, q)
          | inr (inl q) ↦
              let at : s.key ≡ k = find_step-key d.steps k e in
              let blocked : deps_ok st s.needs ≡ false =
                ground (arith, ready_keys-Mem d.steps s idle (find_step-Mem d.steps k e)) in
              let (n, m, q') = deps_ok-false s.needs blocked in
              pending_below sound idle n (below n (s, e, m)) (known k n (s, e, m)) q'
          | inr (inr (inl q)) ↦
              let at : s.key ≡ k = find_step-key d.steps k e in
              absurd (ground (arith, some_broken-Mem d.steps s sound (find_step-Mem d.steps k e)))
          | inr (inr (inr q)) ↦ absurd (ground arith)
        ]
