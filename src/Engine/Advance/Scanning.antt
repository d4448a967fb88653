-- ===== src/Engine/Advance/Scanning.antt =====
-- The scan of an advance, against what it is to find: which steps failed, whether all are done, and
-- which are ready.
use mathlib.Core.List.{append-nil, append_assoc}
use oarlock.Prelude.{
  ◌≡◌, sym, ◌∙◌, inl, inr, Text, Bool, true, false, not, ◌&&◌, ◌||◌, Option, List, [], ◌∷◌, ◌++◌,
  arith, Bool-cases, select, map, if◌then◌else◌,
}
use oarlock.Definition.{Step}
use oarlock.Engine.Store.{TaskStatus}
use oarlock.Engine.Advance.{
  Standing, missing, broken, standing, is_done, deps_ok, Scan, scan_step, scan, blank,
}

abbrev pub is_broken : Standing → Bool
is_broken broken = true
is_broken _ = false

abbrev pub is_missing : Standing → Bool
is_missing missing = true
is_missing _ = false

module _ (st : Text → Option TaskStatus) where
  -- Where a step stands.
  abbrev pub stands : Step → Standing
  stands s = standing (st s.key)

  -- A step with no attempt whose needs are all done.
  abbrev pub is_ready : Step → Bool
  is_ready s = is_missing (stands s) && deps_ok st s.needs

  abbrev pub some_broken : List Step → Bool
  some_broken [] = false
  some_broken (s ∷ ss) = is_broken (stands s) || some_broken ss

  abbrev pub all_done : List Step → Bool
  all_done [] = true
  all_done (s ∷ ss) = is_done (stands s) && all_done ss

  abbrev pub ready_keys : List Step → List Text
  ready_keys ss = map (λ s. s.key) (select is_ready ss)

  -- One step, by where it stands.
  scan_step_lem :
      (s : Step) (c : Scan)
      → ((scan_step st s c).any_failed ≡ (c.any_failed || is_broken (stands s)))
        × ((scan_step st s c).all_succeeded ≡ (c.all_succeeded && is_done (stands s)))
        × ((scan_step st s c).ready
            ≡ (if is_ready s && not c.any_failed then c.ready ++ s.key ∷ [] else c.ready))
  unfolding scan_step
  scan_step_lem s c = ground arith

  scan-any_failed :
      (ss : List Step) (c : Scan) → (scan st ss c).any_failed ≡ (c.any_failed || some_broken ss)
  unfolding scan
  scan-any_failed [] c = ground arith
  scan-any_failed (s ∷ ss) c =
      ground (arith, scan_step_lem s c, scan-any_failed ss (scan_step st s c))

  scan-all_succeeded :
      (ss : List Step) (c : Scan) → (scan st ss c).all_succeeded ≡ (c.all_succeeded && all_done ss)
  unfolding scan
  scan-all_succeeded [] c = ground arith
  scan-all_succeeded (s ∷ ss) c =
      ground (arith, scan_step_lem s c, scan-all_succeeded ss (scan_step st s c))

  scan-ready :
      (ss : List Step) (c : Scan)
      → (scan st ss c).any_failed ≡ false
      → (scan st ss c).ready ≡ c.ready ++ ready_keys ss
  unfolding scan
  scan-ready [] c h = sym (append-nil c.ready)
  scan-ready (s ∷ ss) c h =
      let ih : (scan st ss (scan_step st s c)).ready ≡ (scan_step st s c).ready ++ ready_keys ss =
        scan-ready ss (scan_step st s c) h in
      let none' : c.any_failed ≡ false =
        ground (arith, scan_step_lem s c, scan-any_failed ss (scan_step st s c)) in
      elim (Bool-cases (is_ready s)) [
        | inl e ↦
            let here : (scan_step st s c).ready ≡ c.ready ++ s.key ∷ [] =
              ground (arith, scan_step_lem s c) in
            ih ∙ rw (here, e, append_assoc)
        | inr e ↦
            let here : (scan_step st s c).ready ≡ c.ready = ground (arith, scan_step_lem s c) in
            ih ∙ rw (here, e)
      ]

  -- The scan of all the steps finds whether one failed and whether all are done; and where none
  -- failed, its ready keys are those of the steps that have no attempt and whose needs are done.
  pub scan_lem :
      (ss : List Step)
      → ((scan st ss blank).any_failed ≡ some_broken ss)
        × ((scan st ss blank).all_succeeded ≡ all_done ss)
        × (some_broken ss ≡ false → (scan st ss blank).ready ≡ ready_keys ss)
  scan_lem ss = (
    scan-any_failed ss blank,
    scan-all_succeeded ss blank,
    λ h. scan-ready ss blank (scan-any_failed ss blank ∙ h),
  )
