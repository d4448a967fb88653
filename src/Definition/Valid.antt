-- ===== src/Definition/Valid.antt =====
-- What a valid definition is, and what it means that a check decides a statement.
pub mod Loops
pub mod Keys
pub mod Whole
use mathlib.Core.List.Memᴰ
use oarlock.Prelude.{
  ℕ, zero, suc, ◌≡◌, ◌≢◌, refl, sym, subst, ap, ◌∙◌, ◌≤◌, ◌<◌, ◌⊎◌, ◌↔◌, inl, inr, Text, text_eq,
  text_eq_iff, text_eq_refl, contains, contains→Mem, Mem→contains, Bool, true, false, not, ◌||◌,
  Option, none, some, List, [], ◌∷◌, ◌++◌, Memᴰ, arith, map, Bool-cases, Option-cases,
}
use oarlock.Prelude.Int.{ℤ, pos, negsuc, is_neg, gt_nat}
use oarlock.Definition.{
  Step, Definition, find_step, step, Invalid, cycle, empty_key, duplicate_key, no_type,
  unknown_type, bad_retries, bad_timeout, unknown_need, self_need, Check, ok, invalid, nil_deref,
  out_of_fuel, ◌>>=◌, require, type_known, check_step, check_steps, in_range, check_step_needs,
  check_needs, check_acyclic, validate,
}
use oarlock.Definition.Graph.{
  Needs, Upstream, direct, further, Grounded, Grounded-acyclic, find_step-key, find_step-Mem,
  find_step-some,
}
use oarlock.Definition.Painting.{IsKnown, NeedsKnown}
use oarlock.Definition.Acyclic.{keys-IsKnown, check_acyclic-decides}

abbrev pub InRange : ℤ → ℕ → Type 0
InRange z bound = (n : ℕ) × (z ≡ pos n) × (n ≤ bound)

pub record StepValid (known : Option (Text → Bool)) (s : Step) : Type 0 where
  pub has_key : s.key ≢ []
  pub has_type : s.type ≢ []
  pub is_known : (accepts : Text → Bool) → known ≡ some accepts → accepts s.type ≡ true
  pub retries_bound : InRange s.retries 10
  pub timeout_bound : InRange s.timeout 600

-- No key stands twice in a list.
abbrev pub Distinct : List Text → Type 0
Distinct [] = Unit
Distinct (k ∷ ks) = (¬ Memᴰ k ks) × Distinct ks

abbrev pub keys_of : List Step → List Text
keys_of ss = map (λ s. s.key) ss

pub record IsValid (known : Option (Text → Bool)) (d : Definition) : Type 0 where
  pub steps_valid : (s : Step) → Memᴰ s d.steps → StepValid known s
  pub distinct : Distinct (keys_of d.steps)
  pub needs_known :
      (s : Step) (n : Text) → Memᴰ s d.steps → Memᴰ n s.needs → Memᴰ n (keys_of d.steps)
  pub acyclic : (k : Text) → ¬ Upstream d k k

-- A check that decides a statement: it returns `a`, or an error and the statement is false.
abbrev pub Decides : {A : Type 0} → Check A → A → Type 0 → Type 0
Decides r a P = ((r ≡ ok a) × P) ⊎ ((e : Invalid) × (r ≡ invalid e) × (¬ P))
