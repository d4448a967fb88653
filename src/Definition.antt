-- ===== src/Definition.antt =====
-- engine/internal/definition/definition.go: the workflow definition, its lookup, the closure of
-- its needs and its validation.
pub mod Graph
pub mod Closure
pub mod Painting
pub mod Acyclic
pub mod Valid
use oarlock.Prelude.{
  ℕ, zero, suc, ◌≡◌, Text, text_eq, contains, Bool, true, false, not, ◌&&◌, ◌||◌, Option, none,
  some, List, [], ◌∷◌, length, map, if◌then◌else◌,
}
use oarlock.Prelude.Int.{ℤ, pos, negsuc, is_neg, gt_nat}
use oarlock.Json.{Fields}

-- `retries` and `timeout` are Go ints, so they may be negative before validation. The canvas
-- position `ui` is left out: the engine ignores it.
pub record Step : Type 0 where
  pub key : Text
  pub type : Text
  pub needs : List Text
  pub guard : Text
  pub config : Fields
  pub retries : ℤ
  pub timeout : ℤ

pub record Definition : Type 0 where
  pub name : Text
  pub steps : List Step

unfoldable pub find_step : List Step → Text → Option Step
find_step [] k = none
find_step (s ∷ ss) k = if text_eq s.key k then some s else find_step ss k

unfoldable pub step : Definition → Text → Option Step
unfolding find_step
step d k = find_step d.steps k

-- The loop over `step.Needs` in `TransitiveNeeds`: `call` is the recursive `visit`. The result is
-- `none` only where `call` gives none.
unfoldable pub close_needs :
    (Text → List Text → Option (List Text)) → List Text → List Text → Option (List Text)
close_needs call [] seen = some seen
close_needs call (n ∷ ns) seen = elim (if contains seen n then some seen else call n (n ∷ seen)) [
  | none ↦ none
  | some seen' ↦ close_needs call ns seen'
]

-- `visit` of `TransitiveNeeds`, on fuel: `none` means that the fuel ran out.
unfoldable pub close : Definition → ℕ → Text → List Text → Option (List Text)
close d zero k seen = elim (step d k) [ none ↦ some seen | some s ↦ none ]
close d (suc fuel) k seen = elim (step d k) [
  | none ↦ some seen
  | some s ↦ close_needs (close d fuel) s.needs seen
]

unfoldable pub transitive_needs : Definition → Text → Option (List Text)
unfolding close close_needs step
transitive_needs d k = close d (suc (length d.steps)) k []

-- The three colours of `checkAcyclic`.
pub data Color : Type 0 where
  white gray black : Color

-- `color map[string]int`, the newest entry first; a missing key reads white.
abbrev pub Colors : Type 0
Colors = List (Text × Color)

unfoldable pub color : Colors → Text → Color
color [] k = white
color ((j, x) ∷ c) k = if text_eq j k then x else color c k

-- What validation can report, with the keys that it names.
pub data Invalid : Type 0 where
  empty_key : Invalid
  duplicate_key no_type bad_retries bad_timeout : Text → Invalid
  unknown_type unknown_need self_need : Text → Text → Invalid
  cycle : Text → Invalid

-- `nil_deref` is the panic of `d.Step(key).Needs` at an unknown key; `out_of_fuel` is the model's.
pub data Check (A : Type 0) : Type 0 where
  ok : A → Check A
  invalid : Invalid → Check A
  nil_deref out_of_fuel : Check A

infixl 5 ◌>>=◌ ◌>>◌
abbrev pub ◌>>=◌ : {A B : Type 0} → Check A → (A → Check B) → Check B
ok a >>= f = f a
invalid e >>= f = invalid e
nil_deref >>= f = nil_deref
out_of_fuel >>= f = out_of_fuel

abbrev pub ◌>>◌ : {B : Type 0} → Check (Unit {0}) → Check B → Check B
m >> k = m >>= λ _. k

-- A loop of `visit` calls that stops at the first error.
unfoldable pub visit_all : (Text → Colors → Check Colors) → List Text → Colors → Check Colors
visit_all call [] c = ok c
visit_all call (n ∷ ns) c = call n c >>= visit_all call ns

-- `visit` of `checkAcyclic`, on fuel.
unfoldable pub visit : Definition → ℕ → Text → Colors → Check Colors
visit d zero key c = elim (color c key) [
  | gray ↦ invalid (cycle key)
  | black ↦ ok c
  | white ↦ out_of_fuel
]
visit d (suc fuel) key c = elim (color c key) [
  | gray ↦ invalid (cycle key)
  | black ↦ ok c
  | white ↦ elim (step d key) [
    | none ↦ nil_deref
    | some s ↦ visit_all (visit d fuel) s.needs ((key, gray) ∷ c) >>= λ c'. ok ((key, black) ∷ c')
  ]
]

unfoldable pub check_acyclic : Definition → Check (Unit {0})
unfolding visit visit_all color step
check_acyclic d =
    visit_all (visit d (suc (length d.steps))) (map (λ s. s.key) d.steps) [] >>= λ _. ok tt

unfoldable pub require : Bool → Invalid → Check (Unit {0})
require true e = ok tt
require false e = invalid e

-- `knownTypes` may be nil, and then every type passes.
unfoldable pub type_known : Option (Text → Bool) → Text → Bool
type_known none t = true
type_known (some known) t = known t

-- `0 <= z && z <= bound`, the negation of the test on retries and timeout.
unfoldable pub in_range : ℤ → ℕ → Bool
in_range z bound = not (is_neg z || gt_nat z bound)

-- The body of the first loop of `Validate`: `keys` are those of the steps before.
unfoldable pub check_step : Option (Text → Bool) → List Text → Step → Check (Unit {0})
unfolding require type_known in_range
check_step known keys s = do
  require (not (text_eq s.key [])) empty_key
  require (not (contains keys s.key)) (duplicate_key s.key)
  require (not (text_eq s.type [])) (no_type s.key)
  require (type_known known s.type) (unknown_type s.key s.type)
  require (in_range s.retries 10) (bad_retries s.key)
  require (in_range s.timeout 600) (bad_timeout s.key)

-- The loop itself: the result is all the keys.
unfoldable pub check_steps : Option (Text → Bool) → List Step → List Text → Check (List Text)
unfolding check_step
check_steps known [] keys = ok keys
check_steps known (s ∷ ss) keys = do check_step known keys s; check_steps known ss (s.key ∷ keys)

unfoldable pub check_step_needs : List Text → Text → List Text → Check (Unit {0})
unfolding require
check_step_needs keys key [] = ok tt
check_step_needs keys key (n ∷ ns) = do
  require (contains keys n) (unknown_need key n)
  require (not (text_eq n key)) (self_need key n)
  check_step_needs keys key ns

unfoldable pub check_needs : List Text → List Step → Check (Unit {0})
unfolding check_step_needs
check_needs keys [] = ok tt
check_needs keys (s ∷ ss) = do check_step_needs keys s.key s.needs; check_needs keys ss

unfoldable pub validate : Option (Text → Bool) → Definition → Check (Unit {0})
unfolding check_steps check_needs check_acyclic
validate known d = do keys ← check_steps known d.steps []; check_needs keys d.steps; check_acyclic d
