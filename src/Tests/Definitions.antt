-- ===== src/Tests/Definitions.antt =====
-- Definitions that are valid and that are not.
use oarlock.Prelude.{◌≡◌, refl, Text, codes, some, List, [], ◌∷◌, Memᴰ, ◌↔◌, text_eq, contains}
use oarlock.Definition.{ok, invalid, cycle, validate, transitive_needs}
use oarlock.Definition.Graph.{Upstream}
use oarlock.Definition.Closure.{transitive_needs-Upstream}
use oarlock.Definition.Valid.{IsValid, Decides}
use oarlock.Definition.Valid.Whole.{validate-decides}
use oarlock.Tests.Fixtures.{pipeline, looped, any_type}

pipeline_is_valid : validate any_type pipeline ≡ ok tt
unfolding validate text_eq contains
pipeline_is_valid = refl

looped_has_cycle : validate any_type looped ≡ invalid (cycle (codes "fetch"))
unfolding validate text_eq contains
looped_has_cycle = refl

report_needs : transitive_needs pipeline (codes "report") ≡ some (codes "fetch" ∷ [])
unfolding transitive_needs text_eq contains
report_needs = refl

validate-decides_example : Decides (validate any_type looped) tt (IsValid any_type looped)
validate-decides_example = validate-decides any_type looped

transitive_needs-Upstream_example :
    (r : List Text) × (transitive_needs pipeline (codes "report") ≡ some r)
    × ((n : Text) → Memᴰ n r ↔ Upstream pipeline (codes "report") n)
transitive_needs-Upstream_example = transitive_needs-Upstream pipeline (codes "report")
