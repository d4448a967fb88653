-- ===== src/Engine/Redact.antt =====
-- engine/internal/engine/redact.go: the scrubbing of secrets from what is stored and logged.
pub mod Occurs
pub mod Clean
use oarlock.Prelude.{
  ℕ, zero, suc, ◌-◌, ◌≡◌, Text, text_eq, codes, Bool, true, false, ◌&&◌, Option, none, some, List,
  [], ◌∷◌, ◌++◌, leb, is_prefix, if◌then◌else◌, length,
}
use oarlock.Json.{escape}

pub record Redactor : Type 0 where
  pub values : List Text

abbrev pub redacted_mark : Text
redacted_mark = codes "[redacted]"

-- The scan of `strings.ReplaceAll` for a text that is not empty: `skip` bytes belong to an occurrence
-- that has been replaced.
unfoldable pub replace_from : Text → ℕ → Text → Text
unfolding is_prefix
replace_from v skip [] = []
replace_from v (suc skip) (c ∷ cs) = replace_from v skip cs
replace_from v zero (c ∷ cs) = elim (is_prefix v (c ∷ cs)) [
  | true ↦ redacted_mark ++ replace_from v (length v - 1) cs
  | false ↦ c ∷ replace_from v zero cs
]

-- `sort.Slice` by length, the longest first.
unfoldable pub insert_value : Text → List Text → List Text
insert_value v [] = v ∷ []
insert_value v (w ∷ ws) =
    let rest = insert_value v ws in if leb (length w) (length v) then v ∷ w ∷ ws else w ∷ rest

unfoldable pub sort_values : List Text → List Text
unfolding insert_value
sort_values [] = []
sort_values (v ∷ vs) = insert_value v (sort_values vs)

-- A value of at least 4 bytes, with its form in JSON where that differs.
unfoldable pub secret_values : Text → List Text
unfolding escape text_eq
secret_values v =
    if leb 4 (length v) then (if text_eq (escape v) v then v ∷ [] else v ∷ escape v ∷ []) else []

unfoldable pub all_values : List Text → List Text
unfolding secret_values
all_values [] = []
all_values (v ∷ vs) = secret_values v ++ all_values vs

-- `secrets` are the values of the map.
unfoldable pub new_redactor : List Text → Redactor
unfolding sort_values all_values
new_redactor secrets = record { values = sort_values (all_values secrets) }

unfoldable pub replace_values : List Text → Text → Text
unfolding replace_from
replace_values [] s = s
replace_values (v ∷ vs) s = replace_values vs (replace_from v 0 s)

-- `String` and `JSON`; a nil redactor changes nothing.
unfoldable pub redact : Option Redactor → Text → Text
unfolding replace_values
redact none s = s
redact (some r) s = replace_values r.values s
