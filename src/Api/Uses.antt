-- ===== src/Api/Uses.antt =====
-- engine/internal/api/resources.go, `referencingWorkflows` and `workflowsMentioning`: the workflows
-- whose current version uses a secret or a server by its name.
pub mod Named
use oarlock.Prelude.{
  ℕ, Text, text_eq, codes, Bool, true, false, not, ◌&&◌, ◌||◌, Option, none, some, List, [], ◌∷◌,
  ◌++◌, leb, ◌==◌, if◌then◌else◌, is_prefix, contains,
}
use oarlock.Prelude.Tables.{find, any_row}
use oarlock.Json.{Value, null, bool, num, str, arr, obj, Items, nil, cons, Fields, end, field}
use oarlock.Api.Http.{is_alnum}
use oarlock.Api.Workflows.{WorkflowRow, VersionRow, Catalog, version_with_id}

-- A byte of the class `[a-zA-Z0-9_-]`.
unfoldable pub is_name_byte : ℕ → Bool
unfolding is_alnum
is_name_byte c = is_alnum c || leb b'A' c && leb c b'Z' || c == b'_' || c == b'-'

-- The pattern `secretNamePattern`.
unfoldable pub name_bytes : Text → Bool
unfolding is_name_byte
name_bytes [] = true
name_bytes (c ∷ s) = is_name_byte c && name_bytes s

unfoldable pub matches_name : Text → Bool
unfolding name_bytes
matches_name [] = false
matches_name (c ∷ s) = name_bytes (c ∷ s)

-- Whether a text begins with another that no byte of a name follows.
unfoldable pub begins_with : Text → Text → Bool
unfolding is_name_byte
begins_with [] [] = true
begins_with [] (c ∷ s) = not (is_name_byte c)
begins_with (v ∷ vs) [] = false
begins_with (v ∷ vs) (c ∷ s) = v == c && begins_with vs s

-- The regular expression `secrets\.NAME($|[^a-zA-Z0-9_-])`, anywhere in a text.
unfoldable pub mentions_from : Text → Text → Bool
unfolding begins_with
mentions_from pattern [] = begins_with pattern []
mentions_from pattern (c ∷ s) = begins_with pattern (c ∷ s) || mentions_from pattern s

unfoldable pub mentions : Text → Text → Bool
unfolding mentions_from
mentions name text = mentions_from (codes "secrets." ++ name) text

-- `->` on jsonb.
unfoldable pub json_member : Text → Fields → Option Value
unfolding text_eq
json_member key end = none
json_member key (field k v fs) = if text_eq k key then some v else json_member key fs

unfoldable pub member : Text → Value → Option Value
unfolding json_member
member key (obj fs) = json_member key fs
member key v = none

-- `distinct`; the order of the names, which the collation of the database gives, is left out.
unfoldable pub distinct_names : List Text → List Text
unfolding contains
distinct_names [] = []
distinct_names (n ∷ ns) = let rest = distinct_names ns in if contains rest n then rest else n ∷ rest

unfoldable pub current_definition : List VersionRow → WorkflowRow → Option Value
unfolding find
current_definition versions w = elim w.current_version [
  | none ↦ none
  | some id ↦ elim (find (version_with_id id) versions) [ none ↦ none | some v ↦ some v.definition ]
]

-- The names of the workflows of a workspace that a test of the current definition takes.
unfoldable pub naming :
    (Value → Option Bool) → ℕ → List VersionRow → List WorkflowRow → Option (List Text)
unfolding current_definition
naming test workspace versions [] = some []
naming test workspace versions (w ∷ ws) =
    let rest = naming test workspace versions ws in
    let tested : Option (List Text) = elim (current_definition versions w) [
      | none ↦ rest
      | some definition ↦ elim (test definition) [
        | none ↦ none
        | some taken ↦ elim rest [
          | none ↦ none
          | some names ↦ some (if taken then w.name ∷ names else names)
        ]
      ]
    ] in
    if w.workspace == workspace then tested else rest

-- `print` is the text that the database gives of a jsonb value.
module _ (print : Value → Text) where
  -- `->>` on jsonb.
  unfoldable pub json_text : Text → Value → Option Text
  unfolding member
  json_text key v = elim (member key v) [
    | none ↦ none
    | some w ↦ elim w [
      | null ↦ none
      | bool b ↦ some (print (bool b))
      | num n ↦ some (print (num n))
      | str s ↦ some s
      | arr xs ↦ some (print (arr xs))
      | obj fs ↦ some (print (obj fs))
    ]
  ]

  -- `st->>'type' like 'PREFIX%' and st->'config'->>KEY = NAME`.
  unfoldable pub references : Text → Text → Text → Value → Bool
  unfolding json_text member text_eq is_prefix
  references prefix key name step = elim (json_text (codes "type") step) [
    | none ↦ false
    | some type ↦ elim (member (codes "config") step) [
      | none ↦ false
      | some config ↦ elim (json_text key config) [
        | none ↦ false
        | some value ↦ is_prefix prefix type && text_eq value name
      ]
    ]
  ]

  unfoldable pub any_item : Text → Text → Text → Items → Bool
  unfolding references
  any_item prefix key name nil = false
  any_item prefix key name (cons step steps) =
      references prefix key name step || any_item prefix key name steps

  -- A definition without steps has none that refers; steps that are no array are an error.
  unfoldable pub any_step : Text → Text → Text → Value → Option Bool
  unfolding any_item member
  any_step prefix key name definition = elim (member (codes "steps") definition) [
    | none ↦ some false
    | some steps ↦ elim steps [
      | null ↦ none
      | bool b ↦ none
      | num n ↦ none
      | str s ↦ none
      | obj fs ↦ none
      | arr xs ↦ some (any_item prefix key name xs)
    ]
  ]

  unfoldable pub referencing_workflows : ℕ → Text → Text → Text → Catalog → Option (List Text)
  unfolding naming any_step distinct_names
  referencing_workflows workspace prefix key name c =
      elim (naming (any_step prefix key name) workspace c.versions c.workflows) [
        | none ↦ none
        | some names ↦ some (distinct_names names)
      ]

  unfoldable pub workflows_mentioning : ℕ → Text → Catalog → Option (List Text)
  unfolding naming mentions distinct_names
  workflows_mentioning workspace name c =
      elim (naming (λ definition. some (mentions name (print definition))) workspace c.versions
        c.workflows) [ none ↦ none | some names ↦ some (distinct_names names) ]
