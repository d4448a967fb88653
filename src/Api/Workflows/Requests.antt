-- ===== src/Api/Workflows/Requests.antt =====
-- engine/internal/api/api.go: the requests on workflows and their versions.
use oarlock.Prelude.{
  ℕ, suc, Text, text_eq, codes, Bool, Option, none, some, List, [], ltb, ◌==◌, if◌then◌else◌,
  trim_space,
}
use oarlock.Prelude.Tables.{find, update, delete, any_row}
use oarlock.Json.{Value, obj, arr, nil, field, end}
use oarlock.Definition.{Definition, ok, invalid, nil_deref, out_of_fuel, validate}
use oarlock.Api.Http.{
  Reply, reply, panicked, error, said, invalid_definition, library_error, slugify,
}
use oarlock.Api.Workflows.{
  WorkflowRow, VersionRow, Catalog, Body, owned, has_slug, numbered, version_with_id, max_version,
  int_max, insert_workflow, insert_version, saved, updated, shows_workflow, shows_version,
  no_content,
}

unfoldable pub is_blank : Text → Bool
unfolding text_eq trim_space
is_blank name = text_eq (trim_space name) []

-- A definition that the request leaves out is `{"steps": []}`.
abbrev pub or_empty : Option Value → Value
or_empty none = obj (field (codes "steps") (arr nil) end)
or_empty (some definition) = definition

abbrev not_found : {A : Type 0} → Reply A
not_found = error 404 (said (codes "workflow not found"))

abbrev invalid_id : {A : Type 0} → Reply A
invalid_id = error 400 (said (codes "invalid workflow id"))

abbrev pub set_row : Option Text → Option Bool → WorkflowRow → WorkflowRow
set_row name enabled w = record w {
  name = elim name [ none ↦ w.name | some n ↦ n ];
  is_enabled = elim enabled [ none ↦ w.is_enabled | some b ↦ b ];
}

unfoldable pub write_workflow : ℕ → ℕ → Option Text → Option Bool → Catalog → Catalog × Reply Body
unfolding find update owned
write_workflow workspace id name enabled c = elim (find (owned id workspace) c.workflows) [
  | none ↦ (c, not_found)
  | some w ↦
      let w' = set_row name enabled w in
      (
        record c { workflows = update (owned id workspace) (set_row name enabled) c.workflows },
        reply 200 (updated id w'.name w'.is_enabled),
      )
]

-- The id of a request is what `uuid.Parse` makes of its path; a body is what the decoder makes of
-- it. `none` is the error of either.
unfoldable pub update_workflow :
    ℕ → Option ℕ → Option (Option Text × Option Bool) → Catalog → Catalog × Reply Body
unfolding write_workflow is_blank trim_space
update_workflow workspace none body c = (c, invalid_id)
update_workflow workspace (some id) none c = (c, error 400 (said (codes "invalid body")))
update_workflow workspace (some id) (some (none, enabled)) c =
    write_workflow workspace id none enabled c
update_workflow workspace (some id) (some (some name, enabled)) c =
    if is_blank name
    then (c, error 400 (said (codes "name cannot be empty")))
    else write_workflow workspace id (some (trim_space name)) enabled c

-- The rows that go with a deleted workflow: its versions cascade.
unfoldable pub remove_workflow : ℕ → ℕ → Catalog → Catalog
unfolding delete owned
remove_workflow workspace id c = record c {
  workflows = delete (owned id workspace) c.workflows;
  versions = delete (λ v. v.workflow == id) c.versions;
}

unfoldable pub delete_workflow : ℕ → Option ℕ → Catalog → Catalog × Reply Body
unfolding any_row owned remove_workflow
delete_workflow workspace none c = (c, invalid_id)
delete_workflow workspace (some id) c =
    if any_row (owned id workspace) c.workflows
    then (remove_workflow workspace id c, reply 204 no_content)
    else (c, not_found)

unfoldable pub current_of : WorkflowRow → List VersionRow → Option VersionRow
unfolding find
current_of w vs = elim w.current_version [ none ↦ none | some v ↦ find (version_with_id v) vs ]

unfoldable pub get_workflow : ℕ → Option ℕ → Catalog → Reply Body
unfolding find owned current_of
get_workflow workspace none c = invalid_id
get_workflow workspace (some id) c = elim (find (owned id workspace) c.workflows) [
  | none ↦ not_found
  | some w ↦ reply 200 (shows_workflow w (current_of w c.versions))
]

-- The version's number is what `strconv.Atoi` makes of the path.
unfoldable pub get_version : ℕ → Option ℕ → Option ℕ → Catalog → Reply Body
unfolding find owned numbered any_row
get_version workspace none number c = invalid_id
get_version workspace (some id) none c = error 400 (said (codes "invalid version"))
get_version workspace (some id) (some number) c =
    elim (if any_row (owned id workspace) c.workflows
      then find (numbered id number) c.versions
      else none) [
        | none ↦ error 404 (said (codes "version not found"))
        | some v ↦ reply 200 (shows_version v)
      ]

-- `parse` is `definition.Parse`, the reading of JSON into a definition; `none` is its error.
-- `has` is `Registry.Has`.
module _ (parse : Value → Option Definition) (has : Text → Bool) where
  -- The reply to a definition that does not pass `validateDefinition`.
  unfoldable pub validate_definition : Value → Option (Reply Body)
  unfolding validate
  validate_definition definition = elim (parse definition) [
    | none ↦ some (error 422 library_error)
    | some d ↦ elim (validate (some has) d) [
      | ok done ↦ none
      | invalid e ↦ some (error 422 (invalid_definition e))
      | nil_deref ↦ some panicked
      | out_of_fuel ↦ some panicked
    ]
  ]

  unfoldable pub create_checked : ℕ → Text → Value → Catalog → Catalog × Reply Body
  unfolding validate_definition any_row has_slug insert_workflow
  create_checked workspace name definition c = elim (validate_definition definition) [
    | some refusal ↦ (c, refusal)
    | none ↦
        if any_row (has_slug workspace (slugify name)) c.workflows
        then (c, error 409 library_error)
        else (insert_workflow workspace name definition c, reply 201 (saved c.next_id 1))
  ]

  unfoldable pub create_workflow : ℕ → Option (Text × Option Value) → Catalog → Catalog × Reply Body
  unfolding create_checked is_blank
  create_workflow workspace none c = (c, error 400 (said (codes "name is required")))
  create_workflow workspace (some (name, definition)) c =
      if is_blank name
      then (c, error 400 (said (codes "name is required")))
      else create_checked workspace name (or_empty definition) c

  unfoldable pub put_checked : ℕ → ℕ → Value → Catalog → Catalog × Reply Body
  unfolding validate_definition any_row owned max_version insert_version
  put_checked workspace id definition c = elim (validate_definition definition) [
    | some refusal ↦ (c, refusal)
    | none ↦
        let number = suc (max_version id c.versions) in
        if any_row (owned id workspace) c.workflows
        then (if ltb int_max number
            then (c, error 500 library_error)
            else (insert_version id number definition c, reply 200 (saved id number)))
        else (c, not_found)
  ]

  -- A body with no definition decodes to `none` too.
  unfoldable pub put_definition : ℕ → Option ℕ → Option Value → Catalog → Catalog × Reply Body
  unfolding put_checked
  put_definition workspace none body c = (c, invalid_id)
  put_definition workspace (some id) none c = (c, error 400 (said (codes "definition is required")))
  put_definition workspace (some id) (some definition) c = put_checked workspace id definition c
