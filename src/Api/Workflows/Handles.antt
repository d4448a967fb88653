-- ===== src/Api/Workflows/Handles.antt =====
-- What the requests on workflows keep: each leaves a sound catalog.
use oarlock.Prelude.{
  ℕ, suc, inl, inr, Text, Bool, Option, none, some, arith, ltb, trim_space, Bool-cases,
  Option-cases,
}
use oarlock.Prelude.Tables.{any_row, any_row-some}
use oarlock.Json.{Value}
use oarlock.Definition.{Definition}
use oarlock.Api.Http.{slugify}
use oarlock.Api.Workflows.{Catalog, owned, has_slug, max_version, int_max}
use oarlock.Api.Workflows.Requests.{
  update_workflow, delete_workflow, validate_definition, create_checked, create_workflow,
  put_checked, put_definition, is_blank, or_empty,
}
use oarlock.Api.Workflows.Sound.{IsSound, validate_definition-none}
use oarlock.Api.Workflows.Keeps.{
  insert_workflow-IsSound, write_workflow-IsSound, remove_workflow-IsSound, insert_version-IsSound,
}

module _ (parse : Value → Option Definition) (has : Text → Bool) where
  module _ (c : Catalog) (s : IsSound parse has c) where
    refused-IsSound :
        (workspace : ℕ) (name : Text) (raw : Value)
        → IsSound parse has (create_checked parse has workspace name raw c).0
    unfolding create_checked
    refused-IsSound workspace name raw = elim (Option-cases (validate_definition parse has raw)) [
      | inr (refusal, e) ↦ rw (e, create_checked) s
      | inl e ↦ elim (Bool-cases (any_row (has_slug workspace (slugify name)) c.workflows)) [
        | inl t ↦ rw (e, t, create_checked) s
        | inr t ↦
            rw (e, t, create_checked)
              (insert_workflow-IsSound parse has c s workspace name raw
                (validate_definition-none parse has raw e) t)
      ]
    ]

    pub create_workflow-IsSound :
        (workspace : ℕ) (body : Option (Text × Option Value))
        → IsSound parse has (create_workflow parse has workspace body c).0
    unfolding create_workflow
    create_workflow-IsSound workspace none = s
    create_workflow-IsSound workspace (some (name, definition)) =
        elim (Bool-cases (is_blank name)) [
          | inl e ↦ rw (e, create_workflow) s
          | inr e ↦ rw (e, create_workflow) (refused-IsSound workspace name (or_empty definition))
        ]

    pub update_workflow-IsSound :
        (workspace : ℕ) (id : Option ℕ) (body : Option (Option Text × Option Bool))
        → IsSound parse has (update_workflow workspace id body c).0
    unfolding update_workflow
    update_workflow-IsSound workspace none body = s
    update_workflow-IsSound workspace (some id) none = s
    update_workflow-IsSound workspace (some id) (some (none, enabled)) =
        write_workflow-IsSound parse has c s workspace id none enabled
    update_workflow-IsSound workspace (some id) (some (some name, enabled)) =
        elim (Bool-cases (is_blank name)) [
          | inl e ↦ rw (e, update_workflow) s
          | inr e ↦
              rw (e, update_workflow)
                (write_workflow-IsSound parse has c s workspace id (some (trim_space name)) enabled)
        ]

    pub delete_workflow-IsSound :
        (workspace : ℕ) (id : Option ℕ) → IsSound parse has (delete_workflow workspace id c).0
    unfolding delete_workflow
    delete_workflow-IsSound workspace none = s
    delete_workflow-IsSound workspace (some id) =
        elim (Bool-cases (any_row (owned id workspace) c.workflows)) [
          | inr e ↦ rw (e, delete_workflow) s
          | inl e ↦
              let (w, m, h) = any_row-some (owned id workspace) c.workflows e in
              rw (e, delete_workflow) (remove_workflow-IsSound parse has c s workspace id m h)
        ]

    put_checked-IsSound :
        (workspace id : ℕ) (raw : Value)
        → IsSound parse has (put_checked parse has workspace id raw c).0
    unfolding put_checked owned
    put_checked-IsSound workspace id raw = elim (Option-cases (validate_definition parse has raw)) [
      | inr (refusal, e) ↦ rw (e, put_checked) s
      | inl e ↦ elim (Bool-cases (any_row (owned id workspace) c.workflows)) [
        | inr f ↦ rw (e, f, put_checked) s
        | inl f ↦ elim (Bool-cases (ltb int_max (suc (max_version id c.versions)))) [
          | inl g ↦ rw (e, f, g, put_checked) s
          | inr g ↦
              let (w, m, h) = any_row-some (owned id workspace) c.workflows f in
              rw (e, f, g, put_checked)
                (insert_version-IsSound parse has c s id raw
                  (validate_definition-none parse has raw e) m (ground arith))
        ]
      ]
    ]

    pub put_definition-IsSound :
        (workspace : ℕ) (id : Option ℕ) (body : Option Value)
        → IsSound parse has (put_definition parse has workspace id body c).0
    unfolding put_definition
    put_definition-IsSound workspace none body = s
    put_definition-IsSound workspace (some id) none = s
    put_definition-IsSound workspace (some id) (some raw) = put_checked-IsSound workspace id raw
