-- ===== src/Api/Workflows/Versions.antt =====
-- A saved definition is read back, and no version that was saved changes.
use oarlock.Prelude.{
  ℕ, suc, ◌≡◌, inl, inr, ◌≢◌, refl, ap, ◌∙◌, Text, codes, Bool, true, false, ◌&&◌, Option, none,
  some, List, [], ◌∷◌, arith, ltb, if◌then◌else◌, Bool-cases, Option-cases,
}
use oarlock.Prelude.Tables.{find, any_row, update, find-some, find-none, find-update, any_row-some}
use oarlock.Json.{Value}
use oarlock.Definition.{Definition}
use oarlock.Definition.Valid.Whole.{validate-decides}
use oarlock.Api.Http.{Reply, reply, error, said}
use oarlock.Api.Workflows.{
  WorkflowRow, VersionRow, Catalog, Body, saved, shows_version, shows_workflow, owned, numbered,
  workflow_by_id, point_at, version_id, new_version, insert_version, max_version, int_max,
}
use oarlock.Api.Workflows.Requests.{
  get_version, get_workflow, current_of, validate_definition, put_checked, put_definition,
}
use oarlock.Api.Workflows.Sound.{IsSound, found_new}

-- A workflow that points at another version stays in its workspace.
any_owned :
    (p : WorkflowRow → Bool) (version : Option ℕ) (w i : ℕ) (ws : List WorkflowRow)
    → any_row (owned i w) (update p (point_at version) ws) ≡ any_row (owned i w) ws
unfolding owned any_row update
any_owned p version w i [] = refl
any_owned p version w i (x ∷ ws) = elim (Bool-cases (p x)) [
  | inl e ↦ rw (e, any_owned p version w i ws)
  | inr e ↦ rw (e, any_owned p version w i ws)
]

-- What the reply to the request for a version depends on.
answer : Bool → Option VersionRow → Reply Body
answer true (some v) = reply 200 (shows_version v)
answer true none = error 404 (said (codes "version not found"))
answer false found = error 404 (said (codes "version not found"))

get_version-answer :
    (w i n : ℕ) (c : Catalog)
    → get_version w (some i) (some n) c
      ≡ answer (any_row (owned i w) c.workflows) (find (numbered i n) c.versions)
unfolding get_version answer
get_version-answer w i n c = elim (Bool-cases (any_row (owned i w) c.workflows)) [
  | inr e ↦ rw (e, get_version, answer)
  | inl e ↦ elim (Option-cases (find (numbered i n) c.versions)) [
    | inl f ↦ rw (e, f, get_version, answer)
    | inr (x, f) ↦ rw (e, f, get_version, answer)
  ]
]

get_workflow-of :
    (w i : ℕ) (c : Catalog) {x : WorkflowRow} {v : Option VersionRow}
    → find (owned i w) c.workflows ≡ some x
    → current_of x c.versions ≡ v
    → get_workflow w (some i) c ≡ reply 200 (shows_workflow x v)
unfolding get_workflow
get_workflow-of w i c e f = rw (e, f, get_workflow)

owned_same :
    (i w : ℕ) (x : WorkflowRow) (version : Option ℕ) → owned i w (point_at version x) ≡ owned i w x
unfolding owned
owned_same i w x version = refl

owned_id : (i w : ℕ) (x : WorkflowRow) → owned i w x ≡ true → workflow_by_id i x ≡ true
unfolding owned
owned_id i w x h = ground arith

shown : {v x : VersionRow} → reply 200 (shows_version v) ≡ reply 200 (shows_version x) → v ≡ x
shown h = cc

-- What it says that a version is shown.
get_version-shown :
    (w i n : ℕ) (c : Catalog) {v : VersionRow}
    → get_version w (some i) (some n) c ≡ reply 200 (shows_version v)
    → (any_row (owned i w) c.workflows ≡ true) × (find (numbered i n) c.versions ≡ some v)
unfolding get_version error
get_version-shown w i n c {v} h = elim (Bool-cases (any_row (owned i w) c.workflows)) [
  | inr e ↦ absurd (ground arith)
  | inl e ↦ elim (Option-cases (find (numbered i n) c.versions)) [
    | inl f ↦ absurd (ground arith)
    | inr (x, f) ↦
        let same : x ≡ v = shown (rw (e, f, get_version) at h) in
        (e, f ∙ ap (λ (t : VersionRow). some t) same)
  ]
]

get_version-of :
    (w i n : ℕ) (c : Catalog) {v : VersionRow}
    → any_row (owned i w) c.workflows ≡ true
    → find (numbered i n) c.versions ≡ some v
    → get_version w (some i) (some n) c ≡ reply 200 (shows_version v)
unfolding get_version
get_version-of w i n c e f = rw (e, f, get_version)

module _ (parse : Value → Option Definition) (has : Text → Bool) where
  -- A refusal of the validation is no success.
  refusal-saved :
      (raw : Value) {refusal : Reply Body} {status : ℕ} {body : Body}
      → validate_definition parse has raw ≡ some refusal
      → refusal ≢ reply status body
  unfolding validate_definition error
  refusal-saved raw e f = elim (Option-cases (parse raw)) [
    | inl q ↦ absurd (ground arith)
    | inr (d, q) ↦ elim (validate-decides (some has) d) [
      | inl (r, v) ↦ absurd (ground arith)
      | inr (i, r, _) ↦ absurd (ground arith)
    ]
  ]

  module _ (workspace id number : ℕ) (raw : Value) (c c' : Catalog)
      (put : put_definition parse has workspace (some id) (some raw) c
        ≡ (c', reply 200 (saved id number))) where
    put_definition-inserts :
        (c' ≡ insert_version id number raw c)
        × (number ≡ suc (max_version id c.versions))
        × (any_row (owned id workspace) c.workflows ≡ true)
    unfolding put_definition put_checked error
    put_definition-inserts = elim (Option-cases (validate_definition parse has raw)) [
      | inr (refusal, e) ↦
          absurd (refusal-saved raw {status = 200} {body = saved id number} e (ground arith))
      | inl e ↦ elim (Bool-cases (any_row (owned id workspace) c.workflows)) [
        | inr f ↦ absurd (ground arith)
        | inl f ↦ elim (Bool-cases (ltb int_max (suc (max_version id c.versions)))) [
          | inl g ↦ absurd (ground arith)
          | inr g ↦ (ground arith, ground arith, f)
        ]
      ]
    ]

    module _ (s : IsSound parse has c) where
      -- What is shown of a version after the insert.
      inserted_shown :
          (w i n : ℕ)
          → get_version w
              (some i)
              (some n)
              (insert_version id (suc (max_version id c.versions)) raw c)
            ≡ (if numbered i n (new_version c.next_id id (suc (max_version id c.versions)) raw)
                  && any_row (owned i w) c.workflows
                then reply 200
                    (shows_version (new_version c.next_id id (suc (max_version id c.versions)) raw))
                else get_version w (some i) (some n) c)
      unfolding insert_version find answer
      inserted_shown w i n =
          let new = new_version c.next_id id (suc (max_version id c.versions)) raw in
          rw
            (
              get_version-answer w i n (insert_version id (suc (max_version id c.versions)) raw c),
              get_version-answer w i n c,
              any_owned (workflow_by_id id)
                  (version_id (find (numbered id new.version) (new ∷ c.versions))) w i c.workflows,
            )
            (elim (Bool-cases (numbered i n new)) [
              | inr f ↦ rw f
              | inl f ↦ elim (Bool-cases (any_row (owned i w) c.workflows)) [
                | inl e ↦ rw (e, f)
                | inr e ↦ rw (e, f)
              ]
            ])

      inserted_current :
          any_row (owned id workspace) c.workflows ≡ true
          → (w : WorkflowRow) × (get_workflow workspace
                (some id)
                (insert_version id (suc (max_version id c.versions)) raw c)
              ≡ reply 200 (
                  shows_workflow w
                    (some (new_version c.next_id id (suc (max_version id c.versions)) raw))))
      unfolding insert_version current_of find
      inserted_current h = elim (Option-cases (find (owned id workspace) c.workflows)) [
        | inl e ↦
            let (x, m, q) = any_row-some (owned id workspace) c.workflows h in
            absurd (ground (arith, find-none (owned id workspace) c.workflows e m))
        | inr (x, e) ↦
            let found =
              find-update (owned id workspace) (workflow_by_id id) (point_at (some c.next_id))
                c.workflows (λ y. owned_same id workspace y (some c.next_id)) e in
            let (_, q) = find-some (owned id workspace) c.workflows e in
            let mine = owned_id id workspace x q in
            (
              point_at (some c.next_id) x,
              get_workflow-of workspace id _
                  (rw
                    (found_new parse has id (suc (max_version id c.versions)) c.next_id raw
                      c.versions)
                    (rw (found, mine)))
                  (ground arith),
            )
      ]

      -- A definition that was saved gets the number after the last one, and is the current version of
      -- its workflow. Whoever asks for a version is shown the new row where it has that number of that
      -- workflow, if the workflow is in the workspace; any other version is shown as before.
      pub put_definition-get :
          (w i n : ℕ)
          → let new = new_version c.next_id id number raw in
            (number ≡ suc (max_version id c.versions))
            × ((x : WorkflowRow) × (get_workflow workspace (some id) c'
                  ≡ reply 200 (shows_workflow x (some new))))
            × (get_version w (some i) (some n) c' ≡ (
                if numbered i n new && any_row (owned i w) c.workflows
                then reply 200 (shows_version new)
                else get_version w (some i) (some n) c))
      put_definition-get w i n =
          let (same, next, there) = put_definition-inserts in
          rw (same, next) (refl, inserted_current there, inserted_shown w i n)
