-- ===== src/Api/Secrets/Unused.antt =====
-- No workflow uses a secret that is deleted.
use oarlock.Prelude.{
  ℕ, ◌≡◌, ap, refl, inl, inr, ◌∙◌, Text, codes, true, false, Option, none, some, List, [], ◌∷◌,
  ◌++◌, Memᴰ, arith, Option-cases,
}
use oarlock.Prelude.Tables.{find, find-some}
use oarlock.Json.{Value}
use oarlock.Api.Http.{reply, error}
use oarlock.Api.Workflows.{WorkflowRow, Catalog}
use oarlock.Api.Uses.{
  mentions, distinct_names, current_definition, any_step, referencing_workflows,
  workflows_mentioning,
}
use oarlock.Api.Secrets.{SecretTable, no_content, owned, users_of, delete_unused, delete_secret}
use oarlock.Api.Uses.Named.{distinct_names-nil, referencing_workflows-nil, workflows_mentioning-nil}
use oarlock.Vault.{SecretRow}

append-nil : (xs ys : List Text) → xs ++ ys ≡ [] → (xs ≡ []) × (ys ≡ [])
append-nil [] ys h = (refl, h)
append-nil (x ∷ xs) ys h = absurd (ground arith)

delete_unused-nil :
    (workspace id : ℕ) (users : Option (List Text)) (ss ss' : SecretTable)
    → delete_unused workspace id users ss ≡ (ss', reply 204 no_content)
    → users ≡ some []
unfolding delete_unused error
delete_unused-nil workspace id none ss ss' h = absurd (ground arith)
delete_unused-nil workspace id (some []) ss ss' h = refl
delete_unused-nil workspace id (some (n ∷ ns)) ss ss' h = absurd (ground arith)

module _ (print : Value → Text) where
  users_of-nil :
      (workspace : ℕ) (name : Text) (c : Catalog)
      → users_of print workspace name c ≡ some []
      → (referencing_workflows print workspace (codes "ai.") (codes "api_key") name c ≡ some [])
        × (workflows_mentioning print workspace name c ≡ some [])
  unfolding users_of
  users_of-nil workspace name c h =
      elim (Option-cases
        (referencing_workflows print workspace (codes "ai.") (codes "api_key") name c)) [
          | inl e ↦ absurd (ground arith)
          | inr (refs, e) ↦ elim (Option-cases (workflows_mentioning print workspace name c)) [
            | inl f ↦ absurd (ground arith)
            | inr (mentioned, f) ↦
                let names : distinct_names (refs ++ mentioned) ≡ [] = ground arith in
                let (r, n) =
                  append-nil refs mentioned (distinct_names-nil (refs ++ mentioned) names) in
                (e ∙ ap (λ (l : List Text). some l) r, f ∙ ap (λ (l : List Text). some l) n)
          ]
        ]

  -- A secret that is deleted was one of the workspace, and no workflow of the workspace uses it: the
  -- text of no current definition mentions it, and no `ai.*` step of one has it as `api_key`.
  pub delete_secret-unused :
      (workspace id : ℕ) (c : Catalog) (ss ss' : SecretTable) {w : WorkflowRow} {definition : Value}
      → delete_secret print workspace (some id) c ss ≡ (ss', reply 204 no_content)
      → Memᴰ w c.workflows
      → w.workspace ≡ workspace
      → current_definition c.versions w ≡ some definition
      → (s : SecretRow) × Memᴰ s ss.rows
        × (owned id workspace s ≡ true)
        × (mentions s.name (print definition) ≡ false)
        × (any_step print (codes "ai.") (codes "api_key") s.name definition ≡ some false)
  unfolding delete_secret error
  delete_secret-unused workspace id c ss ss' {w} {definition} h m same current =
      elim (Option-cases (find (owned id workspace) ss.rows)) [
        | inl e ↦ absurd (ground arith)
        | inr (s, e) ↦
            let (n, q) = find-some (owned id workspace) ss.rows e in
            let (refs, texts) = users_of-nil workspace s.name c (
              delete_unused-nil workspace id (users_of print workspace s.name c) ss ss'
                (rw (e, delete_secret) at h)) in
            (
              s,
              n,
              q,
              workflows_mentioning-nil print workspace s.name c texts m same current,
              referencing_workflows-nil print workspace s.name c (codes "ai.") (codes "api_key")
                  refs m same current,
            )
      ]
