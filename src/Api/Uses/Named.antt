-- ===== src/Api/Uses/Named.antt =====
-- That no workflow uses a name is so of each current definition.
use oarlock.Prelude.{
  ℕ, ◌≡◌, ◌≢◌, ap, refl, inl, inr, subst, Text, Bool, true, false, Option, none, some, List, [],
  ◌∷◌, ◌==◌, Memᴰ, arith, contains, contains→Mem, Bool-cases, Option-cases,
}
use oarlock.Json.{Value}
use oarlock.Api.Workflows.{WorkflowRow, VersionRow, Catalog}
use oarlock.Api.Uses.{
  mentions, distinct_names, current_definition, naming, any_step, referencing_workflows,
  workflows_mentioning,
}

contains-nil : (ns : List Text) (n : Text) → ns ≡ [] → contains ns n ≢ true
contains-nil ns n none' h =
    elim (subst (λ (l : List Text). Memᴰ n l) none' (contains→Mem ns n h)) [ ]

pub distinct_names-nil : (ns : List Text) → distinct_names ns ≡ [] → ns ≡ []
unfolding distinct_names
distinct_names-nil [] h = refl
distinct_names-nil (n ∷ ns) h = elim (Bool-cases (contains (distinct_names ns) n)) [
  | inl e ↦ absurd (contains-nil (distinct_names ns) n (rw (e, distinct_names) at h) e)
  | inr e ↦ absurd (ground arith)
]

module _ (test : Value → Option Bool) (workspace : ℕ) (versions : List VersionRow) where
  -- The first workflow and those behind it.
  naming-cons :
      (v : WorkflowRow) (ws : List WorkflowRow) (d : Value)
      → naming test workspace versions (v ∷ ws) ≡ some []
      → (v.workspace == workspace) ≡ true
      → current_definition versions v ≡ some d
      → (naming test workspace versions ws ≡ some []) × (test d ≡ some false)
  unfolding naming
  naming-cons v ws d h e f = elim (Option-cases (test d)) [
    | inl k ↦ absurd (ground arith)
    | inr (taken, k) ↦ elim (Option-cases (naming test workspace versions ws)) [
      | inl l ↦ absurd (ground arith)
      | inr (names, l) ↦ elim (Bool-cases taken) [
        | inl t ↦ absurd (ground arith)
        | inr t ↦ (rw l (rw (e, f, k, l, t, naming) at h), rw (k, t))
      ]
    ]
  ]

  naming-tail :
      (v : WorkflowRow) (ws : List WorkflowRow)
      → naming test workspace versions (v ∷ ws) ≡ some []
      → naming test workspace versions ws ≡ some []
  unfolding naming
  naming-tail v ws h = elim (Bool-cases (v.workspace == workspace)) [
    | inr e ↦ rw (e, naming) at h
    | inl e ↦ elim (Option-cases (current_definition versions v)) [
      | inl f ↦ rw (e, f, naming) at h
      | inr (d, f) ↦ (naming-cons v ws d h e f).0
    ]
  ]

  -- A test that gives no name is false of every current definition.
  naming-nil :
      (ws : List WorkflowRow) {w : WorkflowRow} {definition : Value}
      → naming test workspace versions ws ≡ some []
      → Memᴰ w ws
      → w.workspace ≡ workspace
      → current_definition versions w ≡ some definition
      → test definition ≡ some false
  naming-nil [] h m same current = elim m [ ]
  naming-nil (v ∷ ws) {w} {definition} h (Memᴰ.head e) same current =
      (naming-cons v ws definition h (ground (arith, ap (λ (x : WorkflowRow). x.workspace) e))
        (subst (λ (x : WorkflowRow). current_definition versions x ≡ some definition) e current)).1
  naming-nil (v ∷ ws) h (Memᴰ.tail m) same current =
      naming-nil ws (naming-tail v ws h) m same current

-- No name is left of a query.
distinct-none :
    (found : Option (List Text)) {names : List Text}
    → (elim found [ none ↦ none | some ns ↦ some (distinct_names ns) ]) ≡ some names
    → names ≡ []
    → found ≡ some []
distinct-none none h n = absurd (ground arith)
distinct-none (some ns) {names} h n =
    ap (λ (l : List Text). some l) (distinct_names-nil ns (ground arith))

module _ (print : Value → Text) (workspace : ℕ) (name : Text) (c : Catalog) where
  pub referencing_workflows-nil :
      (prefix key : Text) {w : WorkflowRow} {definition : Value}
      → referencing_workflows print workspace prefix key name c ≡ some []
      → Memᴰ w c.workflows
      → w.workspace ≡ workspace
      → current_definition c.versions w ≡ some definition
      → any_step print prefix key name definition ≡ some false
  unfolding referencing_workflows
  referencing_workflows-nil prefix key h =
      naming-nil (any_step print prefix key name) workspace c.versions c.workflows (
        distinct-none (naming (any_step print prefix key name) workspace c.versions c.workflows) h
          refl)

  pub workflows_mentioning-nil :
      {w : WorkflowRow} {definition : Value}
      → workflows_mentioning print workspace name c ≡ some []
      → Memᴰ w c.workflows
      → w.workspace ≡ workspace
      → current_definition c.versions w ≡ some definition
      → mentions name (print definition) ≡ false
  unfolding workflows_mentioning
  workflows_mentioning-nil h m same current =
      let test = λ (d : Value). some (mentions name (print d)) in
      let all = naming test workspace c.versions c.workflows in
      ground (
        arith,
        naming-nil test workspace c.versions c.workflows (distinct-none all h refl) m same current,
      )
