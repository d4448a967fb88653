-- ===== src/Api/Workflows/Sound.antt =====
-- What the requests on workflows keep of the catalog.
use oarlock.Prelude.{
  ℕ, ◌≡◌, ◌≤◌, ◌<◌, refl, sym, ◌∙◌, ap, inl, inr, Text, text_eq, text_eq_iff, Bool, true, false,
  ◌&&◌, Option, none, some, List, ◌∷◌, Memᴰ, arith, ◌==◌, ==_iff, count_if, if◌then◌else◌,
  Bool-cases, Option-cases,
}
use oarlock.Prelude.Tables.{find, delete}
use oarlock.Prelude.Keys.{delete-kept}
use oarlock.Json.{Value}
use oarlock.Definition.{Definition}
use oarlock.Definition.Valid.{IsValid}
use oarlock.Definition.Valid.Whole.{validate-decides}
use oarlock.Api.Workflows.{
  WorkflowRow, VersionRow, Catalog, workflow_by_id, has_slug, numbered, new_version, point_at,
  version_id,
}
use oarlock.Api.Workflows.Requests.{set_row, validate_definition}

module _ (parse : Value → Option Definition) (has : Text → Bool) where
  -- A definition that can be parsed, and is valid.
  pub record IsSavable (raw : Value) : Type 0 where
    pub definition : Definition
    pub parsed : parse raw ≡ some definition
    pub valid : IsValid (some has) definition

  -- The current version of a workflow is a row, and one of its own.
  pub record HasCurrent (vs : List VersionRow) (w : WorkflowRow) : Type 0 where
    pub row : VersionRow
    pub stored : Memᴰ row vs
    pub current : w.current_version ≡ some row.id
    pub own : row.workflow ≡ w.id

  -- Every stored definition is valid, every workflow has a current version, and keys are keys.
  pub record IsSound (c : Catalog) : Type 0 where
    pub savable : (v : VersionRow) → Memᴰ v c.versions → IsSavable v.definition
    pub current : (w : WorkflowRow) → Memᴰ w c.workflows → HasCurrent c.versions w
    pub drawn_workflow : (w : WorkflowRow) → Memᴰ w c.workflows → w.id < c.next_id
    pub drawn_version :
        (v : VersionRow) → Memᴰ v c.versions → (v.id < c.next_id) × (v.workflow < c.next_id)
    pub single_workflow : (i : ℕ) → count_if (workflow_by_id i) c.workflows ≤ 1
    pub single_slug : (w : ℕ) (s : Text) → count_if (has_slug w s) c.workflows ≤ 1
    pub single_number : (w n : ℕ) → count_if (numbered w n) c.versions ≤ 1

  pub validate_definition-none :
      (raw : Value) → validate_definition parse has raw ≡ none → IsSavable raw
  unfolding validate_definition
  validate_definition-none raw h = elim (Option-cases (parse raw)) [
    | inl e ↦ absurd (ground arith)
    | inr (d, e) ↦ elim (validate-decides (some has) d) [
      | inl (r, v) ↦ record { definition = d; parsed = e; valid = v }
      | inr (i, r, _) ↦ absurd (ground arith)
    ]
  ]

  pub HasCurrent-later :
      (v : VersionRow) (vs : List VersionRow) (w : WorkflowRow)
      → HasCurrent vs w
      → HasCurrent (v ∷ vs) w
  HasCurrent-later v vs w h = record {
    row = h.row;
    stored = Memᴰ.tail h.stored;
    current = h.current;
    own = h.own;
  }

  -- An update of the name or of the flag leaves the current version.
  pub HasCurrent-set_row :
      (p : WorkflowRow → Bool) (name : Option Text) (enabled : Option Bool) (vs : List VersionRow)
      (w : WorkflowRow)
      → HasCurrent vs w
      → HasCurrent vs (if p w then set_row name enabled w else w)
  HasCurrent-set_row p name enabled vs w h = elim (Bool-cases (p w)) [
    | inl e ↦ rw e (record { row = h.row; stored = h.stored; current = h.current; own = h.own })
    | inr e ↦ rw e h
  ]

  -- The versions of another workflow go, its own stay.
  pub HasCurrent-delete :
      (id : ℕ) (vs : List VersionRow) (w : WorkflowRow)
      → (w.id == id) ≡ false
      → HasCurrent vs w
      → HasCurrent (delete (λ v. v.workflow == id) vs) w
  HasCurrent-delete id vs w other h = record {
    row = h.row;
    stored = delete-kept (λ v. v.workflow == id) vs h.stored (ap (λ n. n == id) h.own ∙ other);
    current = h.current;
    own = h.own;
  }

  -- The workflow points at its new version, any other at the one it had.
  pub HasCurrent-point_at :
      (id : ℕ) (v : VersionRow) (vs : List VersionRow) (w : WorkflowRow)
      → v.workflow ≡ id
      → HasCurrent vs w
      → HasCurrent (v ∷ vs) (if w.id == id then point_at (some v.id) w else w)
  HasCurrent-point_at id v vs w own h = elim (Bool-cases (w.id == id)) [
    | inl e ↦ rw e (record {
      row = v;
      stored = Memᴰ.head refl;
      current = refl;
      own = own ∙ sym ((==_iff w.id id).0 e);
    })
    | inr e ↦ rw e (HasCurrent-later v vs w h)
  ]

  pub slug_pair : (v w : ℕ) (s t : Text) → (v == w && text_eq s t) ≡ true → (v ≡ w) × (s ≡ t)
  slug_pair v w s t h = (ground arith, (text_eq_iff s t).0 (ground arith))

  pub found_new :
      (id number next : ℕ) (raw : Value) (vs : List VersionRow)
      → version_id (find (numbered id number) (new_version next id number raw ∷ vs)) ≡ some next
  unfolding find numbered
  found_new id number next raw vs = ground arith
