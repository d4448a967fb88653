-- ===== src/Api/Workflows/Keeps.antt =====
-- What the writes of the requests on workflows keep: each leaves a sound catalog.
use mathlib.Core.List.Memᴰ
use oarlock.Prelude.{
  ℕ, suc, ◌≡◌, ◌≤◌, ◌<◌, refl, sym, subst, ap, inl, inr, Text, text_eq, Bool, true, false, ◌&&◌,
  Option, some, List, [], ◌∷◌, Memᴰ, arith, ◌==◌, count_if, if◌then◌else◌, Bool-cases, Option-cases,
}
use oarlock.Prelude.Tables.{find, update, delete, any_row, update-from, any_row-false}
use oarlock.Prelude.Counts.{count_if-update_same, count_if-delete_le, count_if-none, delete-Mem}
use oarlock.Prelude.Keys.{count_if-insert, single_eq, delete-away}
use oarlock.Json.{Value}
use oarlock.Definition.{Definition}
use oarlock.Api.Http.{slugify}
use oarlock.Api.Workflows.{
  WorkflowRow, VersionRow, Catalog, owned, workflow_by_id, has_slug, numbered, max_version,
  new_workflow, new_version, point_at, insert_workflow, insert_version,
}
use oarlock.Api.Workflows.Requests.{set_row, write_workflow, remove_workflow}
use oarlock.Api.Workflows.Sound.{
  IsSavable, HasCurrent, IsSound, HasCurrent-later, HasCurrent-set_row, HasCurrent-delete,
  HasCurrent-point_at, found_new, slug_pair,
}

module _ (parse : Value → Option Definition) (has : Text → Bool) where
  module _ (c : Catalog) (s : IsSound parse has c) where
    one_slug :
        (workspace : ℕ) (name : Text)
        → any_row (has_slug workspace (slugify name)) c.workflows ≡ false
        → (w : ℕ) (t : Text) → (workspace == w && text_eq (slugify name) t) ≡ true
        → count_if (has_slug w t) c.workflows ≡ 0
    one_slug workspace name fresh w t h =
        let (same, slug) = slug_pair parse has workspace w (slugify name) t h in
        subst (λ n. count_if (has_slug n t) c.workflows ≡ 0) same
          (subst (λ n. count_if (has_slug workspace n) c.workflows ≡ 0) slug
            (count_if-none (has_slug workspace (slugify name)) c.workflows
              (λ x m. any_row-false _ c.workflows fresh m)))

    undrawn_workflow : (i : ℕ) → c.next_id ≤ i → count_if (workflow_by_id i) c.workflows ≡ 0
    undrawn_workflow i h =
        count_if-none (workflow_by_id i) c.workflows
          (λ x m. let below = s.drawn_workflow x m in ground arith)

    undrawn_number : (w n : ℕ) → c.next_id ≤ w → count_if (numbered w n) c.versions ≡ 0
    unfolding numbered
    undrawn_number w n h =
        count_if-none (numbered w n) c.versions
          (λ x m. let below = (s.drawn_version x m).1 in ground arith)

    pub insert_workflow-IsSound :
        (workspace : ℕ) (name : Text) (raw : Value)
        → IsSavable parse has raw
        → any_row (has_slug workspace (slugify name)) c.workflows ≡ false
        → IsSound parse has (insert_workflow workspace name raw c)
    unfolding insert_workflow has_slug numbered
    insert_workflow-IsSound workspace name raw v fresh = record {
      savable = λ x m. elim (Memᴰ.cases_cons m) [
        | inl e ↦ subst (λ (y : VersionRow). IsSavable parse has y.definition) (sym e) v
        | inr m' ↦ s.savable x m'
      ];
      current = λ w m. elim (Memᴰ.cases_cons m) [
        | inl e ↦ record {
          row = _;
          stored = Memᴰ.head refl;
          current = ap (λ (y : WorkflowRow). y.current_version) e;
          own = sym (ap (λ (y : WorkflowRow). y.id) e);
        }
        | inr m' ↦ HasCurrent-later parse has _ c.versions w (s.current w m')
      ];
      drawn_workflow = λ w m. elim (Memᴰ.cases_cons m) [
        | inl e ↦ ground (arith, ap (λ (y : WorkflowRow). y.id) e)
        | inr m' ↦ let below = s.drawn_workflow w m' in omega arith
      ];
      drawn_version = λ x m. elim (Memᴰ.cases_cons m) [
        | inl e ↦ (
          ground (arith, ap (λ (y : VersionRow). y.id) e),
          ground (arith, ap (λ (y : VersionRow). y.workflow) e),
        )
        | inr m' ↦ let (below, below') = s.drawn_version x m' in (omega arith, omega arith)
      ];
      single_workflow = λ i.
          count_if-insert (workflow_by_id i) (new_workflow workspace name c) c.workflows
            (λ h. undrawn_workflow i (ground arith)) (s.single_workflow i);
      single_slug = λ w t.
          count_if-insert (has_slug w t) (new_workflow workspace name c) c.workflows
            (λ h. one_slug workspace name fresh w t h) (s.single_slug w t);
      single_number = λ w n.
          count_if-insert (numbered w n) (new_version (suc c.next_id) c.next_id 1 raw) c.versions
            (λ h. undrawn_number w n (ground arith)) (s.single_number w n);
    }

    -- An update that keeps ids, workspaces and slugs, and after which a current version is a row.
    update-IsSound :
        (p : WorkflowRow → Bool) (f : WorkflowRow → WorkflowRow) (vs : List VersionRow) (next : ℕ)
        → c.next_id ≤ next
        → ((w : WorkflowRow) → (f w).id ≡ w.id)
        → ((w : WorkflowRow) (i : ℕ) (t : Text) → has_slug i t (f w) ≡ has_slug i t w)
        → ((v : VersionRow) → Memᴰ v vs → IsSavable parse has v.definition)
        → ((w : WorkflowRow)
            → Memᴰ w c.workflows
            → HasCurrent parse has vs (if p w then f w else w))
        → ((v : VersionRow) → Memᴰ v vs → (v.id < next) × (v.workflow < next))
        → ((w n : ℕ) → count_if (numbered w n) vs ≤ 1)
        → IsSound parse has
            (record { workflows = update p f c.workflows; versions = vs; next_id = next })
    update-IsSound p f vs next grows ids slugs savable current drawn numbers = record {
      savable = savable;
      current = λ w m.
          let (x, m', e) = update-from p f c.workflows m in
          subst (HasCurrent parse has vs) (sym e) (current x m');
      drawn_workflow = λ w m.
          let (x, m', e) = update-from p f c.workflows m in
          let below = s.drawn_workflow x m' in
          ground (arith, ap (λ (y : WorkflowRow). y.id) e, ids x);
      drawn_version = drawn;
      single_workflow = λ i.
          let same =
            count_if-update_same (workflow_by_id i) p f c.workflows
              (λ x q. ap (λ n. n == i) (ids x)) in
          let one = s.single_workflow i in omega arith;
      single_slug = λ w t.
          let same = count_if-update_same (has_slug w t) p f c.workflows (λ x q. slugs x w t) in
          let one = s.single_slug w t in omega arith;
      single_number = numbers;
    }

    pub write_workflow-IsSound :
        (workspace id : ℕ) (name : Option Text) (enabled : Option Bool)
        → IsSound parse has (write_workflow workspace id name enabled c).0
    unfolding write_workflow has_slug
    write_workflow-IsSound workspace id name enabled =
        elim (Option-cases (find (owned id workspace) c.workflows)) [
          | inl e ↦ rw (e, write_workflow) s
          | inr (w, e) ↦
              rw (e, write_workflow)
                (update-IsSound (owned id workspace) (set_row name enabled) c.versions c.next_id
                  (omega arith) (λ x. refl) (λ x i t. refl) s.savable
                  (λ x m.
                    HasCurrent-set_row parse has (owned id workspace) name enabled c.versions x
                      (s.current x m))
                  s.drawn_version s.single_number)
        ]

    -- A workflow that a delete leaves has another id.
    elsewhere :
        (workspace id : ℕ) {w x : WorkflowRow}
        → Memᴰ w c.workflows
        → owned id workspace w ≡ true
        → Memᴰ x (delete (owned id workspace) c.workflows)
        → (x.id == id) ≡ false
    unfolding owned
    elsewhere workspace id {w} {x} m h n = elim (Bool-cases (x.id == id)) [
      | inr e ↦ e
      | inl e ↦
          let away = delete-away (owned id workspace) c.workflows n in
          let same : x ≡ w =
            single_eq (workflow_by_id id) c.workflows (s.single_workflow id)
              (delete-Mem _ c.workflows n) m e (ground arith) in
          absurd (ground (arith, ap (owned id workspace) same))
    ]

    pub remove_workflow-IsSound :
        (workspace id : ℕ) {w : WorkflowRow}
        → Memᴰ w c.workflows
        → owned id workspace w ≡ true
        → IsSound parse has (remove_workflow workspace id c)
    unfolding remove_workflow
    remove_workflow-IsSound workspace id m h = record {
      savable = λ v n. s.savable v (delete-Mem _ c.versions n);
      current = λ x n.
          HasCurrent-delete parse has id c.versions x (elsewhere workspace id m h n)
            (s.current x (delete-Mem _ c.workflows n));
      drawn_workflow = λ x n. s.drawn_workflow x (delete-Mem _ c.workflows n);
      drawn_version = λ v n. s.drawn_version v (delete-Mem _ c.versions n);
      single_workflow = λ i.
          let fewer = count_if-delete_le (workflow_by_id i) (owned id workspace) c.workflows in
          let one = s.single_workflow i in omega arith;
      single_slug = λ u t.
          let fewer = count_if-delete_le (has_slug u t) (owned id workspace) c.workflows in
          let one = s.single_slug u t in omega arith;
      single_number = λ u n.
          let fewer = count_if-delete_le (numbered u n) (λ v. v.workflow == id) c.versions in
          let one = s.single_number u n in omega arith;
    }

    pub max_version-le :
        (id : ℕ) (vs : List VersionRow) {v : VersionRow}
        → Memᴰ v vs
        → numbered id v.version v ≡ true
        → v.version ≤ max_version id vs
    unfolding max_version numbered
    max_version-le id [] m h = elim m [ ]
    max_version-le id (x ∷ vs) {v} (Memᴰ.head e) h =
        ground (arith, ap (λ (y : VersionRow). y.version) e, ap (λ (y : VersionRow). y.workflow) e)
    max_version-le id (x ∷ vs) (Memᴰ.tail m) h = ground (arith, max_version-le id vs m h)

    -- The number after the last is free.
    numbered-new :
        (id : ℕ) (raw : Value) (w n : ℕ)
        → count_if
            (numbered w n)
            (new_version c.next_id id (suc (max_version id c.versions)) raw ∷ c.versions)
          ≤ 1
    unfolding numbered
    numbered-new id raw w n =
        count_if-insert (numbered w n)
          (new_version c.next_id id (suc (max_version id c.versions)) raw) c.versions
          (λ h. count_if-none (numbered w n) c.versions (λ x m. elim (Bool-cases (numbered w n x)) [
            | inr e ↦ e
            | inl e ↦ absurd (ground (arith, max_version-le id c.versions m (ground arith)))
          ]))
          (s.single_number w n)

    pub insert_version-IsSound :
        (id : ℕ) (raw : Value) {w : WorkflowRow}
        → IsSavable parse has raw
        → Memᴰ w c.workflows
        → w.id ≡ id
        → IsSound parse has (insert_version id (suc (max_version id c.versions)) raw c)
    unfolding insert_version has_slug
    insert_version-IsSound id raw {w} v m own =
        let number = suc (max_version id c.versions) in
        let new = new_version c.next_id id number raw in
        let below = s.drawn_workflow w m in
        rw (found_new parse has id number c.next_id raw c.versions) (
          update-IsSound (workflow_by_id id) (point_at (some c.next_id)) (new ∷ c.versions)
            (suc c.next_id) (omega arith) (λ x. refl) (λ x i t. refl)
            (λ x n. elim (Memᴰ.cases_cons n) [
              | inl e ↦ subst (λ (y : VersionRow). IsSavable parse has y.definition) (sym e) v
              | inr n' ↦ s.savable x n'
            ])
            (λ x n. HasCurrent-point_at parse has id new c.versions x refl (s.current x n))
            (λ x n. elim (Memᴰ.cases_cons n) [
              | inl e ↦ (
                ground (arith, ap (λ (y : VersionRow). y.id) e),
                ground (arith, ap (λ (y : VersionRow). y.workflow) e),
              )
              | inr n' ↦ let (b, b') = s.drawn_version x n' in (omega arith, omega arith)
            ])
            (λ w n. numbered-new id raw w n))
