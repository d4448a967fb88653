-- ===== src/Api/Triggers/Handles.antt =====
-- Every request on triggers keeps the table of triggers.
use oarlock.Prelude.{
  ℕ, ◌≡◌, ◌⊎◌, inl, inr, refl, Text, Bool, true, Option, none, some, List, [], ◌∷◌, Memᴰ, arith,
  Bool-cases, Option-cases,
}
use oarlock.Prelude.Tables.{find, any_row, find-some}
use oarlock.Prelude.Counts.{count_if-delete_le, delete-Mem}
use oarlock.Json.{Value}
use oarlock.Api.Http.{Message}
use oarlock.Api.Triggers.Config.{Checked, normalized, refused, validate_trigger_config}
use oarlock.Api.Workflows.{Catalog}
use oarlock.Api.Workflows as Workflows
use oarlock.Api.Triggers.{
  TriggerRow, Triggers, owned, has_path, given, change_trigger, create_trigger, update_trigger,
  delete_trigger, or_true,
}
use oarlock.Api.Triggers.Kept.{
  IsChecked, trigger_by_id, validate_trigger_config-IsConfig, insert_trigger-IsChecked,
  write_trigger-IsChecked,
}

Checked-cases :
    (r : Checked) → ((v : Value) × (r ≡ normalized v)) ⊎ ((m : Message) × (r ≡ refused m))
Checked-cases (normalized v) = inl (v, refl)
Checked-cases (refused m) = inr (m, refl)

-- A request of a member of the workspace.
pub data Request : Type 0 where
  creates : Option ℕ → Option (Text × Option Value × Option Bool) → Request
  updates : Option ℕ → Option (Option Value × Option Bool) → Request
  -- With the triggers that have runs when it is handled.
  deletes : (ℕ → Bool) → Option ℕ → Request

module _ (parses : Text → Bool) where
  -- The requests come with the workflows that there are when they are handled.
  abbrev pub handle : ℕ → Catalog → Request → Triggers → Triggers
  handle w c (creates id body) ts = (create_trigger parses w id body c ts).0
  handle w c (updates id body) ts = (update_trigger parses w id body ts).0
  handle w c (deletes has_runs id) ts = (delete_trigger has_runs w id ts).0

  abbrev pub handle_all : List (ℕ × Catalog × Request) → Triggers → Triggers
  handle_all [] ts = ts
  handle_all ((w, c, r) ∷ rs) ts = handle_all rs (handle w c r ts)

  module _ (ts : Triggers) (s : IsChecked parses ts) where
    create_trigger-IsChecked :
        (w : ℕ) (id : Option ℕ) (body : Option (Text × Option Value × Option Bool)) (c : Catalog)
        → IsChecked parses (create_trigger parses w id body c ts).0
    unfolding create_trigger
    create_trigger-IsChecked w none body c = s
    create_trigger-IsChecked w (some id) none c = s
    create_trigger-IsChecked w (some id) (some (type, raw, enabled)) c =
        elim (Checked-cases (validate_trigger_config parses type raw)) [
          | inr (m, e) ↦ rw (e, create_trigger) s
          | inl (config, e) ↦ elim (Bool-cases (any_row (Workflows.owned id w) c.workflows)) [
            | inr f ↦ rw (e, f, create_trigger) s
            | inl f ↦
                rw (e, f, create_trigger)
                  (insert_trigger-IsChecked parses ts s w id type config (or_true enabled)
                    (validate_trigger_config-IsConfig parses type raw e))
          ]
        ]

    change_trigger-IsChecked :
        (t : TriggerRow) (w id : ℕ) (raw : Option Value) (enabled : Option Bool)
        → Memᴰ t ts.rows
        → owned id w t ≡ true
        → IsChecked parses (change_trigger parses t w id raw enabled ts).0
    unfolding change_trigger
    change_trigger-IsChecked t w id none enabled m mine =
        write_trigger-IsChecked parses ts s t w id m mine none enabled (s.checked t m)
    change_trigger-IsChecked t w id (some raw) enabled m mine =
        elim (Checked-cases (validate_trigger_config parses t.type (some raw))) [
          | inr (e, f) ↦ rw (f, change_trigger) s
          | inl (config, f) ↦
              rw (f, change_trigger)
                (write_trigger-IsChecked parses ts s t w id m mine (some config) enabled
                  (validate_trigger_config-IsConfig parses t.type (some raw) f))
        ]

    update_trigger-IsChecked :
        (w : ℕ) (id : Option ℕ) (body : Option (Option Value × Option Bool))
        → IsChecked parses (update_trigger parses w id body ts).0
    unfolding update_trigger
    update_trigger-IsChecked w none body = s
    update_trigger-IsChecked w (some id) none = s
    update_trigger-IsChecked w (some id) (some (raw, enabled)) =
        elim (Option-cases (find (owned id w) ts.rows)) [
          | inl e ↦ rw (e, update_trigger) s
          | inr (t, e) ↦
              let (m, mine) = find-some (owned id w) ts.rows e in
              rw (e, update_trigger) (change_trigger-IsChecked t w id (given raw) enabled m mine)
        ]

    delete_trigger-IsChecked :
        (has_runs : ℕ → Bool) (w : ℕ) (id : Option ℕ)
        → IsChecked parses (delete_trigger has_runs w id ts).0
    unfolding delete_trigger
    delete_trigger-IsChecked has_runs w none = s
    delete_trigger-IsChecked has_runs w (some id) =
        elim (Bool-cases (any_row (owned id w) ts.rows)) [
          | inr e ↦ rw (e, delete_trigger) s
          | inl e ↦ elim (Bool-cases (has_runs id)) [
            | inl k ↦ rw (e, k, delete_trigger) s
            | inr k ↦
                rw (e, k, delete_trigger)
                  (record {
                    checked = λ t m. s.checked t (delete-Mem _ ts.rows m);
                    drawn = λ t m. s.drawn t (delete-Mem _ ts.rows m);
                    single = λ i.
                        let fewer = count_if-delete_le (trigger_by_id i) (owned id w) ts.rows in
                        let one = s.single i in omega arith;
                    single_path = λ v p.
                        let fewer = count_if-delete_le (has_path v p) (owned id w) ts.rows in
                        let one = s.single_path v p in omega arith;
                  })
          ]
        ]

  handle-IsChecked :
      (w : ℕ) (c : Catalog) (r : Request) (ts : Triggers)
      → IsChecked parses ts
      → IsChecked parses (handle w c r ts)
  handle-IsChecked w c (creates id body) ts s = create_trigger-IsChecked ts s w id body c
  handle-IsChecked w c (updates id body) ts s = update_trigger-IsChecked ts s w id body
  handle-IsChecked w c (deletes has_runs id) ts s = delete_trigger-IsChecked ts s has_runs w id

  -- After any requests that create, update and delete triggers, in any workspaces and whatever the
  -- workflows are, a table that was in order is in order: the config of every schedule is a cron expression that can
  -- be parsed, the config of every webhook a path that matches the pattern, ids are unique, and of the
  -- webhooks of a workspace at most one has a path.
  pub handle_all-IsChecked :
      (rs : List (ℕ × Catalog × Request)) (ts : Triggers)
      → IsChecked parses ts
      → IsChecked parses (handle_all rs ts)
  handle_all-IsChecked [] ts s = s
  handle_all-IsChecked ((w, c, r) ∷ rs) ts s =
      handle_all-IsChecked rs (handle w c r ts) (handle-IsChecked w c r ts s)
