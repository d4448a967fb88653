-- ===== src/Api/Triggers/Kept.antt =====
-- What the requests on triggers keep: configs that were checked, and paths that are unique.
use mathlib.Core.List.Memᴰ
use oarlock.Prelude.{
  ℕ, ◌≡◌, ◌≢◌, ◌≤◌, ◌<◌, inl, inr, refl, sym, ap, ◌∙◌, subst, Text, text_eq, text_eq_iff, codes,
  Bool, true, false, not, ◌&&◌, Option, none, some, List, [], Memᴰ, arith, ◌==◌, count_if,
  count_if_mono, if◌then◌else◌, Bool-cases, Option-cases, trim_space,
}
use oarlock.Prelude.Tables.{update-from, any_row-false}
use oarlock.Prelude.Counts.{count_if-update_same, count_if-none}
use oarlock.Prelude.Keys.{count_if-insert, count_if-update_one, single_eq}
use oarlock.Json.{Value}
use oarlock.Api.Triggers.Config.{
  normalized, schedule, hook, cron_config, hook_config, matches_path, decode_string, check_schedule,
  check_webhook, validate_trigger_config,
}
use oarlock.Api.Triggers.{
  TriggerRow, Triggers, owned, has_path, member_text, path_of, breaks_index, new_trigger,
  insert_trigger, set_trigger, write_trigger,
}

-- A config that its trigger's type allows: a cron expression that can be parsed, or a path that
-- matches the pattern.
pub data IsConfig (parses : Text → Bool) (type : Text) (config : Value) : Type 0 where
  cron :
      (expression : Text)
      → type ≡ schedule
      → config ≡ cron_config expression
      → expression ≢ []
      → parses expression ≡ true
      → IsConfig parses type config
  path :
      (p secret : Text)
      → type ≡ hook
      → config ≡ hook_config p secret
      → matches_path p ≡ true
      → IsConfig parses type config

normalized-inj : {a b : Value} → normalized a ≡ normalized b → a ≡ b
normalized-inj h = cc

abbrev pub trigger_by_id : ℕ → TriggerRow → Bool
trigger_by_id id t = t.id == id

module _ (parses : Text → Bool) where
  -- Configs are checked, ids are keys, and a path of a webhook is one in its workspace.
  pub record IsChecked (ts : Triggers) : Type 0 where
    pub checked : (t : TriggerRow) → Memᴰ t ts.rows → IsConfig parses t.type t.config
    pub drawn : (t : TriggerRow) → Memᴰ t ts.rows → t.id < ts.next_id
    pub single : (i : ℕ) → count_if (trigger_by_id i) ts.rows ≤ 1
    pub single_path : (w : ℕ) (p : Text) → count_if (has_path w p) ts.rows ≤ 1

  check_schedule-IsConfig :
      (type : Text) (raw : Value) {config : Value}
      → type ≡ schedule
      → check_schedule parses raw ≡ normalized config
      → IsConfig parses type config
  unfolding check_schedule
  check_schedule-IsConfig type raw {config} t h =
      elim (Option-cases (decode_string (codes "cron") raw)) [
        | inl e ↦ absurd (ground arith)
        | inr (s, e) ↦ elim (Bool-cases (text_eq (trim_space s) [])) [
          | inl f ↦ absurd (ground arith)
          | inr f ↦ elim (Bool-cases (parses (trim_space s))) [
            | inr g ↦ absurd (ground arith)
            | inl g ↦
                cron (trim_space s) t (sym (normalized-inj (rw (e, f, g, check_schedule) at h)))
                  (λ empty. absurd (ground (arith, text_eq_iff (trim_space s) []))) g
          ]
        ]
      ]

  check_webhook-IsConfig :
      (type : Text) (raw : Value) {config : Value}
      → type ≡ hook
      → check_webhook raw ≡ normalized config
      → IsConfig parses type config
  unfolding check_webhook
  check_webhook-IsConfig type raw t h = elim (Option-cases (decode_string (codes "path") raw)) [
    | inl e ↦ absurd (ground arith)
    | inr (p, e) ↦ elim (Option-cases (decode_string (codes "secret") raw)) [
      | inl f ↦ absurd (ground arith)
      | inr (s, f) ↦ elim (Bool-cases (matches_path (trim_space p))) [
        | inr g ↦ absurd (ground arith)
        | inl g ↦
            path (trim_space p) s t (sym (normalized-inj (rw (e, f, g, check_webhook) at h))) g
      ]
    ]
  ]

  pub validate_trigger_config-IsConfig :
      (type : Text) (raw : Option Value) {config : Value}
      → validate_trigger_config parses type raw ≡ normalized config
      → IsConfig parses type config
  unfolding validate_trigger_config
  validate_trigger_config-IsConfig type none h = absurd (ground arith)
  validate_trigger_config-IsConfig type (some raw) h = elim (Bool-cases (text_eq type schedule)) [
    | inl e ↦
        check_schedule-IsConfig type raw ((text_eq_iff type schedule).0 e)
          (rw (e, validate_trigger_config) at h)
    | inr e ↦ elim (Bool-cases (text_eq type hook)) [
      | inl f ↦
          check_webhook-IsConfig type raw ((text_eq_iff type hook).0 f)
            (rw (e, f, validate_trigger_config) at h)
      | inr f ↦ absurd (ground arith)
    ]
  ]

  has_path-parts :
      (w : ℕ) (p : Text) (t : TriggerRow)
      → has_path w p t ≡ true
      → (t.workspace ≡ w)
        × (text_eq t.type hook ≡ true)
        × (path_of (member_text (codes "path") t.config) ≡ p)
  unfolding has_path
  has_path-parts w p t h = elim (Option-cases (member_text (codes "path") t.config)) [
    | inl e ↦ absurd (ground arith)
    | inr (s, e) ↦ (ground arith, ground arith, rw e ((text_eq_iff s p).0 (ground arith)))
  ]

  -- Where the index holds, no other row has the path.
  path_is_free :
      (t : TriggerRow) (rows : List TriggerRow) (w : ℕ) (p : Text)
      → breaks_index t rows ≡ false
      → has_path w p t ≡ true
      → (x : TriggerRow) → Memᴰ x rows
      → (x.id == t.id) ≡ false
      → has_path w p x ≡ false
  unfolding breaks_index
  path_is_free t rows w p h k x m other =
      let (same, webhook, path') = has_path-parts w p t k in
      let free =
        any_row-false
          (λ (u : TriggerRow).
            has_path t.workspace (path_of (member_text (codes "path") t.config)) u
            && not (u.id == t.id))
          rows (ground arith) m in
      let free' =
        subst
          (λ n.
            (has_path n (path_of (member_text (codes "path") t.config)) x && not (x.id == t.id))
            ≡ false)
          same free in
      let free'' = subst (λ n. (has_path w n x && not (x.id == t.id)) ≡ false) path' free' in
      ground arith

  module _ (ts : Triggers) (s : IsChecked ts) where
    pub insert_trigger-IsChecked :
        (workspace workflow : ℕ) (type : Text) (config : Value) (enabled : Bool)
        → IsConfig parses type config
        → IsChecked (insert_trigger workspace workflow type config enabled ts).0
    unfolding insert_trigger
    insert_trigger-IsChecked workspace workflow type config enabled ok_config =
        let t = new_trigger ts.next_id workspace workflow type config enabled in
        elim (Bool-cases (breaks_index t ts.rows)) [
          | inl e ↦ rw (e, insert_trigger) s
          | inr e ↦
              rw (e, insert_trigger)
                (record {
                  checked = λ x m. elim (Memᴰ.cases_cons m) [
                    | inl q ↦
                        subst (λ (y : TriggerRow). IsConfig parses y.type y.config) (sym q)
                          ok_config
                    | inr m' ↦ s.checked x m'
                  ];
                  drawn = λ x m. elim (Memᴰ.cases_cons m) [
                    | inl q ↦ ground (arith, ap (λ (y : TriggerRow). y.id) q)
                    | inr m' ↦ let below = s.drawn x m' in omega arith
                  ];
                  single = λ i.
                      count_if-insert (trigger_by_id i) t ts.rows
                        (λ h.
                          count_if-none (trigger_by_id i) ts.rows
                            (λ x m. let below = s.drawn x m in ground arith))
                        (s.single i);
                  single_path = λ w p.
                      count_if-insert (has_path w p) t ts.rows
                        (λ h. count_if-none (has_path w p) ts.rows (λ x m.
                          let below = s.drawn x m in
                          path_is_free t ts.rows w p e h x m (ground arith)))
                        (s.single_path w p);
                })
        ]

    owned-id :
        (workspace id : ℕ) (x : TriggerRow) → owned id workspace x ≡ true → (x.id == id) ≡ true
    unfolding owned
    owned-id workspace id x h = ground arith

    module _ (t : TriggerRow) (workspace id : ℕ) (m : Memᴰ t ts.rows)
        (mine : owned id workspace t ≡ true) where
      -- No other row has the id.
      is_row : (x : TriggerRow) → Memᴰ x ts.rows → (x.id == id) ≡ true → x ≡ t
      is_row x n h =
          single_eq (trigger_by_id id) ts.rows (s.single id) n m h (owned-id workspace id t mine)

      other_id :
          (x : TriggerRow) → Memᴰ x ts.rows → owned id workspace x ≡ false → (x.id == t.id) ≡ false
      other_id x n h = elim (Bool-cases (x.id == t.id)) [
        | inr e ↦ e
        | inl e ↦
            let hit = owned-id workspace id t mine in
            let same = is_row x n (ground arith) in
            absurd (ground (arith, ap (owned id workspace) same))
      ]

      one_owned : count_if (owned id workspace) ts.rows ≤ 1
      one_owned =
          let fewer =
            count_if_mono (owned id workspace) (trigger_by_id id) (λ x h. owned-id workspace id x h)
              ts.rows in
          let one = s.single id in omega arith

      updated-IsConfig :
          (config : Option Value) (enabled : Option Bool)
          → IsConfig parses t.type (set_trigger config enabled t).config
          → (x y : TriggerRow) → Memᴰ y ts.rows
          → x ≡ (if owned id workspace y then set_trigger config enabled y else y)
          → IsConfig parses x.type x.config
      updated-IsConfig config enabled ok_config x y n q = elim (Bool-cases (owned id workspace y)) [
        | inr e ↦
            let same : x ≡ y = rw e at q in
            subst (λ (z : TriggerRow). IsConfig parses z.type z.config) (sym same) (s.checked y n)
        | inl e ↦
            let this : y ≡ t = is_row y n (owned-id workspace id y e) in
            let same : x ≡ set_trigger config enabled y = rw e at q in
            subst (λ (z : TriggerRow). IsConfig parses z.type z.config)
              (sym (same ∙ ap (set_trigger config enabled) this)) ok_config
      ]

      pub write_trigger-IsChecked :
          (config : Option Value) (enabled : Option Bool)
          → IsConfig parses t.type (set_trigger config enabled t).config
          → IsChecked (write_trigger t workspace id config enabled ts).0
      unfolding write_trigger
      write_trigger-IsChecked config enabled ok_config =
          let f = set_trigger config enabled in
          elim (Bool-cases (breaks_index (f t) ts.rows)) [
            | inl e ↦ rw (e, write_trigger) s
            | inr e ↦
                rw (e, write_trigger)
                  (record {
                    checked = λ x n.
                        let (y, n', q) = update-from (owned id workspace) f ts.rows n in
                        updated-IsConfig config enabled ok_config x y n' q;
                    drawn = λ x n.
                        let (y, n', q) = update-from (owned id workspace) f ts.rows n in
                        let below = s.drawn y n' in ground (arith, ap (λ (z : TriggerRow). z.id) q);
                    single = λ i.
                        let same =
                          count_if-update_same (trigger_by_id i) (owned id workspace) f ts.rows
                            (λ x k. refl) in
                        let one = s.single i in omega arith;
                    single_path = λ w p.
                        count_if-update_one (has_path w p) (owned id workspace) f ts.rows t
                          one_owned (s.single_path w p) m mine
                          (λ k x n o. path_is_free (f t) ts.rows w p e k x n (other_id x n o));
                  })
          ]
