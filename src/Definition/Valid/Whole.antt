-- ===== src/Definition/Valid/Whole.antt =====
-- `Validate` accepts exactly the valid definitions, and on every other returns an error: it neither
-- panics nor loops.
use mathlib.Core.List.Memᴰ
use oarlock.Prelude.{
  some, ◌≡◌, refl, sym, ◌⊎◌, ◌↔◌, inl, inr, Text, text_eq, text_eq_iff, contains, contains→Mem,
  Mem→contains, Bool, true, false, Option, List, [], Memᴰ, Bool-cases,
}
use oarlock.Definition.{Step, Definition, step, cycle, validate}
use oarlock.Definition.Graph.{Grounded, Upstream, direct, further, Grounded-acyclic, find_step-Mem}
use oarlock.Definition.Painting.{IsKnown, NeedsKnown}
use oarlock.Definition.Acyclic.{keys-IsKnown, check_acyclic-decides}
use oarlock.Definition.Valid.{keys_of, IsValid, Decides}
use oarlock.Definition.Valid.Loops.{seen_after, check_steps-decides, AllNeeds, check_needs-decides}
use oarlock.Definition.Valid.Keys.{
  AllValid-of, AllValid-at, Fresh-of, Fresh-at, seen_after-Mem, NeedsOf-of, NeedsOf-at, AllNeeds-of,
  AllNeeds-at, find_step-Distinct,
}

Upstream-IsKnown : {d : Definition} {k n : Text} → Upstream d k n → IsKnown d k
Upstream-IsKnown (direct (s, e, m)) = (s, e)
Upstream-IsKnown (further u x) = Upstream-IsKnown u

module _ (known : Option (Text → Bool)) (d : Definition) where
  all_keys : List Text
  all_keys = seen_after [] d.steps

  all_keys-contains : (n : Text) → (contains all_keys n ≡ true) ↔ Memᴰ n (keys_of d.steps)
  unfolding all_keys
  all_keys-contains n = (
    λ h. elim ((seen_after-Mem [] d.steps n).0 (contains→Mem _ n h)) [
      | inl m ↦ elim m [ ]
      | inr m ↦ m
    ],
    λ m. Mem→contains _ n ((seen_after-Mem [] d.steps n).1 (inr m)),
  )

  IsValid-AllNeeds : IsValid known d → AllNeeds all_keys d.steps
  unfolding step
  IsValid-AllNeeds v = AllNeeds-of all_keys d.steps λ s m. NeedsOf-of all_keys s.key s.needs λ n x.
      (
        (all_keys-contains n).1 (v.needs_known s n m x),
        other s n m x (Bool-cases (text_eq n s.key)),
      )
    where
      other :
          (s : Step) (n : Text)
          → Memᴰ s d.steps
          → Memᴰ n s.needs
          → (text_eq n s.key ≡ true) ⊎ (text_eq n s.key ≡ false)
          → text_eq n s.key ≡ false
      other s n m x (inr e) = e
      other s n m x (inl e) = absurd (
          v.acyclic s.key (
            direct (
              s,
              find_step-Distinct d.steps s v.distinct m,
              Memᴰ.cast (sym ((text_eq_iff n s.key).0 e)) x,
            )))

  AllNeeds-known :
      AllNeeds all_keys d.steps
      → (s : Step) (n : Text) → Memᴰ s d.steps
      → Memᴰ n s.needs
      → Memᴰ n (keys_of d.steps)
  AllNeeds-known a s n m x =
      (all_keys-contains n).0
        (NeedsOf-at all_keys s.key s.needs (AllNeeds-at all_keys d.steps a s m) n x)

  AllNeeds-NeedsKnown : AllNeeds all_keys d.steps → NeedsKnown d
  unfolding step
  AllNeeds-NeedsKnown a k n (s, e, x) =
      keys-IsKnown d n (AllNeeds-known a s n (find_step-Mem d.steps k e) x)

  -- `Validate` returns nil exactly on the definitions that are valid, and an error on the others.
  pub validate-decides : Decides (validate known d) tt (IsValid known d)
  unfolding validate all_keys contains
  validate-decides = elim (check_steps-decides known d.steps []) [
    | inr (e, q, no') ↦ inr (
      e,
      rw q,
      λ v.
          no'
            (AllValid-of known d.steps v.steps_valid, Fresh-of [] d.steps v.distinct (λ k m. refl)),
    )
    | inl (q, (vs, fs)) ↦ elim (check_needs-decides all_keys d.steps) [
      | inr (e, q', no') ↦ inr (e, rw (q, q'), λ v. no' (IsValid-AllNeeds v))
      | inl (q', ns) ↦ elim (check_acyclic-decides d (AllNeeds-NeedsKnown ns)) [
        | inr (x, q'', u) ↦ inr (cycle x, rw (q, q') q'', λ v. v.acyclic x u)
        | inl (q'', g) ↦ inl (
          rw (q, q') q'',
          record {
            steps_valid = AllValid-at known d.steps vs;
            distinct = (Fresh-at [] d.steps fs).0;
            needs_known = AllNeeds-known ns;
            acyclic = λ k u. Grounded-acyclic (g k (Upstream-IsKnown u)) u;
          },
        )
      ]
    ]
  ]

-- What the engine uses of a valid definition.
pub IsValid-NeedsKnown :
    {known : Option (Text → Bool)} {d : Definition} → IsValid known d → NeedsKnown d
unfolding step
IsValid-NeedsKnown {d = d} v k n (s, e, x) =
    keys-IsKnown d n (v.needs_known s n (find_step-Mem d.steps k e) x)

pub IsValid-Grounded :
    {known : Option (Text → Bool)} {d : Definition}
    → IsValid known d
    → (k : Text) → IsKnown d k
    → Grounded d k
IsValid-Grounded {d = d} v k at = elim (check_acyclic-decides d (IsValid-NeedsKnown v)) [
  | inl (e, g) ↦ g k at
  | inr (x, e, u) ↦ absurd (v.acyclic x u)
]

pub IsValid-step :
    {known : Option (Text → Bool)} {d : Definition}
    → IsValid known d
    → (s : Step) → Memᴰ s d.steps
    → step d s.key ≡ some s
unfolding step
IsValid-step {d = d} v s m = find_step-Distinct d.steps s v.distinct m
