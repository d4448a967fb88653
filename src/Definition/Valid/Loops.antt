-- ===== src/Definition/Valid/Loops.antt =====
-- Each loop of `Validate` decides its part of the specification.
use oarlock.Prelude.{
  ℕ, ◌≡◌, refl, subst, inl, inr, Text, text_eq, text_eq_iff, contains, Bool, true, false, Option,
  none, some, List, [], ◌∷◌, arith, Bool-cases,
}
use oarlock.Prelude.Int.{ℤ, pos, negsuc}
use oarlock.Definition.{
  Step, empty_key, duplicate_key, no_type, unknown_type, bad_retries, bad_timeout, unknown_need,
  self_need, require, type_known, check_step, check_steps, in_range, check_step_needs, check_needs,
}
use oarlock.Definition.Valid.{InRange, StepValid, Decides}

pub in_range-true : (z : ℤ) (bound : ℕ) → in_range z bound ≡ true → InRange z bound
unfolding in_range
in_range-true (pos n) bound h = (n, refl, ground arith)
in_range-true (negsuc n) bound h = absurd (ground arith)

pub in_range-false : (z : ℤ) (bound : ℕ) → in_range z bound ≡ false → ¬ InRange z bound
unfolding in_range
in_range-false (pos n) bound h (m, e, l) = ground arith
in_range-false (negsuc n) bound h (m, e, l) = ground arith

pub type_known-true :
    (known : Option (Text → Bool)) (t : Text)
    → type_known known t ≡ true
    → (accepts : Text → Bool) → known ≡ some accepts
    → accepts t ≡ true
unfolding type_known
type_known-true none t h accepts e = absurd (ground arith)
type_known-true (some f) t h accepts e =
    subst (λ (o : Option (Text → Bool)). type_known o t ≡ true) e h

pub type_known-false :
    (known : Option (Text → Bool)) (t : Text)
    → type_known known t ≡ false
    → ¬ ((accepts : Text → Bool) → known ≡ some accepts → accepts t ≡ true)
unfolding type_known
type_known-false none t h all = ground arith
type_known-false (some f) t h all = ground (arith, all f refl)

-- The keys of these steps differ from one another and from those seen.
abbrev pub Fresh : List Text → List Step → Type 0
Fresh keys [] = Unit
Fresh keys (s ∷ ss) = (contains keys s.key ≡ false) × Fresh (s.key ∷ keys) ss

abbrev pub AllValid : Option (Text → Bool) → List Step → Type 0
AllValid known [] = Unit
AllValid known (s ∷ ss) = StepValid known s × AllValid known ss

pub check_step-decides :
    (known : Option (Text → Bool)) (keys : List Text) (s : Step)
    → Decides (check_step known keys s) tt (StepValid known s × (contains keys s.key ≡ false))
unfolding check_step
check_step-decides known keys s = elim (Bool-cases (text_eq s.key [])) [
  | inl e ↦ inr (empty_key, rw e, λ (v, _). v.has_key ((text_eq_iff _ _).0 e))
  | inr named ↦ elim (Bool-cases (contains keys s.key)) [
    | inl e ↦ inr (duplicate_key s.key, rw (named, e), λ (_, f). ground arith)
    | inr fresh ↦ elim (Bool-cases (text_eq s.type [])) [
      | inl e ↦
          inr (no_type s.key, rw (named, fresh, e), λ (v, _). v.has_type ((text_eq_iff _ _).0 e))
      | inr typed ↦ elim (Bool-cases (type_known known s.type)) [
        | inr e ↦ inr (
          unknown_type s.key s.type,
          rw (named, fresh, typed, e),
          λ (v, _). type_known-false known s.type e v.is_known,
        )
        | inl accepted ↦ elim (Bool-cases (in_range s.retries 10)) [
          | inr e ↦ inr (
            bad_retries s.key,
            rw (named, fresh, typed, accepted, e),
            λ (v, _). in_range-false _ _ e v.retries_bound,
          )
          | inl tries ↦ elim (Bool-cases (in_range s.timeout 600)) [
            | inr e ↦ inr (
              bad_timeout s.key,
              rw (named, fresh, typed, accepted, tries, e),
              λ (v, _). in_range-false _ _ e v.timeout_bound,
            )
            | inl time ↦ inl (
              rw (named, fresh, typed, accepted, tries, time),
              (
                record {
                  has_key = λ q. ground (arith, text_eq_iff s.key []);
                  has_type = λ q. ground (arith, text_eq_iff s.type []);
                  is_known = type_known-true known s.type accepted;
                  retries_bound = in_range-true _ _ tries;
                  timeout_bound = in_range-true _ _ time;
                },
                fresh,
              ),
            )
          ]
        ]
      ]
    ]
  ]
]

-- The loop's result, when it is not an error: the keys of all the steps, the last one first.
abbrev pub seen_after : List Text → List Step → List Text
seen_after keys [] = keys
seen_after keys (s ∷ ss) = seen_after (s.key ∷ keys) ss

pub check_steps-decides :
    (known : Option (Text → Bool)) (ss : List Step) (keys : List Text)
    → Decides (check_steps known ss keys) (seen_after keys ss) (AllValid known ss × Fresh keys ss)
unfolding check_steps
check_steps-decides known [] keys = inl (refl, (tt, tt))
check_steps-decides known (s ∷ ss) keys = elim (check_step-decides known keys s) [
  | inr (e, q, no') ↦ inr (e, rw q, λ (v, f). no' (v.0, f.0))
  | inl (q, (v, f)) ↦ elim (check_steps-decides known ss (s.key ∷ keys)) [
    | inl (q', (vs, fs)) ↦ inl (rw q q', ((v, vs), (f, fs)))
    | inr (e, q', no') ↦ inr (e, rw q q', λ (vs, fs). no' (vs.1, fs.1))
  ]
]

-- The needs of one step: they are among the keys, and none is the step itself.
abbrev pub NeedsOf : List Text → Text → List Text → Type 0
NeedsOf keys key [] = Unit
NeedsOf keys key (n ∷ ns) = (contains keys n ≡ true) × (text_eq n key ≡ false) × NeedsOf keys key ns

pub check_step_needs-decides :
    (keys : List Text) (key : Text) (ns : List Text)
    → Decides (check_step_needs keys key ns) tt (NeedsOf keys key ns)
unfolding check_step_needs require
check_step_needs-decides keys key [] = inl (refl, tt)
check_step_needs-decides keys key (n ∷ ns) = elim (Bool-cases (contains keys n)) [
  | inr e ↦ inr (unknown_need key n, rw e, λ h. ground arith)
  | inl known ↦ elim (Bool-cases (text_eq n key)) [
    | inl e ↦ inr (self_need key n, rw (known, e), λ h. ground arith)
    | inr other ↦ elim (check_step_needs-decides keys key ns) [
      | inl (q, p) ↦ inl (rw (known, other) q, (known, other, p))
      | inr (e, q, no') ↦ inr (e, rw (known, other) q, λ h. no' h.2)
    ]
  ]
]

abbrev pub AllNeeds : List Text → List Step → Type 0
AllNeeds keys [] = Unit
AllNeeds keys (s ∷ ss) = NeedsOf keys s.key s.needs × AllNeeds keys ss

pub check_needs-decides :
    (keys : List Text) (ss : List Step) → Decides (check_needs keys ss) tt (AllNeeds keys ss)
unfolding check_needs
check_needs-decides keys [] = inl (refl, tt)
check_needs-decides keys (s ∷ ss) = elim (check_step_needs-decides keys s.key s.needs) [
  | inr (e, q, no') ↦ inr (e, rw q, λ h. no' h.0)
  | inl (q, p) ↦ elim (check_needs-decides keys ss) [
    | inl (q', p') ↦ inl (rw q q', (p, p'))
    | inr (e, q', no') ↦ inr (e, rw q q', λ h. no' h.1)
  ]
]
