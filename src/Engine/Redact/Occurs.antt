-- ===== src/Engine/Redact/Occurs.antt =====
-- Where a text stands in another, and why an occurrence cannot meet the mark.
use oarlock.Prelude.{
  ℕ, ◌≡◌, ◌≤◌, refl, ◌⊎◌, inl, inr, Text, codes, Bool, true, false, not, ◌&&◌, ◌||◌, [], ◌∷◌, ◌++◌,
  arith, ◌==◌, length, is_prefix, Bool-cases,
}
use oarlock.Engine.Redact.{redacted_mark}

-- The text stands somewhere in the other.
unfoldable pub occurs : Text → Text → Bool
unfolding is_prefix
occurs v [] = is_prefix v []
occurs v (c ∷ cs) = is_prefix v (c ∷ cs) || occurs v cs

-- Neither bracket of the mark is in the text.
unfoldable pub bracket_free : Text → Bool
bracket_free [] = true
bracket_free (a ∷ v) = not (a == b'[') && (not (a == b']') && bracket_free v)

-- The mark cannot be part of an occurrence: the text is not empty, has no bracket of the mark, and
-- does not stand between the two.
pub record Telling (v : Text) : Type 0 where
  pub some_byte : 1 ≤ length v
  pub no_bracket : bracket_free v ≡ true
  pub not_marked : occurs v (codes "redacted") ≡ false

prefix-before :
    (v u t : Text)
    → bracket_free v ≡ true
    → is_prefix v (u ++ b']' ∷ t) ≡ true
    → is_prefix v u ≡ true
unfolding is_prefix bracket_free
prefix-before [] u t f h = refl
prefix-before (a ∷ v) [] t f h = absurd (ground arith)
prefix-before (a ∷ v) (c ∷ u) t f h = ground (arith, prefix-before v u t)

occurs-around :
    (v u t : Text)
    → Telling v
    → occurs v (u ++ b']' ∷ t) ≡ true
    → (occurs v u ≡ true) ⊎ (occurs v t ≡ true)
unfolding occurs
occurs-around v [] t k h = elim (Bool-cases (is_prefix v (b']' ∷ t))) [
  | inl e ↦ inl (prefix-before v [] t k.no_bracket e)
  | inr e ↦ inr (ground arith)
]
occurs-around v (c ∷ u) t k h = elim (Bool-cases (is_prefix v (c ∷ (u ++ b']' ∷ t)))) [
  | inl e ↦ let before = prefix-before v (c ∷ u) t k.no_bracket e in inl (ground arith)
  | inr e ↦ elim (occurs-around v u t k (ground arith)) [
    | inl f ↦ inl (ground arith)
    | inr g ↦ inr g
  ]
]

pub bracket-first : (v t : Text) → Telling v → is_prefix v (b'[' ∷ t) ≡ false
unfolding is_prefix bracket_free
bracket-first [] t k = absurd (let h = k.some_byte in omega arith)
bracket-first (a ∷ v) t k = ground (arith, k.no_bracket)

-- What stands in a text after the mark stands in the text.
pub occurs-mark :
    (v t : Text) → Telling v → occurs v (redacted_mark ++ t) ≡ true → occurs v t ≡ true
unfolding occurs
occurs-mark v t k h =
    let first = bracket-first v (codes "redacted]" ++ t) k in
    elim (occurs-around v (codes "redacted") t k (ground arith)) [
      | inl e ↦ absurd (ground (arith, k.not_marked))
      | inr e ↦ e
    ]

pub occurs-cons :
    (v : Text) (c : ℕ) (s : Text)
    → occurs v (c ∷ s) ≡ true
    → (is_prefix v (c ∷ s) ≡ true) ⊎ (occurs v s ≡ true)
unfolding occurs
occurs-cons v c s h = elim (Bool-cases (is_prefix v (c ∷ s))) [
  | inl e ↦ inl e
  | inr e ↦ inr (ground arith)
]

pub occurs-prefix :
    (v : Text) (c : ℕ) (s : Text) → is_prefix v (c ∷ s) ≡ true → occurs v (c ∷ s) ≡ true
unfolding occurs
occurs-prefix v c s h = ground arith

pub occurs-tail : (v : Text) (c : ℕ) (s : Text) → occurs v s ≡ true → occurs v (c ∷ s) ≡ true
unfolding occurs
occurs-tail v c s h = ground arith

pub nowhere-nil : (v : Text) → Telling v → occurs v [] ≡ true → ⊥
unfolding occurs is_prefix
nowhere-nil [] k h = let b = k.some_byte in omega arith
nowhere-nil (a ∷ v) k h = ground arith
