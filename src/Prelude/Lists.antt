-- ===== src/Prelude/Lists.antt =====
-- Lists measured by native numbers, and membership.
use Prim.Native.Nat.{ℕ, zero, suc, ◌+◌, ◌≤◌, ◌<◌}
use mathlib.Core.Path.{◌≡◌, refl, ap, ◌∙◌, subst}
use mathlib.Core.Logic.{◌⊎◌, inl, inr}
use mathlib.Core.Bool.{Bool, true, false}
use mathlib.Core.List.{List, [], ◌∷◌, ◌++◌, Memᴰ}
use mathlib.Core.List.Memᴰ
use native.Mathlib.Omega.{arith}
use oarlock.Prelude.Tests.{if◌then◌else◌, Bool-cases}

module _ {ℓ} {A : Type ℓ} where
  abbrev pub length : List A → ℕ
  length [] = 0
  length (x ∷ xs) = suc (length xs)

  abbrev pub take : ℕ → List A → List A
  take zero xs = []
  take (suc n) [] = []
  take (suc n) (x ∷ xs) = x ∷ take n xs

  abbrev pub drop : ℕ → List A → List A
  drop zero xs = xs
  drop (suc n) [] = []
  drop (suc n) (x ∷ xs) = drop n xs

  pub take-append_self : (xs ys : List A) → take (length xs) (xs ++ ys) ≡ xs
  take-append_self [] ys = refl
  take-append_self (x ∷ xs) ys = ap (λ (l : List A). x ∷ l) (take-append_self xs ys)

  pub drop-append_self : (xs ys : List A) → drop (length xs) (xs ++ ys) ≡ ys
  drop-append_self [] ys = refl
  drop-append_self (x ∷ xs) ys = drop-append_self xs ys

  pub length-take_le : (n : ℕ) (xs : List A) → length (take n xs) ≤ n
  length-take_le zero xs = omega arith
  length-take_le (suc n) [] = omega arith
  length-take_le (suc n) (x ∷ xs) = omega (arith, length-take_le n xs)

  pub length-append : (xs ys : List A) → length (xs ++ ys) ≡ length xs + length ys
  length-append [] ys = omega arith
  length-append (x ∷ xs) ys = omega (arith, length-append xs ys)

  -- How many entries pass a Boolean test.
  abbrev pub count_if : (A → Bool) → List A → ℕ
  count_if p [] = 0
  count_if p (x ∷ xs) = let rest = count_if p xs in if p x then suc rest else rest

  -- The entries that pass a Boolean test, in order.
  abbrev pub select : (A → Bool) → List A → List A
  select p [] = []
  select p (x ∷ xs) = let rest = select p xs in if p x then x ∷ rest else rest

  pub count_if_mono :
      (p q : A → Bool)
      → ((x : A) → p x ≡ true → q x ≡ true)
      → (xs : List A) → count_if p xs ≤ count_if q xs
  count_if_mono p q h [] = omega arith
  count_if_mono p q h (x ∷ xs) = ground (arith, h x, count_if_mono p q h xs)

  pub count_if-lt :
      (p q : A → Bool)
      → ((x : A) → p x ≡ true → q x ≡ true)
      → (a : A) (xs : List A) → Memᴰ a xs
      → p a ≡ false
      → q a ≡ true
      → count_if p xs < count_if q xs
  count_if-lt p q h a [] m no' yes' = elim m [ ]
  count_if-lt p q h a (x ∷ xs) (Memᴰ.head e) no' yes' =
      ground (arith, ap p e, ap q e, count_if_mono p q h xs)
  count_if-lt p q h a (x ∷ xs) (Memᴰ.tail m) no' yes' =
      ground (arith, h x, count_if-lt p q h a xs m no' yes')

  pub count_if-le : (p : A → Bool) (xs : List A) → count_if p xs ≤ length xs
  count_if-le p [] = omega arith
  count_if-le p (x ∷ xs) = ground (arith, count_if-le p xs)

  pub select-Mem :
      (p : A → Bool) (xs : List A) {a : A} → Memᴰ a (select p xs) → Memᴰ a xs × (p a ≡ true)
  select-Mem p [] m = elim m [ ]
  select-Mem p (x ∷ xs) {a} m = elim (Bool-cases (p x)) [
    | inl e ↦
        kept e (select-Mem p xs)
          (Memᴰ.cases_cons (subst (λ b. Memᴰ a (if b then x ∷ select p xs else select p xs)) e m))
    | inr e ↦
        let (m', q) =
          select-Mem p xs (subst (λ b. Memᴰ a (if b then x ∷ select p xs else select p xs)) e m) in
        (Memᴰ.tail m', q)
  ]
    where
      kept :
          p x ≡ true
          → (Memᴰ a (select p xs) → Memᴰ a xs × (p a ≡ true))
          → (a ≡ x) ⊎ Memᴰ a (select p xs)
          → Memᴰ a (x ∷ xs) × (p a ≡ true)
      kept e more (inl q) = (Memᴰ.head q, ap p q ∙ e)
      kept e more (inr m') = let (m'', q) = more m' in (Memᴰ.tail m'', q)

  pub select-of :
      (p : A → Bool) (xs : List A) {a : A} → Memᴰ a xs → p a ≡ true → Memᴰ a (select p xs)
  select-of p [] m h = elim m [ ]
  select-of p (x ∷ xs) {a} m h = elim (Bool-cases (p x)) [
    | inl e ↦ rw e (kept (select-of p xs) (Memᴰ.cases_cons m))
    | inr e ↦ rw e (dropped e (select-of p xs) (Memᴰ.cases_cons m))
  ]
    where
      kept :
          (Memᴰ a xs → p a ≡ true → Memᴰ a (select p xs))
          → (a ≡ x) ⊎ Memᴰ a xs
          → Memᴰ a (x ∷ select p xs)
      kept more (inl q) = Memᴰ.head q
      kept more (inr m') = Memᴰ.tail (more m' h)

      dropped :
          p x ≡ false
          → (Memᴰ a xs → p a ≡ true → Memᴰ a (select p xs))
          → (a ≡ x) ⊎ Memᴰ a xs
          → Memᴰ a (select p xs)
      dropped e more (inl q) = absurd (ground (arith, ap p q))
      dropped e more (inr m') = more m' h
