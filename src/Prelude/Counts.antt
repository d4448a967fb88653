-- ===== src/Prelude/Counts.antt =====
-- How an update or a delete changes the number of rows that pass a test.
use Prim.Native.Nat.{ℕ, ◌+◌, ◌≤◌}
use mathlib.Core.Path.{◌≡◌, refl, ap}
use mathlib.Core.Logic.{◌⊎◌, inl, inr}
use mathlib.Core.Bool.{Bool, true, false}
use mathlib.Core.Option.{some}
use mathlib.Core.List.{List, [], ◌∷◌, Memᴰ}
use mathlib.Core.List.Memᴰ
use native.Mathlib.Omega.{arith}
use oarlock.Prelude.Tests.{Bool-cases}
use oarlock.Prelude.Lists.{count_if}
use oarlock.Prelude.Tables.{find, update, delete}

-- 1 where a row passes the test.
abbrev pub weight : Bool → ℕ
weight true = 1
weight false = 0

module _ {ℓ} {A : Type ℓ} where
  pub update-loses :
      (p k : A → Bool) (f : A → A) (l : List A)
      → count_if p l ≤ count_if p (update k f l) + count_if k l
  unfolding update
  update-loses p k f [] = omega arith
  update-loses p k f (x ∷ xs) = ground (arith, update-loses p k f xs)

  pub delete-loses :
      (p d k : A → Bool) (l : List A)
      → ((x : A) → p x ≡ true → d x ≡ true → k x ≡ true)
      → count_if p l ≤ count_if p (delete d l) + count_if k l
  unfolding delete
  delete-loses p d k [] c = omega arith
  delete-loses p d k (x ∷ xs) c = ground (arith, c x, delete-loses p d k xs c)

  -- An update of rows that a unique key covers loses at most the row that the key finds.
  pub count_if-update :
      (p k : A → Bool) (f : A → A) (l : List A) {m : A}
      → find k l ≡ some m
      → count_if k l ≤ 1
      → count_if p l ≤ count_if p (update k f l) + weight (p m)
  unfolding find update
  count_if-update p k f [] e h = absurd (ground arith)
  count_if-update p k f (x ∷ xs) {m} e h = elim (Bool-cases (k x)) [
    | inl q ↦ let same : x ≡ m = ground arith in ground (arith, ap p same, update-loses p k f xs)
    | inr q ↦ ground (arith, count_if-update p k f xs (rw (q, find) at e))
  ]

  pub count_if-delete :
      (p d k : A → Bool) (l : List A) {m : A}
      → ((x : A) → p x ≡ true → d x ≡ true → k x ≡ true)
      → find k l ≡ some m
      → count_if k l ≤ 1
      → count_if p l ≤ count_if p (delete d l) + weight (p m)
  unfolding find delete
  count_if-delete p d k [] c e h = absurd (ground arith)
  count_if-delete p d k (x ∷ xs) {m} c e h = elim (Bool-cases (k x)) [
    | inl q ↦ let same : x ≡ m = ground arith in ground (arith, ap p same, delete-loses p d k xs c)
    | inr q ↦ ground (arith, c x, count_if-delete p d k xs c (rw (q, find) at e))
  ]

  -- An update that keeps what it tests, and a delete.
  pub count_if-update_same :
      (p q : A → Bool) (f : A → A) (l : List A)
      → ((x : A) → q x ≡ true → p (f x) ≡ p x)
      → count_if p (update q f l) ≡ count_if p l
  unfolding update
  count_if-update_same p q f [] h = refl
  count_if-update_same p q f (x ∷ xs) h = ground (arith, h x, count_if-update_same p q f xs h)

  pub update-gains :
      (p q : A → Bool) (f : A → A) (l : List A)
      → ((x : A) → q x ≡ true → p (f x) ≡ true)
      → count_if p l ≤ count_if p (update q f l)
  unfolding update
  update-gains p q f [] h = omega arith
  update-gains p q f (x ∷ xs) h = ground (arith, h x, update-gains p q f xs h)

  pub count_if-delete_le : (p d : A → Bool) (l : List A) → count_if p (delete d l) ≤ count_if p l
  unfolding delete
  count_if-delete_le p d [] = omega arith
  count_if-delete_le p d (x ∷ xs) = ground (arith, count_if-delete_le p d xs)

  pub count_if-none :
      (p : A → Bool) (l : List A) → ((x : A) → Memᴰ x l → p x ≡ false) → count_if p l ≡ 0
  count_if-none p [] h = refl
  count_if-none p (x ∷ xs) h =
      ground (arith, h x (Memᴰ.head refl), count_if-none p xs (λ y m. h y (Memᴰ.tail m)))

  pub delete-Mem : (d : A → Bool) (l : List A) {x : A} → Memᴰ x (delete d l) → Memᴰ x l
  unfolding delete
  delete-Mem d [] m = m
  delete-Mem d (y ∷ ys) {x} m = elim (Bool-cases (d y)) [
    | inl e ↦ Memᴰ.tail (delete-Mem d ys (rw (e, delete) at m))
    | inr e ↦ kept (delete-Mem d ys) (Memᴰ.cases_cons (rw (e, delete) at m))
  ]
    where
      kept : (Memᴰ x (delete d ys) → Memᴰ x ys) → (x ≡ y) ⊎ Memᴰ x (delete d ys) → Memᴰ x (y ∷ ys)
      kept more (inl q) = Memᴰ.head q
      kept more (inr m') = Memᴰ.tail (more m')
