-- ===== src/Prelude/Keys.antt =====
-- Tables with a key: at most one row passes the key's test.
use mathlib.Core.Path.{◌≡◌, sym, ap, ◌∙◌}
use mathlib.Core.Logic.{◌⊎◌, inl, inr}
use mathlib.Core.Bool.{Bool, true, false, not, ◌&&◌}
use mathlib.Core.Option.{some}
use mathlib.Core.List.{List, [], ◌∷◌, Memᴰ}
use mathlib.Core.List.Memᴰ
use Prim.Native.Nat.{◌+◌, ◌≤◌}
use native.Mathlib.Omega.{arith}
use oarlock.Prelude.Tests.{Bool-cases, Option-cases}
use oarlock.Prelude.Lists.{count_if, count_if_mono}
use oarlock.Prelude.Counts.{count_if-none}
use oarlock.Prelude.Tables.{find, update, delete, find-some, find-none}

module _ {ℓ} {A : Type ℓ} where
  pub count_if-pos :
      (p : A → Bool) (xs : List A) {a : A} → Memᴰ a xs → p a ≡ true → 1 ≤ count_if p xs
  count_if-pos p [] m h = elim m [ ]
  count_if-pos p (x ∷ xs) (Memᴰ.head e) h = ground (arith, ap p e)
  count_if-pos p (x ∷ xs) (Memᴰ.tail m) h = ground (arith, count_if-pos p xs m h)

  -- Two rows with one key are the same.
  pub single_eq :
      (p : A → Bool) (xs : List A) {a b : A}
      → count_if p xs ≤ 1
      → Memᴰ a xs
      → Memᴰ b xs
      → p a ≡ true
      → p b ≡ true
      → a ≡ b
  single_eq p [] c m n h k = elim m [ ]
  single_eq p (x ∷ xs) c (Memᴰ.head e) (Memᴰ.head f) h k = e ∙ sym f
  single_eq p (x ∷ xs) c (Memᴰ.head e) (Memᴰ.tail n) h k =
      absurd (ground (arith, ap p e, count_if-pos p xs n k))
  single_eq p (x ∷ xs) c (Memᴰ.tail m) (Memᴰ.head f) h k =
      absurd (ground (arith, ap p f, count_if-pos p xs m h))
  single_eq p (x ∷ xs) c (Memᴰ.tail m) (Memᴰ.tail n) h k =
      single_eq p xs (ground (arith, count_if-pos p xs m h)) m n h k

  -- A query by a key finds the row that has it.
  pub find-single :
      (p : A → Bool) (xs : List A) {a : A}
      → count_if p xs ≤ 1
      → Memᴰ a xs
      → p a ≡ true
      → find p xs ≡ some a
  find-single p xs {a} c m h = elim (Option-cases (find p xs)) [
    | inl e ↦ absurd (ground (arith, find-none p xs e m))
    | inr (b, e) ↦
        let (n, k) = find-some p xs e in e ∙ ap (λ (t : A). some t) (single_eq p xs c n m k h)
  ]

  -- What a delete leaves.
  pub delete-away : (d : A → Bool) (l : List A) {x : A} → Memᴰ x (delete d l) → d x ≡ false
  unfolding delete
  delete-away d [] m = elim m [ ]
  delete-away d (y ∷ ys) {x} m = elim (Bool-cases (d y)) [
    | inl e ↦ delete-away d ys (rw (e, delete) at m)
    | inr e ↦ kept e (delete-away d ys) (Memᴰ.cases_cons (rw (e, delete) at m))
  ]
    where
      kept :
          d y ≡ false
          → (Memᴰ x (delete d ys) → d x ≡ false)
          → (x ≡ y) ⊎ Memᴰ x (delete d ys)
          → d x ≡ false
      kept e more (inl q) = ap d q ∙ e
      kept e more (inr m') = more m'

  pub delete-kept :
      (d : A → Bool) (l : List A) {x : A} → Memᴰ x l → d x ≡ false → Memᴰ x (delete d l)
  unfolding delete
  delete-kept d [] m h = elim m [ ]
  delete-kept d (y ∷ ys) (Memᴰ.head q) h = rw (sym (ap d q) ∙ h, delete) (Memᴰ.head q)
  delete-kept d (y ∷ ys) (Memᴰ.tail m) h = elim (Bool-cases (d y)) [
    | inl e ↦ rw (e, delete) (delete-kept d ys m h)
    | inr e ↦ rw (e, delete) (Memᴰ.tail (delete-kept d ys m h))
  ]

  -- An insert of a row whose key is free.
  pub count_if-insert :
      (p : A → Bool) (x : A) (xs : List A)
      → (p x ≡ true → count_if p xs ≡ 0)
      → count_if p xs ≤ 1
      → count_if p (x ∷ xs) ≤ 1
  count_if-insert p x xs free one = elim (Bool-cases (p x)) [
    | inl e ↦ ground (arith, free e)
    | inr e ↦ ground arith
  ]

  count_if-update_parts :
      (p q : A → Bool) (f : A → A) (xs : List A)
      → count_if p (update q f xs)
        ≤ count_if (λ x. q x && p (f x)) xs + count_if (λ x. not (q x) && p x) xs
  unfolding update
  count_if-update_parts p q f [] = omega arith
  count_if-update_parts p q f (x ∷ xs) = ground (arith, count_if-update_parts p q f xs)

  -- An update of the one row with a key, after which the row passes another key's test only if no
  -- other row does.
  pub count_if-update_one :
      (p q : A → Bool) (f : A → A) (xs : List A) (a : A)
      → count_if q xs ≤ 1
      → count_if p xs ≤ 1
      → Memᴰ a xs
      → q a ≡ true
      → (p (f a) ≡ true → (x : A) → Memᴰ x xs → q x ≡ false → p x ≡ false)
      → count_if p (update q f xs) ≤ 1
  count_if-update_one p q f xs a one one' m h free =
      let parts = count_if-update_parts p q f xs in
      let hit = count_if_mono (λ x. q x && p (f x)) q (λ x k. ground arith) xs in
      let rest = count_if_mono (λ x. not (q x) && p x) p (λ x k. ground arith) xs in
      elim (Bool-cases (p (f a))) [
        | inl e ↦
            let none' =
              count_if-none (λ x. not (q x) && p x) xs
                (λ x n. elim (Bool-cases (q x)) [ inl k ↦ rw k | inr k ↦ rw (k, free e x n k) ]) in
            omega arith
        | inr e ↦
            let none' =
              count_if-none (λ x. q x && p (f x)) xs
                (λ x n. elim (Bool-cases (q x)) [
                  | inr k ↦ rw k
                  | inl k ↦ let same : x ≡ a = single_eq q xs one n m k h in rw (k, same, e)
                ]) in
            omega arith
      ]
