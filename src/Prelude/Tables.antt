-- ===== src/Prelude/Tables.antt =====
-- Tables as lists of rows: the clauses of SQL statements that the engine uses.
use mathlib.Core.Path.{◌≡◌, refl, sym, ◌∙◌, subst, ap}
use mathlib.Core.Logic.{inl, inr}
use mathlib.Core.Bool.{Bool, true, false, not, ◌&&◌}
use mathlib.Core.Option.{Option, none, some}
use mathlib.Core.List.{List, [], ◌∷◌, map, Memᴰ}
use native.Mathlib.Omega.{arith}
use oarlock.Prelude.Tests.{if◌then◌else◌, Bool-cases, Option-cases}

module _ {ℓ} {A : Type ℓ} where
  -- `select … where p`, the first row.
  unfoldable pub find : (A → Bool) → List A → Option A
  find p [] = none
  find p (x ∷ xs) = if p x then some x else find p xs

  -- The first row by `created_at`, where rows stand with the newest first.
  unfoldable pub oldest : (A → Bool) → List A → Option A
  oldest p [] = none
  oldest p (x ∷ xs) = elim (oldest p xs) [ some y ↦ some y | none ↦ if p x then some x else none ]

  -- `update … set f where p`; `RowsAffected` is `count_if p`.
  unfoldable pub update : (A → Bool) → (A → A) → List A → List A
  update p f [] = []
  update p f (x ∷ xs) = (if p x then f x else x) ∷ update p f xs

  -- `delete … where p`.
  unfoldable pub delete : (A → Bool) → List A → List A
  delete p [] = []
  delete p (x ∷ xs) = let rest = delete p xs in if p x then rest else x ∷ rest

  unfoldable pub any_row : (A → Bool) → List A → Bool
  any_row p [] = false
  any_row p (x ∷ xs) = if p x then true else any_row p xs

  pub find-some :
      (p : A → Bool) (xs : List A) {a : A} → find p xs ≡ some a → Memᴰ a xs × (p a ≡ true)
  unfolding find
  find-some p [] h = absurd (ground arith)
  find-some p (x ∷ xs) {a} h = elim (Bool-cases (p x)) [
    | inl e ↦
        let same : a ≡ x = ground arith in (Memᴰ.head same, subst (λ t. p t ≡ true) (sym same) e)
    | inr e ↦ let (m, q) = find-some p xs (rw (e, find) at h) in (Memᴰ.tail m, q)
  ]

  pub oldest-some :
      (p : A → Bool) (xs : List A) {a : A} → oldest p xs ≡ some a → Memᴰ a xs × (p a ≡ true)
  unfolding oldest
  oldest-some p [] h = absurd (ground arith)
  oldest-some p (x ∷ xs) {a} h = elim (Option-cases (oldest p xs)) [
    | inr (y, e) ↦ let (m, q) = oldest-some p xs (e ∙ (rw (e, oldest) at h)) in (Memᴰ.tail m, q)
    | inl e ↦ elim (Bool-cases (p x)) [
      | inl f ↦
          let same : a ≡ x = ground arith in (Memᴰ.head same, subst (λ t. p t ≡ true) (sym same) f)
      | inr f ↦ absurd (ground arith)
    ]
  ]

  pub find-none : (p : A → Bool) (xs : List A) {a : A} → find p xs ≡ none → Memᴰ a xs → p a ≡ false
  unfolding find
  find-none p [] h m = elim m [ ]
  find-none p (x ∷ xs) h (Memᴰ.head e) = ground (arith, ap p e)
  find-none p (x ∷ xs) h (Memᴰ.tail m) = elim (Bool-cases (p x)) [
    | inl e ↦ absurd (ground arith)
    | inr e ↦ find-none p xs (rw (e, find) at h) m
  ]

  pub any_row-false :
      (p : A → Bool) (xs : List A) {a : A} → any_row p xs ≡ false → Memᴰ a xs → p a ≡ false
  unfolding any_row
  any_row-false p [] h m = elim m [ ]
  any_row-false p (x ∷ xs) h (Memᴰ.head e) = ground (arith, ap p e)
  any_row-false p (x ∷ xs) h (Memᴰ.tail m) = elim (Bool-cases (p x)) [
    | inl e ↦ absurd (ground arith)
    | inr e ↦ any_row-false p xs (rw (e, any_row) at h) m
  ]

  pub any_row-of :
      (p : A → Bool) (xs : List A) {a : A} → Memᴰ a xs → p a ≡ true → any_row p xs ≡ true
  unfolding any_row
  any_row-of p [] m h = elim m [ ]
  any_row-of p (x ∷ xs) (Memᴰ.head e) h = ground (arith, ap p e)
  any_row-of p (x ∷ xs) (Memᴰ.tail m) h = ground (arith, any_row-of p xs m h)

  -- A row of an updated table comes from one of the table.
  pub update-from :
      (p : A → Bool) (f : A → A) (xs : List A) {a : A}
      → Memᴰ a (update p f xs)
      → (b : A) × Memᴰ b xs × (a ≡ (if p b then f b else b))
  unfolding update
  update-from p f [] m = elim m [ ]
  update-from p f (x ∷ xs) (Memᴰ.head e) = (x, Memᴰ.head refl, e)
  update-from p f (x ∷ xs) (Memᴰ.tail m) =
      let (b, m', e) = update-from p f xs m in (b, Memᴰ.tail m', e)

  pub update-Mem :
      (p : A → Bool) (f : A → A) (xs : List A) {b : A}
      → Memᴰ b xs
      → Memᴰ (if p b then f b else b) (update p f xs)
  unfolding update
  update-Mem p f [] m = elim m [ ]
  update-Mem p f (x ∷ xs) {b} (Memᴰ.head e) = Memᴰ.head (ap (λ (y : A). if p y then f y else y) e)
  update-Mem p f (x ∷ xs) (Memᴰ.tail m) = Memᴰ.tail (update-Mem p f xs m)

  pub any_row-some :
      (p : A → Bool) (xs : List A) → any_row p xs ≡ true → (a : A) × Memᴰ a xs × (p a ≡ true)
  unfolding any_row
  any_row-some p [] h = absurd (ground arith)
  any_row-some p (x ∷ xs) h = elim (Bool-cases (p x)) [
    | inl e ↦ (x, Memᴰ.head refl, e)
    | inr e ↦ let (a, m, q) = any_row-some p xs (rw (e, any_row) at h) in (a, Memᴰ.tail m, q)
  ]

  pub any_row-none :
      (p : A → Bool) (xs : List A) → ((a : A) → Memᴰ a xs → p a ≡ false) → any_row p xs ≡ false
  unfolding any_row
  any_row-none p [] h = refl
  any_row-none p (x ∷ xs) h =
      rw (h x (Memᴰ.head refl)) (any_row-none p xs (λ a m. h a (Memᴰ.tail m)))

  -- Where no row passes the test, an update changes nothing.
  pub update-none :
      (p : A → Bool) (f : A → A) (xs : List A)
      → ((a : A) → Memᴰ a xs → p a ≡ false)
      → update p f xs ≡ xs
  unfolding update
  update-none p f [] h = refl
  update-none p f (x ∷ xs) h =
      rw (h x (Memᴰ.head refl), update-none p f xs (λ a m. h a (Memᴰ.tail m)))

  -- An update that leaves the test of a query alone changes the row that it finds, or not.
  pub find-update :
      (p q : A → Bool) (f : A → A) (xs : List A) {a : A}
      → ((x : A) → p (f x) ≡ p x)
      → find p xs ≡ some a
      → find p (update q f xs) ≡ some (if q a then f a else a)
  unfolding find update
  find-update p q f [] same h = absurd (ground arith)
  find-update p q f (x ∷ xs) {a} same h = elim (Bool-cases (p x)) [
    | inl e ↦
        let here : x ≡ a = ground arith in
        rw (← here) (elim (Bool-cases (q x)) [ inl e' ↦ rw (e', same x, e) | inr e' ↦ rw (e', e) ])
    | inr e ↦
        let ih : find p (update q f xs) ≡ some (if q a then f a else a) =
          find-update p q f xs same (rw (e, find) at h) in
        elim (Bool-cases (q x)) [ inl e' ↦ rw (e', same x, e) ih | inr e' ↦ rw (e', e) ih ]
  ]

  -- A delete that spares the row that a query finds.
  pub find-delete :
      (p d : A → Bool) (xs : List A) {a : A}
      → find p xs ≡ some a
      → d a ≡ false
      → find p (delete d xs) ≡ some a
  unfolding find delete
  find-delete p d [] h k = h
  find-delete p d (x ∷ xs) {a} h k = elim (Bool-cases (p x)) [
    | inl e ↦
        let here : x ≡ a = ground arith in
        let kept : d x ≡ false = ap d here ∙ k in rw (kept, delete, e) (ap (λ (y : A). some y) here)
    | inr e ↦
        let rest = find-delete p d xs (rw (e, find) at h) k in
        elim (Bool-cases (d x)) [ inl f ↦ rw (f, delete) rest | inr f ↦ rw (f, delete, e) rest ]
  ]

  -- A query that only an updated row can answer finds the first of them.
  pub find-updated :
      (p q : A → Bool) (f : A → A) (xs : List A) {a : A}
      → ((x : A) → q x ≡ true → p (f x) ≡ true)
      → any_row (λ x. p x && not (q x)) xs ≡ false
      → find q xs ≡ some a
      → find p (update q f xs) ≡ some (f a)
  unfolding find update any_row
  find-updated p q f [] hit free h = absurd (ground arith)
  find-updated p q f (x ∷ xs) {a} hit free h = elim (Bool-cases (q x)) [
    | inl e ↦
        let here : x ≡ a = ground arith in
        let found : p (f x) ≡ true = hit x e in rw (e, found) (ap (λ (y : A). some (f y)) here)
    | inr e ↦
        let ih : find p (update q f xs) ≡ some (f a) =
          find-updated p q f xs hit (ground arith) (rw (e, find) at h) in
        elim (Bool-cases (p x)) [ inl k ↦ absurd (ground arith) | inr k ↦ rw (e, k) ih ]
  ]

module _ {ℓ κ} {A : Type ℓ} {B : Type κ} (f : A → B) where
  pub map-from : (xs : List A) {b : B} → Memᴰ b (map f xs) → (a : A) × Memᴰ a xs × (b ≡ f a)
  map-from [] m = elim m [ ]
  map-from (x ∷ xs) (Memᴰ.head e) = (x, Memᴰ.head refl, e)
  map-from (x ∷ xs) (Memᴰ.tail m) = let (a, n, e) = map-from xs m in (a, Memᴰ.tail n, e)

  pub map-Mem : (xs : List A) {a : A} → Memᴰ a xs → Memᴰ (f a) (map f xs)
  map-Mem [] m = elim m [ ]
  map-Mem (x ∷ xs) (Memᴰ.head e) = Memᴰ.head (ap f e)
  map-Mem (x ∷ xs) (Memᴰ.tail m) = Memᴰ.tail (map-Mem xs m)
