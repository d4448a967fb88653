-- ===== src/Engine/Redact/Clean.antt =====
-- No secret is left in a redacted text.
use mathlib.Core.List.Memᴰ
use oarlock.Prelude.{
  ℕ, zero, suc, ◌-◌, ◌≡◌, ◌≤◌, refl, sym, subst, ◌⊎◌, inl, inr, Text, text_eq, codes, Bool, true,
  false, some, List, [], ◌∷◌, ◌++◌, Memᴰ, arith, leb, length, is_prefix, Bool-cases,
}
use oarlock.Json.{escape}
use oarlock.Engine.Redact.Occurs.{
  occurs, bracket_free, Telling, occurs-mark, occurs-cons, occurs-prefix, occurs-tail, nowhere-nil,
}
use oarlock.Engine.Redact.{
  redacted_mark, replace_from, insert_value, sort_values, secret_values, all_values, new_redactor,
  replace_values, redact,
}

replace-hit :
    (w : Text) (c : ℕ) (s : Text)
    → is_prefix w (c ∷ s) ≡ true
    → replace_from w 0 (c ∷ s) ≡ redacted_mark ++ replace_from w (length w - 1) s
unfolding replace_from
replace-hit w c s e = rw (e, replace_from) refl

replace-miss :
    (w : Text) (c : ℕ) (s : Text)
    → is_prefix w (c ∷ s) ≡ false
    → replace_from w 0 (c ∷ s) ≡ c ∷ replace_from w 0 s
unfolding replace_from
replace-miss w c s e = rw (e, replace_from) refl

prefix-nil : (a : ℕ) (v w : Text) → is_prefix (a ∷ v) (replace_from w 0 []) ≡ true → ⊥
unfolding replace_from is_prefix
prefix-nil a v w h = ground arith

-- A prefix of the result is one of the text.
prefix-replace :
    (v w s : Text)
    → bracket_free v ≡ true
    → is_prefix v (replace_from w 0 s) ≡ true
    → is_prefix v s ≡ true
unfolding is_prefix bracket_free
prefix-replace [] w s f h = refl
prefix-replace (a ∷ v) w [] f h = absurd (prefix-nil a v w h)
prefix-replace (a ∷ v) w (c ∷ s) f h = elim (Bool-cases (is_prefix w (c ∷ s))) [
  | inl e ↦ let h' = rw (replace-hit w c s e) at h in absurd (ground arith)
  | inr e ↦ let h' = rw (replace-miss w c s e) at h in let ih = prefix-replace v w s in ground arith
]

-- Where the first byte is kept, an occurrence at the start of the result is one at the start of the
-- text.
kept-prefix :
    (v w : Text) (c : ℕ) (s : Text)
    → Telling v
    → is_prefix w (c ∷ s) ≡ false
    → is_prefix v (c ∷ replace_from w 0 s) ≡ true
    → is_prefix v (c ∷ s) ≡ true
kept-prefix v w c s k e p =
    prefix-replace v w (c ∷ s) k.no_bracket
      (subst (λ t. is_prefix v t ≡ true) (sym (replace-miss w c s e)) p)

-- What stands in the result stands in the text.
occurs-replace :
    (v w : Text) (skip : ℕ) (s : Text)
    → Telling v
    → occurs v (replace_from w skip s) ≡ true
    → occurs v s ≡ true
unfolding replace_from
occurs-replace v w skip [] k h = h
occurs-replace v w (suc skip) (c ∷ s) k h = occurs-tail v c s (occurs-replace v w skip s k h)
occurs-replace v w zero (c ∷ s) k h = elim (Bool-cases (is_prefix w (c ∷ s))) [
  | inl e ↦
      let h' = subst (λ t. occurs v t ≡ true) (replace-hit w c s e) h in
      occurs-tail v c s (occurs-replace v w (length w - 1) s k (occurs-mark v _ k h'))
  | inr e ↦
      let h' = subst (λ t. occurs v t ≡ true) (replace-miss w c s e) h in
      elim (occurs-cons v c (replace_from w 0 s) h') [
        | inl p ↦ occurs-prefix v c s (kept-prefix v w c s k e p)
        | inr o ↦ occurs-tail v c s (occurs-replace v w zero s k o)
      ]
]

true≢false : {b : Bool} → b ≡ true → b ≡ false → ⊥
true≢false p q = ground arith

-- No occurrence of a text that is replaced is left.
replace-clean :
    (v : Text) (skip : ℕ) (s : Text) → Telling v → occurs v (replace_from v skip s) ≡ true → ⊥
unfolding replace_from
replace-clean v skip [] k h = nowhere-nil v k h
replace-clean v (suc skip) (c ∷ s) k h = replace-clean v skip s k h
replace-clean v zero (c ∷ s) k h = elim (Bool-cases (is_prefix v (c ∷ s))) [
  | inl e ↦
      let h' = subst (λ t. occurs v t ≡ true) (replace-hit v c s e) h in
      replace-clean v (length v - 1) s k (occurs-mark v _ k h')
  | inr e ↦
      let h' = subst (λ t. occurs v t ≡ true) (replace-miss v c s e) h in
      elim (occurs-cons v c (replace_from v 0 s) h') [
        | inl p ↦ true≢false (kept-prefix v v c s k e p) e
        | inr o ↦ replace-clean v zero s k o
      ]
]

replace_values-occurs :
    (vs : List Text) (v s : Text)
    → Telling v
    → occurs v (replace_values vs s) ≡ true
    → occurs v s ≡ true
unfolding replace_values
replace_values-occurs [] v s k h = h
replace_values-occurs (w ∷ ws) v s k h =
    occurs-replace v w 0 s k (replace_values-occurs ws v (replace_from w 0 s) k h)

replace_values-clean :
    (vs : List Text) (v s : Text)
    → Memᴰ v vs
    → Telling v
    → occurs v (replace_values vs s) ≡ true
    → ⊥
unfolding replace_values
replace_values-clean [] v s m k h = elim m [ ]
replace_values-clean (w ∷ ws) v s (Memᴰ.head e) k h =
    let left = replace_values-occurs ws v (replace_from w 0 s) k h in
    replace-clean v 0 s k (subst (λ x. occurs v (replace_from x 0 s) ≡ true) (sym e) left)
replace_values-clean (w ∷ ws) v s (Memᴰ.tail m) k h =
    replace_values-clean ws v (replace_from w 0 s) m k h

insert_value-Mem : (v w : Text) (ws : List Text) → (v ≡ w) ⊎ Memᴰ v ws → Memᴰ v (insert_value w ws)
unfolding insert_value
insert_value-Mem v w [] (inl e) = Memᴰ.head e
insert_value-Mem v w [] (inr m) = elim m [ ]
insert_value-Mem v w (x ∷ xs) o = elim (Bool-cases (leb (length x) (length w))) [
  | inl e ↦ rw e (elim o [ inl q ↦ Memᴰ.head q | inr m ↦ Memᴰ.tail m ])
  | inr e ↦ rw e (deeper (insert_value-Mem v w xs) o)
]
  where
    deeper :
        ((v ≡ w) ⊎ Memᴰ v xs → Memᴰ v (insert_value w xs))
        → (v ≡ w) ⊎ Memᴰ v (x ∷ xs)
        → Memᴰ v (x ∷ insert_value w xs)
    deeper more (inl q) = Memᴰ.tail (more (inl q))
    deeper more (inr m) = elim (Memᴰ.cases_cons m) [
      | inl q ↦ Memᴰ.head q
      | inr m' ↦ Memᴰ.tail (more (inr m'))
    ]

sort_values-Mem : (v : Text) (vs : List Text) → Memᴰ v vs → Memᴰ v (sort_values vs)
unfolding sort_values
sort_values-Mem v [] m = m
sort_values-Mem v (w ∷ ws) (Memᴰ.head e) = insert_value-Mem v w (sort_values ws) (inl e)
sort_values-Mem v (w ∷ ws) (Memᴰ.tail m) =
    insert_value-Mem v w (sort_values ws) (inr (sort_values-Mem v ws m))

append-Mem : (v : Text) (xs ys : List Text) → Memᴰ v xs ⊎ Memᴰ v ys → Memᴰ v (xs ++ ys)
append-Mem v [] ys (inl m) = elim m [ ]
append-Mem v [] ys (inr m) = m
append-Mem v (x ∷ xs) ys (inl (Memᴰ.head e)) = Memᴰ.head e
append-Mem v (x ∷ xs) ys (inl (Memᴰ.tail m)) = Memᴰ.tail (append-Mem v xs ys (inl m))
append-Mem v (x ∷ xs) ys (inr m) = Memᴰ.tail (append-Mem v xs ys (inr m))

secret_values-Mem : (v : Text) → 4 ≤ length v → Memᴰ v (secret_values v)
unfolding secret_values
secret_values-Mem v h =
    let long : leb 4 (length v) ≡ true = ground arith in
    elim (Bool-cases (text_eq (escape v) v)) [
      | inl e ↦ rw (long, e, secret_values) (Memᴰ.head refl)
      | inr e ↦ rw (long, e, secret_values) (Memᴰ.head refl)
    ]

all_values-Mem :
    (v : Text) (secrets : List Text) → Memᴰ v secrets → 4 ≤ length v → Memᴰ v (all_values secrets)
unfolding all_values
all_values-Mem v [] m h = m
all_values-Mem v (w ∷ ws) (Memᴰ.head e) h =
    append-Mem v (secret_values w) (all_values ws)
      (inl (subst (λ x. Memᴰ v (secret_values x)) e (secret_values-Mem v h)))
all_values-Mem v (w ∷ ws) (Memᴰ.tail m) h =
    append-Mem v (secret_values w) (all_values ws) (inr (all_values-Mem v ws m h))

-- A secret of at least 4 bytes that has no bracket and does not stand in the word of the mark stands
-- nowhere in a text that the redactor of the secrets has redacted.
pub redact-clean :
    (secrets : List Text) (v s : Text)
    → Memᴰ v secrets
    → 4 ≤ length v
    → bracket_free v ≡ true
    → occurs v (codes "redacted") ≡ false
    → occurs v (redact (some (new_redactor secrets)) s) ≡ false
unfolding redact new_redactor
redact-clean secrets v s m long free apart =
    let k : Telling v = record { some_byte = omega arith; no_bracket = free; not_marked = apart } in
    let m' = sort_values-Mem v (all_values secrets) (all_values-Mem v secrets m long) in
    elim (Bool-cases (occurs v (replace_values (sort_values (all_values secrets)) s))) [
      | inl e ↦ absurd (replace_values-clean _ v s m' k e)
      | inr e ↦ e
    ]
