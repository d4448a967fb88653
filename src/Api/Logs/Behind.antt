-- ===== src/Api/Logs/Behind.antt =====
-- What stands behind the last line of a page.
use oarlock.Prelude.{
  select, select-Mem, ℕ, zero, suc, ◌≡◌, ◌≤◌, ◌<◌, refl, inl, inr, sym, ap, ◌∙◌, Bool, true, false,
  ◌&&◌, Option, none, some, List, [], ◌∷◌, ◌++◌, ltb, Memᴰ, arith, length, take, drop, Bool-cases,
  Option-cases,
}
use oarlock.Prelude.Int.{ℤ, pos, negsuc}
use oarlock.Api.Logs.{LogLine, older}

-- Each line has a greater id than those behind it.
pub data IsDescending : List LogLine → Type 0 where
  nil : IsDescending []
  cons :
      {l : LogLine} {ls : List LogLine}
      → ((m : LogLine) → Memᴰ m ls → m.id < l.id)
      → IsDescending ls
      → IsDescending (l ∷ ls)

unfoldable pub last : List LogLine → Option LogLine
last [] = none
last (l ∷ ls) = elim (last ls) [ none ↦ some l | some m ↦ some m ]

pub select-IsDescending :
    (p : LogLine → Bool) (ls : List LogLine) → IsDescending ls → IsDescending (select p ls)
select-IsDescending p [] d = d
select-IsDescending p (x ∷ xs) (IsDescending.cons below d) = elim (Bool-cases (p x)) [
  | inl e ↦
      rw e (IsDescending.cons (λ m n. below m (select-Mem p xs n).0) (select-IsDescending p xs d))
  | inr e ↦ rw e (select-IsDescending p xs d)
]

-- A weaker test changes nothing of what a stronger one leaves.
pub select-select :
    (p q : LogLine → Bool) (ls : List LogLine)
    → ((l : LogLine) → q l ≡ true → p l ≡ true)
    → select q (select p ls) ≡ select q ls
select-select p q [] weaker = refl
select-select p q (x ∷ xs) weaker = ground (arith, weaker x, select-select p q xs weaker)

pub select-and :
    (p q : LogLine → Bool) (ls : List LogLine)
    → select (λ l. p l && q l) ls ≡ select q (select p ls)
select-and p q [] = refl
select-and p q (x ∷ xs) = ground (arith, select-and p q xs)

pub select-all :
    (p : LogLine → Bool) (ls : List LogLine)
    → ((l : LogLine) → Memᴰ l ls → p l ≡ true)
    → select p ls ≡ ls
select-all p [] all = refl
select-all p (x ∷ xs) all =
    rw (all x (Memᴰ.head refl))
      (ap (λ (l : List LogLine). x ∷ l) (select-all p xs (λ l m. all l (Memᴰ.tail m))))

pub last-Mem : (n : ℕ) (ls : List LogLine) {l : LogLine} → last (take n ls) ≡ some l → Memᴰ l ls
unfolding last
last-Mem zero ls h = absurd (ground arith)
last-Mem (suc n) [] h = absurd (ground arith)
last-Mem (suc n) (x ∷ xs) {l} h = elim (Option-cases (last (take n xs))) [
  | inr (m, e) ↦ Memᴰ.tail (last-Mem n xs (e ∙ (rw (e, last) at h)))
  | inl e ↦ let same : l ≡ x = ground arith in Memᴰ.head same
]

pub last-none : (n : ℕ) (ls : List LogLine) → last (take n ls) ≡ none → take n ls ≡ []
unfolding last
last-none zero ls h = refl
last-none (suc n) [] h = refl
last-none (suc n) (x ∷ xs) h =
    absurd
      (elim (Option-cases (last (take n xs))) [ inr (m, e) ↦ ground arith | inl e ↦ ground arith ])

drop-nil : (n : ℕ) (ls : List LogLine) → take n ls ≡ [] → drop n ls ≡ ls
drop-nil zero ls h = refl
drop-nil (suc n) [] h = refl
drop-nil (suc n) (x ∷ xs) h = absurd (ground arith)

pub take-drop : (n : ℕ) (ls : List LogLine) → take n ls ++ drop n ls ≡ ls
take-drop zero ls = refl
take-drop (suc n) [] = refl
take-drop (suc n) (x ∷ xs) = ap (λ (l : List LogLine). x ∷ l) (take-drop n xs)

pub length-drop_lt :
    (n : ℕ) (ls : List LogLine) {l : LogLine}
    → last (take n ls) ≡ some l
    → length (drop n ls) < length ls
unfolding last
length-drop_lt zero ls h = absurd (ground arith)
length-drop_lt (suc n) [] h = absurd (ground arith)
length-drop_lt (suc n) (x ∷ xs) h = omega (arith, length-drop_le n xs)
  where
    length-drop_le : (n : ℕ) (ls : List LogLine) → length (drop n ls) ≤ length ls
    length-drop_le zero ls = omega arith
    length-drop_le (suc n) [] = omega arith
    length-drop_le (suc n) (x ∷ xs) = omega (arith, length-drop_le n xs)

abbrev pub behind : LogLine → LogLine → Bool
behind l = older (some (pos l.id))

-- Behind the last line of a page stands what the page has left.
pub behind-page :
    (n : ℕ) (ls : List LogLine) {l : LogLine}
    → IsDescending ls
    → last (take n ls) ≡ some l
    → select (behind l) ls ≡ drop n ls
unfolding last older
behind-page zero ls d h = absurd (ground arith)
behind-page (suc n) [] d h = absurd (ground arith)
behind-page (suc n) (x ∷ xs) {l} (IsDescending.cons below d) h =
    elim (Option-cases (last (take n xs))) [
      | inr (m, e) ↦
          let more : last (take n xs) ≡ some l = e ∙ (rw (e, last) at h) in
          let skipped : ltb x.id l.id ≡ false = ground (arith, below l (last-Mem n xs more)) in
          rw skipped (behind-page n xs d more)
      | inl e ↦
          let same : l ≡ x = ground arith in
          let ids = ap (λ (m : LogLine). m.id) same in
          let skipped : ltb x.id l.id ≡ false = ground (arith, ids) in
          rw skipped (
            select-all (behind l) xs (λ m k. ground (arith, below m k, ids))
            ∙ sym (drop-nil n xs (last-none n xs e)))
    ]

-- What is older than a line that a cursor leaves, is older than the cursor.
pub behind-older :
    (before : Option ℤ) (l m : LogLine)
    → older before l ≡ true
    → behind l m ≡ true
    → older before m ≡ true
unfolding older
behind-older none l m h k = refl
behind-older (some (pos n)) l m h k = ground arith
behind-older (some (negsuc n)) l m h k = absurd (ground arith)

pub take-pos : (n : ℕ) (ls : List LogLine) → 1 ≤ n → take n ls ≡ [] → ls ≡ []
take-pos n [] p h = refl
take-pos zero (x ∷ xs) p h = absurd (ground arith)
take-pos (suc n) (x ∷ xs) p h = absurd (ground arith)
