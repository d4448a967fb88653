-- ===== src/Engine/Interpolate/Pieces.antt =====
-- The pieces of a text are the text.
use oarlock.Prelude.{
  ℕ, zero, suc, ◌+◌, ◌≡◌, refl, sym, ap, ◌∙◌, inl, inr, Text, codes, true, none, some, List, [],
  ◌∷◌, ◌++◌, arith, ◌==◌, ◌&&◌, length, length-append, is_prefix, Bool-cases, Option-cases,
}
use mathlib.Core.List.{append_assoc}
use oarlock.Engine.Interpolate.{Piece, plain, expr, inner_expr, match_expr, pieces_from}

-- The text that a list of pieces comes from.
unfoldable pub unpieces : List Piece → Text
unpieces [] = []
unpieces (plain c ∷ ps) = c ∷ unpieces ps
unpieces (expr i ∷ ps) = codes "{{" ++ (i ++ (codes "}}" ++ unpieces ps))

unfoldable drop : ℕ → Text → Text
drop zero s = s
drop (suc n) [] = []
drop (suc n) (c ∷ cs) = drop n cs

drop-append : (p rest : Text) → drop (length p) (p ++ rest) ≡ rest
unfolding drop
drop-append [] rest = refl
drop-append (c ∷ p) rest = drop-append p rest

braces : (s : Text) → is_prefix (codes "}}") s ≡ true → (rest : Text) × (s ≡ codes "}}" ++ rest)
unfolding is_prefix
braces [] h = absurd (ground arith)
braces (a ∷ []) h = absurd (ground arith)
braces (a ∷ b ∷ s) h =
    let first : a ≡ 125 = ground arith in let second : b ≡ 125 = ground arith in (s, cc)

some-inj : {a b : Text} → some a ≡ some b → a ≡ b
some-inj e = cc

inner_expr-some :
    (s : Text) {i : Text} → inner_expr s ≡ some i → (rest : Text) × (s ≡ i ++ (codes "}}" ++ rest))
unfolding inner_expr
inner_expr-some [] h = absurd (ground arith)
inner_expr-some (c ∷ cs) {i} h = elim (Bool-cases (c == 10)) [
  | inl e ↦ absurd (ground arith)
  | inr e ↦ elim (Bool-cases (is_prefix (codes "}}") cs)) [
    | inl p ↦
        let (rest, q) = braces cs p in
        (rest, let same : c ∷ [] ≡ i = some-inj (ground arith) in rw (← same, q) refl)
    | inr p ↦ elim (Option-cases (inner_expr cs)) [
      | inl n ↦ absurd (ground arith)
      | inr (j, n) ↦
          let (rest, q) = inner_expr-some cs n in
          (rest, let same : c ∷ j ≡ i = some-inj (ground arith) in rw (← same, q) refl)
    ]
  ]
]

match_expr-some :
    (c : ℕ) (cs : Text) {i : Text}
    → match_expr (c ∷ cs) ≡ some i
    → (rest : Text) × (c ≡ 123) × (cs ≡ 123 ∷ (i ++ (codes "}}" ++ rest)))
unfolding match_expr
match_expr-some c [] h = absurd (ground arith)
match_expr-some c (b ∷ cs) h = elim (Bool-cases (c == 123 && b == 123)) [
  | inr e ↦ absurd (ground arith)
  | inl e ↦
      let first : c ≡ 123 = ground arith in
      let second : b ≡ 123 = ground arith in
      let (rest, q) = inner_expr-some cs (rw (e, match_expr) at h) in (rest, first, cc)
]

pieces-plain :
    (c : ℕ) (cs : Text)
    → match_expr (c ∷ cs) ≡ none
    → pieces_from 0 (c ∷ cs) ≡ plain c ∷ pieces_from 0 cs
unfolding pieces_from
pieces-plain c cs e = rw (e, pieces_from) refl

pieces-expr :
    (c : ℕ) (cs i : Text)
    → match_expr (c ∷ cs) ≡ some i
    → pieces_from 0 (c ∷ cs) ≡ expr i ∷ pieces_from (length i + 3) cs
unfolding pieces_from
pieces-expr c cs i e = rw (e, pieces_from) refl

drop-match : (i rest : Text) → drop (length i + 3) (123 ∷ (i ++ (codes "}}" ++ rest))) ≡ rest
drop-match i rest =
    let p : Text = 123 ∷ (i ++ codes "}}") in
    let long : length i + 3 ≡ length p = omega (arith, length-append i (codes "}}")) in
    let split : 123 ∷ (i ++ (codes "}}" ++ rest)) ≡ p ++ rest =
      ap (λ (t : Text). 123 ∷ t) (sym (append_assoc i (codes "}}") rest)) in
    rw (long, split) (drop-append p rest)

unpieces-from : (skip : ℕ) (s : Text) → unpieces (pieces_from skip s) ≡ drop skip s
unfolding unpieces pieces_from drop
unpieces-from zero [] = refl
unpieces-from (suc skip) [] = refl
unpieces-from (suc skip) (c ∷ cs) = unpieces-from skip cs
unpieces-from zero (c ∷ cs) = elim (Option-cases (match_expr (c ∷ cs))) [
  | inl e ↦ ap unpieces (pieces-plain c cs e) ∙ ap (λ (t : Text). c ∷ t) (unpieces-from zero cs)
  | inr (i, e) ↦
      let (rest, q, r) = match_expr-some c cs e in
      let ih : unpieces (pieces_from (length i + 3) cs) ≡ rest =
        unpieces-from (length i + 3) cs ∙ ap (drop (length i + 3)) r ∙ drop-match i rest in
      let whole : unpieces (expr i ∷ pieces_from (length i + 3) cs) ≡ c ∷ cs = rw (ih, q, r) refl in
      ap unpieces (pieces-expr c cs i e) ∙ whole
]

-- The pieces of a text, with the braces of its expressions put back, are the text: the scan for
-- expressions loses no byte and takes none twice.
pub unpieces-pieces_from : (s : Text) → unpieces (pieces_from 0 s) ≡ s
unfolding drop
unpieces-pieces_from s = unpieces-from 0 s
