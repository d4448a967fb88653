-- ===== src/Prelude/Texts.antt =====
-- Go strings as lists of bytes: equality, literals, and sets of strings.
use Prim.Native.Nat.{ℕ, zero, suc}
use Prim.Native.Char.{code}
use Prim.Native.String.{String}
use mathlib.Core.Path.{◌≡◌, refl}
use mathlib.Core.Logic.{◌↔◌, inl, inr}
use mathlib.Core.Bool.{Bool, true, false, ◌&&◌, ◌||◌}
use mathlib.Core.List.{List, [], ◌∷◌, Memᴰ}
use native.Mathlib.Omega.{arith}
use oarlock.Prelude.Tests.{◌==◌, ltb, if◌then◌else◌, Bool-cases}
use oarlock.Prelude.Lists.{length}

abbrev pub Text : Type 0
Text = List ℕ

-- The bytes of an ASCII literal.
abbrev pub codes : String → Text
codes String.[] = []
codes (String.◌∷◌ c s) = code c ∷ codes s

unfoldable pub text_eq : Text → Text → Bool
text_eq [] [] = true
text_eq [] (b ∷ bs) = false
text_eq (a ∷ cs) [] = false
text_eq (a ∷ cs) (b ∷ bs) = a == b && text_eq cs bs

pub text_eq_iff : (a b : Text) → (text_eq a b ≡ true) ↔ (a ≡ b)
unfolding text_eq
text_eq_iff [] [] = ground arith
text_eq_iff [] (b ∷ bs) = ground arith
text_eq_iff (a ∷ cs) [] = ground arith
text_eq_iff (a ∷ cs) (b ∷ bs) = ground (arith, text_eq_iff cs bs)

pub text_eq_refl : (a : Text) → text_eq a a ≡ true
text_eq_refl a = (text_eq_iff a a).1 refl

-- A set of strings as a list: Go's `map[string]bool`.
unfoldable pub contains : List Text → Text → Bool
contains [] a = false
contains (x ∷ xs) a = text_eq a x || contains xs a

pub contains→Mem : (xs : List Text) (a : Text) → contains xs a ≡ true → Memᴰ a xs
unfolding contains
contains→Mem [] a h = absurd (ground arith)
contains→Mem (x ∷ xs) a h = elim (Bool-cases (text_eq a x)) [
  | inl e ↦ Memᴰ.head ((text_eq_iff a x).0 e)
  | inr e ↦ Memᴰ.tail (contains→Mem xs a (ground arith))
]

pub Mem→contains : (xs : List Text) (a : Text) → Memᴰ a xs → contains xs a ≡ true
unfolding contains
Mem→contains [] a m = elim m [ ]
Mem→contains (x ∷ xs) a (Memᴰ.head e) = ground (arith, text_eq_iff a x)
Mem→contains (x ∷ xs) a (Memᴰ.tail m) = ground (arith, Mem→contains xs a m)

-- `strings.HasPrefix s v`.
unfoldable pub is_prefix : Text → Text → Bool
is_prefix [] s = true
is_prefix (v ∷ vs) [] = false
is_prefix (v ∷ vs) (c ∷ cs) = v == c && is_prefix vs cs

-- The white space of Unicode beyond ASCII, in UTF-8.
abbrev wide_spaces : List Text
wide_spaces =
    (194 ∷ 133 ∷ [])
    ∷ (194 ∷ 160 ∷ [])
    ∷ (225 ∷ 154 ∷ 128 ∷ [])
    ∷ (226 ∷ 128 ∷ 128 ∷ [])
    ∷ (226 ∷ 128 ∷ 129 ∷ [])
    ∷ (226 ∷ 128 ∷ 130 ∷ [])
    ∷ (226 ∷ 128 ∷ 131 ∷ [])
    ∷ (226 ∷ 128 ∷ 132 ∷ [])
    ∷ (226 ∷ 128 ∷ 133 ∷ [])
    ∷ (226 ∷ 128 ∷ 134 ∷ [])
    ∷ (226 ∷ 128 ∷ 135 ∷ [])
    ∷ (226 ∷ 128 ∷ 136 ∷ [])
    ∷ (226 ∷ 128 ∷ 137 ∷ [])
    ∷ (226 ∷ 128 ∷ 138 ∷ [])
    ∷ (226 ∷ 128 ∷ 168 ∷ [])
    ∷ (226 ∷ 128 ∷ 169 ∷ [])
    ∷ (226 ∷ 128 ∷ 175 ∷ [])
    ∷ (226 ∷ 129 ∷ 159 ∷ [])
    ∷ (227 ∷ 128 ∷ 128 ∷ [])
    ∷ []

-- How many bytes the white space has that a text begins with.
unfoldable space_width_of : List Text → Text → ℕ
unfolding is_prefix
space_width_of [] s = 0
space_width_of (w ∷ ws) s = elim (is_prefix w s) [ true ↦ length w | false ↦ space_width_of ws s ]

unfoldable space_width : Text → ℕ
unfolding space_width_of
space_width [] = 0
space_width (c ∷ cs) =
    if c == 32 || ltb 8 c && ltb c 14 then 1 else space_width_of wide_spaces (c ∷ cs)

unfoldable trim_left : ℕ → Text → Text
unfolding space_width
trim_left skip [] = []
trim_left (suc skip) (c ∷ cs) = trim_left skip cs
trim_left zero (c ∷ cs) = elim (space_width (c ∷ cs)) [ zero ↦ c ∷ cs | suc w ↦ trim_left w cs ]

unfoldable trim_right : Text → Text
unfolding trim_left
trim_right [] = []
trim_right (c ∷ cs) =
    let rest = trim_right cs in elim (trim_left 0 (c ∷ cs)) [ [] ↦ [] | d ∷ ds ↦ c ∷ rest ]

-- `strings.TrimSpace`, of valid UTF-8.
unfoldable pub trim_space : Text → Text
unfolding trim_right trim_left
trim_space s = trim_right (trim_left 0 s)
