-- ===== src/Engine/Interpolate.antt =====
-- engine/internal/engine/execute.go: `interpolateConfig`, the expressions in the config of a step.
pub mod Pieces
use oarlock.Prelude.{
  ℕ, zero, suc, ◌+◌, ◌≡◌, Text, codes, Bool, true, false, Option, none, some, List, [], ◌∷◌, ◌++◌,
  ◌==◌, ◌&&◌, if◌then◌else◌, length, is_prefix, trim_space,
}
use oarlock.Json.{Value, null, str, Fields, end, field, marshal}
use oarlock.Steps.Js.{JsResult, value, thrown, eval_expression}

-- A byte outside the expressions, or what stands between the braces of one.
pub data Piece : Type 0 where
  plain : ℕ → Piece
  expr : Text → Piece

-- `(.+?)\}\}`: one byte at least, none of them a line end, up to the first braces.
unfoldable pub inner_expr : Text → Option Text
unfolding is_prefix
inner_expr [] = none
inner_expr (c ∷ cs) = if c == 10 then none else elim (is_prefix (codes "}}") cs) [
  | true ↦ some (c ∷ [])
  | false ↦ elim (inner_expr cs) [ none ↦ none | some i ↦ some (c ∷ i) ]
]

-- `\{\{(.+?)\}\}` at the start of a text.
unfoldable pub match_expr : Text → Option Text
unfolding inner_expr
match_expr [] = none
match_expr (a ∷ []) = none
match_expr (a ∷ b ∷ cs) = if a == 123 && b == 123 then inner_expr cs else none

-- The matches from left to right, with the bytes between them. `skip` bytes belong to a match.
unfoldable pub pieces_from : ℕ → Text → List Piece
unfolding match_expr
pieces_from skip [] = []
pieces_from (suc skip) (c ∷ cs) = pieces_from skip cs
pieces_from zero (c ∷ cs) = elim (match_expr (c ∷ cs)) [
  | none ↦ plain c ∷ pieces_from zero cs
  | some i ↦ expr i ∷ pieces_from (length i + 3) cs
]

unfoldable pub stringify : Value → Text
unfolding marshal
stringify (str s) = s
stringify null = []
stringify v = marshal v

abbrev has_expr : List Piece → Bool
has_expr [] = false
has_expr (plain c ∷ ps) = has_expr ps
has_expr (expr i ∷ ps) = true

-- The later failure is kept, as in `evalFailure`.
abbrev or_later : Option Text → Text → Option Text
or_later none m = some m
or_later (some later) m = some later

-- A value, or the message of the expression that failed.
pub data Evaluated : Type 0 where
  done : Value → Evaluated
  fault : Text → Evaluated

abbrev evaluated : JsResult → Evaluated
evaluated (value v) = done v
evaluated (thrown m) = fault m

abbrev text_or_fault : Text × Option Text → Evaluated
text_or_fault (s, none) = done (str s)
text_or_fault (s, some m) = fault m

module _ (vm : Text → Value → JsResult) (context : Value) where
  -- The result of the replacements, and the last failure.
  unfoldable pub render : List Piece → Text × Option Text
  unfolding stringify eval_expression trim_space
  render [] = ([], none)
  render (plain c ∷ ps) = let (s, failure) = render ps in (c ∷ s, failure)
  render (expr i ∷ ps) =
      let (s, failure) = render ps in
      elim (eval_expression vm (trim_space i) context) [
        | value v ↦ (stringify v ++ s, failure)
        | thrown m ↦ (s, or_later failure m)
      ]

  -- A text that is one expression keeps the type of its value.
  unfoldable pub interpolate_pieces : Text → List Piece → Evaluated
  unfolding render eval_expression trim_space
  interpolate_pieces s (expr i ∷ []) = evaluated (eval_expression vm (trim_space i) context)
  interpolate_pieces s ps = if has_expr ps then text_or_fault (render ps) else done (str s)

  unfoldable pub interpolate_value : Value → Evaluated
  unfolding interpolate_pieces pieces_from
  interpolate_value (str s) = interpolate_pieces s (pieces_from zero s)
  interpolate_value v = done v

  -- The config, or the key and the message of a failure.
  unfoldable pub interpolate_config : Fields → Fields × Option (Text × Text)
  unfolding interpolate_value
  interpolate_config end = (end, none)
  interpolate_config (field k v fs) = elim (interpolate_value v) [
    | fault m ↦ (end, some (k, m))
    | done w ↦ let (out, failure) = interpolate_config fs in (field k w out, failure)
  ]
