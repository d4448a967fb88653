-- ===== src/Api/Http.antt =====
-- engine/internal/api/api.go: what the handlers share, `error`, `clampLimit` and `slugify`.
pub mod Slugs
use oarlock.Prelude.{
  ℕ, ◌+◌, ◌≡◌, Text, Bool, true, false, not, ◌&&◌, ◌||◌, Option, none, some, List, [], ◌∷◌, leb,
  ltb, ◌==◌, if◌then◌else◌,
}
use oarlock.Prelude.Int.{ℤ, pos, negsuc}
use oarlock.Definition.{Invalid}
use oarlock.Engine.Store.{Error}

-- The message of a response: a text of the handler, the message that quotes a name which is taken,
-- an error of the validation, of the engine or of a library, or the text "internal error".
pub data Message : Type 0 where
  said name_taken : Text → Message
  invalid_definition : Invalid → Message
  engine_error : Error → Message
  library_error internal : Message

-- A response with its status. `panicked` stands for a handler that does not return.
pub data Reply (A : Type 0) : Type 0 where
  reply : ℕ → A → Reply A
  failure : ℕ → Message → Reply A
  panicked : Reply A

unfoldable pub error : {A : Type 0} → ℕ → Message → Reply A
error status message = failure status (if leb 500 status then internal else message)

abbrev pub clamp : ℤ → ℕ → ℕ → ℕ
clamp (negsuc k) fallback max = fallback
clamp (pos n) fallback max = if ltb n 1 then fallback else if ltb max n then max else n

-- `atoi` is `strconv.Atoi`; `none` is its error.
unfoldable pub clamp_limit : (Text → Option ℤ) → Text → ℕ → ℕ → ℕ
clamp_limit atoi raw fallback max = elim (atoi raw) [
  | none ↦ fallback
  | some n ↦ clamp n fallback max
]

-- `strings.ToLower` on the bytes of UTF-8, as far as `slugify` tells: the letters of ASCII, and the
-- two others whose lower case is one. A byte of any other letter stays beyond ASCII.
unfoldable pub to_lower : Text → Text
to_lower [] = []
to_lower (a ∷ []) = (if leb b'A' a && leb a b'Z' then a + 32 else a) ∷ []
to_lower (a ∷ b ∷ []) =
    if a == 196 && b == 176
    then b'i' ∷ []
    else (if leb b'A' a && leb a b'Z' then a + 32 else a) ∷ to_lower (b ∷ [])
to_lower (a ∷ b ∷ c ∷ s) =
    let short = b'i' ∷ to_lower (c ∷ s) in
    let kelvin = b'k' ∷ to_lower s in
    let next = (if leb b'A' a && leb a b'Z' then a + 32 else a) ∷ to_lower (b ∷ c ∷ s) in
    if a == 196 && b == 176
    then short
    else if a == 226 && (b == 132 && c == 170)
    then kelvin
    else next

-- A byte of the class `[a-z0-9]`.
unfoldable pub is_alnum : ℕ → Bool
is_alnum c = leb b'a' c && leb c b'z' || leb b'0' c && leb c b'9'

-- Each run of other bytes becomes one dash; the flag says that the run has begun.
unfoldable pub dash_runs : Bool → Text → Text
unfolding is_alnum
dash_runs run [] = []
dash_runs run (c ∷ s) =
    let rest = dash_runs (not (is_alnum c)) s in
    if is_alnum c then c ∷ rest else if run then rest else b'-' ∷ rest

unfoldable pub trim_dashes_left : Text → Text
trim_dashes_left [] = []
trim_dashes_left (c ∷ s) = if c == b'-' then trim_dashes_left s else c ∷ s

unfoldable pub trim_dashes_right : Text → Text
trim_dashes_right [] = []
trim_dashes_right (c ∷ s) = elim (trim_dashes_right s) [
  | [] ↦ if c == b'-' then [] else c ∷ []
  | d ∷ rest ↦ c ∷ d ∷ rest
]

unfoldable pub slugify : Text → Text
unfolding to_lower dash_runs trim_dashes_left trim_dashes_right
slugify name = trim_dashes_right (trim_dashes_left (dash_runs false (to_lower name)))
