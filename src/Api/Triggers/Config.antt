-- ===== src/Api/Triggers/Config.antt =====
-- engine/internal/api/triggers.go: `validateTriggerConfig`, with the decoding of a config.
use oarlock.Prelude.{
  ◌-◌, Text, text_eq, codes, Bool, true, false, ◌&&◌, ◌||◌, Option, none, some, [], ◌∷◌, leb, ◌==◌,
  if◌then◌else◌, trim_space,
}
use oarlock.Json.{Value, null, str, obj, Fields, field, end}
use oarlock.Api.Http.{Message, said, library_error, is_alnum}

-- What `validateTriggerConfig` returns: the config to keep, or the message of its error.
pub data Checked : Type 0 where
  normalized : Value → Checked
  refused : Message → Checked

-- The fold of a key with which the decoder finds a field: in upper case, with the two letters beyond
-- ASCII that fold to one of ASCII.
unfoldable pub fold_name : Text → Text
fold_name [] = []
fold_name (a ∷ []) = (if leb b'a' a && leb a b'z' then a - 32 else a) ∷ []
fold_name (a ∷ b ∷ []) =
    if a == 197 && b == 191
    then b'S' ∷ []
    else (if leb b'a' a && leb a b'z' then a - 32 else a) ∷ fold_name (b ∷ [])
fold_name (a ∷ b ∷ c ∷ s) =
    let long_s = b'S' ∷ fold_name (c ∷ s) in
    let kelvin = b'K' ∷ fold_name s in
    let next = (if leb b'a' a && leb a b'z' then a - 32 else a) ∷ fold_name (b ∷ c ∷ s) in
    if a == 197 && b == 191
    then long_s
    else if a == 226 && (b == 132 && c == 170)
    then kelvin
    else next

-- A value that is decoded into a string: `null` leaves what is there.
abbrev store_string : Text → Value → Option Text
store_string old null = some old
store_string old (str s) = some s
store_string old v = none

-- The decoder's loop over the members of an object, for one field of the struct.
unfoldable pub decode_members : Text → Text → Fields → Option Text
unfolding fold_name text_eq
decode_members name old end = some old
decode_members name old (field key value rest) =
    if text_eq (fold_name key) (fold_name name)
    then elim (store_string old value) [ none ↦ none | some s ↦ decode_members name s rest ]
    else decode_members name old rest

-- `json.Unmarshal` into a struct of strings, at one field; `none` is its error.
unfoldable pub decode_string : Text → Value → Option Text
unfolding decode_members
decode_string name null = some []
decode_string name (obj members) = decode_members name [] members
decode_string name v = none

-- `[a-z0-9-]*`.
unfoldable pub path_rest : Text → Bool
unfolding is_alnum
path_rest [] = true
path_rest (c ∷ s) = (is_alnum c || c == b'-') && path_rest s

-- The pattern `webhookPathPattern`.
unfoldable pub matches_path : Text → Bool
unfolding is_alnum path_rest
matches_path [] = false
matches_path (c ∷ s) = is_alnum c && path_rest s

abbrev pub schedule : Text
schedule = codes "schedule"

abbrev pub hook : Text
hook = codes "webhook"

abbrev pub cron_config : Text → Value
cron_config expression = obj (field (codes "cron") (str expression) end)

unfoldable pub hook_config : Text → Text → Value
unfolding text_eq
hook_config path secret =
    if text_eq secret []
    then obj (field (codes "path") (str path) end)
    else obj (field (codes "path") (str path) (field (codes "secret") (str secret) end))

unfoldable pub check_webhook : Value → Checked
unfolding decode_string trim_space matches_path hook_config
check_webhook raw = elim (decode_string (codes "path") raw) [
  | none ↦ refused library_error
  | some given ↦ elim (decode_string (codes "secret") raw) [
    | none ↦ refused library_error
    | some secret ↦
        let path = trim_space given in
        if matches_path path
        then normalized (hook_config path secret)
        else refused (said (codes "webhook path must match ^[a-z0-9][a-z0-9-]*$"))
  ]
]

-- `parses` says whether `cron.ParseStandard` takes an expression. A raw config that is left out is no
-- JSON.
module _ (parses : Text → Bool) where
  unfoldable pub check_schedule : Value → Checked
  unfolding decode_string trim_space text_eq
  check_schedule raw = elim (decode_string (codes "cron") raw) [
    | none ↦ refused library_error
    | some cron ↦
        let expression = trim_space cron in
        if text_eq expression []
        then refused (said (codes "schedule config requires a cron expression"))
        else if parses expression
        then normalized (cron_config expression)
        else refused library_error
  ]

  unfoldable pub validate_trigger_config : Text → Option Value → Checked
  unfolding check_schedule check_webhook text_eq
  validate_trigger_config type none = refused (
      if text_eq type schedule || text_eq type hook
      then library_error
      else said (codes "type must be schedule or webhook"))
  validate_trigger_config type (some raw) =
      if text_eq type schedule
      then check_schedule raw
      else if text_eq type hook
      then check_webhook raw
      else refused (said (codes "type must be schedule or webhook"))
