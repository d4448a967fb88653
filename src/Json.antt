-- ===== src/Json.antt =====
-- encoding/json as the engine uses it: the values that it reads into `any`, and `json.Marshal`.
use oarlock.Prelude.{
  ℕ, ◌+◌, ◌-◌, ◌&&◌, ◌/◌, ◌%◌, Text, text_eq, codes, Bool, true, false, [], ◌∷◌, ◌++◌, ltb, ◌==◌,
  ◌||◌, if◌then◌else◌, ◌≡◌, refl,
}

-- A number is kept as the literal that stands for it. The fields of an object stand in the order of
-- their keys, in which `json.Marshal` writes a Go map.
mutual
  pub data Value : Type 0 where
    null : Value
    bool : Bool → Value
    num : Text → Value
    str : Text → Value
    arr : Items → Value
    obj : Fields → Value

  pub data Items : Type 0 where
    nil : Items
    cons : Value → Items → Items

  pub data Fields : Type 0 where
    end : Fields
    field : Text → Value → Fields → Fields

hex_digit : ℕ → ℕ
hex_digit n = if ltb n 10 then b'0' + n else 87 + n

-- The escape of one byte: quotes, backslashes, control characters and the three that HTML reads.
escape_byte : ℕ → Text
unfolding hex_digit
escape_byte c =
    if c == b'"'
    then codes "\\\""
    else if c == 92
    then codes "\\\\"
    else if c == 8
    then codes "\\b"
    else if c == 12
    then codes "\\f"
    else if c == 10
    then codes "\\n"
    else if c == 13
    then codes "\\r"
    else if c == 9
    then codes "\\t"
    else if ltb c 32 || c == b'<' || c == b'>' || c == b'&'
    then codes "\\u00" ++ hex_digit (c / 16) ∷ hex_digit (c % 16) ∷ []
    else c ∷ []

-- The bytes of U+2028 and U+2029, which JavaScript would read as line ends.
is_line_end : ℕ → ℕ → ℕ → Bool
is_line_end a b c = a == 226 && (b == 128 && (c == 168 || c == 169))

-- Of a text that is valid UTF-8.
unfoldable pub escape : Text → Text
unfolding escape_byte is_line_end
escape [] = []
escape (a ∷ []) = escape_byte a
escape (a ∷ b ∷ []) = escape_byte a ++ escape_byte b
escape (a ∷ b ∷ c ∷ cs) = elim (is_line_end a b c) [
  | true ↦ codes "\\u202" ++ (c - 112) ∷ escape cs
  | false ↦ escape_byte a ++ escape (b ∷ c ∷ cs)
]

-- A string as `json.Marshal` writes it.
unfoldable pub quote : Text → Text
unfolding escape
quote s = b'"' ∷ (escape s ++ b'"' ∷ [])

-- `{"message": …}`, the errors that task rows hold.
unfoldable pub message_json : Text → Text
unfolding quote
message_json m = codes "{\"message\":" ++ quote m ++ codes "}"

unfoldable mutual
  unfolding quote

  pub marshal : Value → Text
  marshal null = codes "null"
  marshal (bool true) = codes "true"
  marshal (bool false) = codes "false"
  marshal (num t) = t
  marshal (str s) = quote s
  marshal (arr xs) = codes "[" ++ marshal_items xs ++ codes "]"
  marshal (obj fs) = codes "{" ++ marshal_fields fs ++ codes "}"

  pub marshal_items : Items → Text
  marshal_items nil = []
  marshal_items (cons x nil) = marshal x
  marshal_items (cons x (cons y xs)) = marshal x ++ b',' ∷ marshal_items (cons y xs)

  pub marshal_fields : Fields → Text
  marshal_fields end = []
  marshal_fields (field k v end) = quote k ++ b':' ∷ marshal v
  marshal_fields (field k v (field k' v' fs)) =
      quote k ++ b':' ∷ (marshal v ++ b',' ∷ marshal_fields (field k' v' fs))

-- `m[k] = v` on a Go map, in the order of the keys where the map is.
pub text_lt : Text → Text → Bool
text_lt [] [] = false
text_lt [] (b ∷ bs) = true
text_lt (a ∷ cs) [] = false
text_lt (a ∷ cs) (b ∷ bs) = if ltb a b then true else if a == b then text_lt cs bs else false

unfoldable pub put : Text → Value → Fields → Fields
unfolding text_lt
put k v end = field k v end
put k v (field j w fs) =
    if text_eq j k
    then field k v fs
    else if text_lt k j
    then field k v (field j w fs)
    else field j w (put k v fs)

-- The loop that copies the entries of one map into another.
unfoldable pub put_all : Fields → Fields → Fields
unfolding put
put_all end m = m
put_all (field k v fs) m = put_all fs (put k v m)

marshal_test :
    marshal (
      obj (
        field
          (codes "a")
          (arr (cons (bool true) (cons null nil)))
          (field (codes "b") (str (codes "x\"y")) end)))
    ≡ codes "{\"a\":[true,null],\"b\":\"x\\\"y\"}"
unfolding marshal
marshal_test = refl
