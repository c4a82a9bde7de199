-- ===== src/JsValue/Print.antt =====
-- `String(v)` and `JSON.stringify(v)`, with or without an indentation.
use open_pi.Prelude.{
  ℕ, ◌+◌, ◌/◌, ◌%◌, Bool, ◌&&◌, ◌||◌, Option, none, some, List, [], ◌∷◌, ◌++◌, ltb, leb, ◌==◌,
  if◌then◌else◌, or_else,
}
use open_pi.Text.{Text, units, join}
use open_pi.Text.Decimal.{show}
use open_pi.JsValue.{
  JsValue, Items, Fields, undefined, null, boolean, number, string, array, object, nil, cons, end,
  field,
}

-- `String(v)`: an array joins its elements by commas, and gives nothing for `null` and `undefined`
unfoldable mutual
  pub to_string : JsValue → Text
  to_string undefined = units "undefined"
  to_string null = units "null"
  to_string (boolean b) = if b then units "true" else units "false"
  to_string (number n) = show n
  to_string (string s) = s
  to_string (array vs) = elements vs
  to_string (object fs) = units "[object Object]"

  pub element : JsValue → Text
  element undefined = []
  element null = []
  element (boolean b) = if b then units "true" else units "false"
  element (number n) = show n
  element (string s) = s
  element (array vs) = elements vs
  element (object fs) = units "[object Object]"

  pub elements : Items → Text
  elements nil = []
  elements (cons v nil) = element v
  elements (cons v (cons w vs)) = element v ++ (b',' ∷ elements (cons w vs))

abbrev pub hex_digit : ℕ → ℕ
hex_digit n = if ltb n 10 then 48 + n else 87 + n

-- `\u` and four digits
abbrev pub u_escape : ℕ → Text
u_escape c =
    b'\\'
    ∷ b'u'
    ∷ hex_digit (c / 0x1000)
    ∷ hex_digit (c / 0x100 % 16)
    ∷ hex_digit (c / 16 % 16)
    ∷ hex_digit (c % 16)
    ∷ []

-- a unit as JSON writes it in a text
abbrev pub escape_unit : ℕ → Text
escape_unit c =
    if c == b'"' || c == b'\\'
    then b'\\' ∷ c ∷ []
    else if c == 8
    then units "\\b"
    else if c == 9
    then units "\\t"
    else if c == 10
    then units "\\n"
    else if c == 12
    then units "\\f"
    else if c == 13
    then units "\\r"
    else if ltb c 32 || (leb 0xd800 c && leb c 0xdfff)
    then u_escape c
    else c ∷ []

abbrev pub is_pair : ℕ → ℕ → Bool
is_pair c d = leb 0xd800 c && leb c 0xdbff && leb 0xdc00 d && leb d 0xdfff

-- a surrogate pair stays, and a lone surrogate is escaped
pub escaped : Text → Text
escaped [] = []
escaped (c ∷ []) = escape_unit c
escaped (c ∷ d ∷ s) =
    let paired = c ∷ d ∷ escaped s in
    let single = escape_unit c ++ escaped (d ∷ s) in if is_pair c d then paired else single

abbrev pub quoted : Text → Text
quoted s = b'"' ∷ (escaped s ++ b'"' ∷ [])

-- the parts of an array or an object, in one line without a gap
abbrev pub wrap : ℕ → ℕ → Text → Text → List Text → Text
wrap open' close' gap indent [] = open' ∷ close' ∷ []
wrap open' close' [] indent (part ∷ parts) =
    open' ∷ (join (b',' ∷ []) (part ∷ parts) ++ close' ∷ [])
wrap open' close' (g ∷ gap) indent (part ∷ parts) =
    let inner = b'\n' ∷ (indent ++ g ∷ gap) in
    open' ∷ (inner ++ (join (b',' ∷ inner) (part ∷ parts) ++ (b'\n' ∷ (indent ++ close' ∷ []))))

abbrev pub colon : Text → Text
colon [] = b':' ∷ []
colon (g ∷ gap) = b':' ∷ b' ' ∷ []

unfoldable mutual
  unfolding escaped

  pub json : Text → Text → JsValue → Option Text
  json gap indent undefined = none
  json gap indent null = some (units "null")
  json gap indent (boolean b) = some (if b then units "true" else units "false")
  json gap indent (number n) = some (show n)
  json gap indent (string s) = some (quoted s)
  json gap indent (array vs) = some (wrap b'[' b']' gap indent (json_items gap (indent ++ gap) vs))
  json gap indent (object fs) =
      some (wrap b'{' b'}' gap indent (json_fields gap (indent ++ gap) fs))

  pub json_items : Text → Text → Items → List Text
  json_items gap indent nil = []
  json_items gap indent (cons v vs) =
      or_else (json gap indent v) (units "null") ∷ json_items gap indent vs

  pub json_fields : Text → Text → Fields → List Text
  json_fields gap indent end = []
  json_fields gap indent (field k v fs) =
      let rest = json_fields gap indent fs in
      elim (json gap indent v) [
        | none ↦ rest
        | some text ↦ (quoted k ++ (colon gap ++ text)) ∷ rest
      ]

-- `JSON.stringify(v)`, and `JSON.stringify(v, null, 2)`
abbrev pub stringify : JsValue → Option Text
stringify v = json [] [] v

abbrev pub stringify_2 : JsValue → Option Text
stringify_2 v = json (units "  ") [] v
