-- ===== src/JsValue.antt =====
-- Values of type `unknown` in the program: what JSON and the agents' events can hold. Numbers are
-- natural numbers. An object is its own properties in the order in which they are listed.
pub mod Print
use open_pi.Prelude.{
  ℕ, Bool, true, false, not, ◌&&◌, Option, none, some, List, [], ◌∷◌, if◌then◌else◌, ◌==◌,
}
use open_pi.Text.{Text, text_eq, is_empty}

mutual
  pub data JsValue : Type 0 where
    undefined null : JsValue
    boolean : Bool → JsValue
    number : ℕ → JsValue
    string : Text → JsValue
    array : Items → JsValue
    object : Fields → JsValue

  pub data Items : Type 0 where
    nil : Items
    cons : JsValue → Items → Items

  pub data Fields : Type 0 where
    end : Fields
    field : Text → JsValue → Fields → Fields

-- the elements of an array, as a list
abbrev pub items_of : Items → List JsValue
items_of nil = []
items_of (cons v vs) = v ∷ items_of vs

abbrev pub items : List JsValue → Items
items [] = nil
items (v ∷ vs) = cons v (items vs)

-- `Object.keys(o)`
abbrev pub keys : Fields → List Text
keys end = []
keys (field k v fs) = k ∷ keys fs

-- `o[key]`, for a key that no object inherits
unfoldable pub property : Fields → Text → JsValue
property end key = undefined
property (field k v fs) key = if text_eq k key then v else property fs key

-- `key in o`
unfoldable pub has_property : Fields → Text → Bool
has_property end key = false
has_property (field k v fs) key = if text_eq k key then true else has_property fs key

-- `v.key` on a value: those of an object, and `undefined` for others
abbrev pub get : JsValue → Text → JsValue
get (object fs) key = property fs key
get _ key = undefined

-- `typeof v === "string" ? v : undefined`
abbrev pub as_string : JsValue → Option Text
as_string (string s) = some s
as_string _ = none

-- `typeof v === "number" ? v : undefined`
abbrev pub as_number : JsValue → Option ℕ
as_number (number n) = some n
as_number _ = none

-- `typeof v === "boolean" ? v : undefined`
abbrev pub as_boolean : JsValue → Option Bool
as_boolean (boolean b) = some b
as_boolean _ = none

-- `Array.isArray(v) ? v : undefined`
abbrev pub as_array : JsValue → Option (List JsValue)
as_array (array vs) = some (items_of vs)
as_array _ = none

-- the properties of a value that is an object and no array
abbrev pub as_object : JsValue → Option Fields
as_object (object fs) = some fs
as_object _ = none

-- `Boolean(v)`
abbrev pub truthy : JsValue → Bool
truthy undefined = false
truthy null = false
truthy (boolean b) = b
truthy (number n) = not (n == 0)
truthy (string s) = not (is_empty s)
truthy (array vs) = true
truthy (object fs) = true

-- `v === text`
abbrev pub is_text : JsValue → Text → Bool
is_text (string s) t = text_eq s t
is_text _ t = false

-- `a ?? b`
abbrev pub or_value : JsValue → JsValue → JsValue
or_value undefined b = b
or_value null b = b
or_value a b = a
