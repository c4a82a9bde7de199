-- ===== src/UiRequest/Shape.antt =====
-- Requests written as objects, as an extension sends them.
use open_pi.Prelude.{◌≡◌, refl, Option, none, some, List, [], ◌∷◌}
use open_pi.Text.{Text, units, text_eq}
use open_pi.JsValue.{
  JsValue, Items, Fields, undefined, string, array, nil, cons, end, field, property,
}
use open_pi.UiRequest.{
  Asked, select, confirm, input, editor, all_strings, asked_by, timeout_for,
  blocking_conversation_ui_request,
}

-- the name of the method
abbrev pub method_of : Asked → Text
method_of (select options) = units "select"
method_of (confirm message) = units "confirm"
method_of (input placeholder) = units "input"
method_of (editor prefill) = units "editor"

abbrev pub optional_value : Option Text → JsValue
optional_value none = undefined
optional_value (some s) = string s

abbrev pub string_items : List Text → Items
string_items [] = nil
string_items (s ∷ ss) = cons (string s) (string_items ss)

-- the field that a method has of its own
abbrev pub asked_field : Asked → Fields → Fields
asked_field (select options) fs = field (units "options") (array (string_items options)) fs
asked_field (confirm message) fs = field (units "message") (string message) fs
asked_field (input placeholder) fs = field (units "placeholder") (optional_value placeholder) fs
asked_field (editor prefill) fs = field (units "prefill") (optional_value prefill) fs

-- the object that an extension sends
abbrev pub ui_request_fields : Text → Text → Asked → JsValue → Fields
ui_request_fields id title asked timeout =
    field (units "type") (string (units "extension_ui_request")) (
      field (units "id") (string id) (
        field (units "method") (string (method_of asked)) (
          field (units "title") (string title)
            (field (units "timeout") timeout (asked_field asked end)))))

all_strings-string_items : (ss : List Text) → all_strings (string_items ss) ≡ some ss
unfolding all_strings
all_strings-string_items [] = refl
all_strings-string_items (s ∷ ss) = rw (all_strings-string_items ss) refl

-- A request of each of the four methods is read back with its id, its title and its own field; its
-- time limit is kept if it is a number and the method is not "editor".
pub blocking_conversation_ui_request_fields :
    (id title : Text) (asked : Asked) (timeout : JsValue)
    → blocking_conversation_ui_request (ui_request_fields id title asked timeout)
      ≡ some (record { id = id; title = title; asked = asked; timeout = timeout_for asked timeout })
unfolding blocking_conversation_ui_request property asked_by text_eq
blocking_conversation_ui_request_fields id title (select options) timeout =
    rw (all_strings-string_items options) refl
blocking_conversation_ui_request_fields id title (confirm message) timeout = refl
blocking_conversation_ui_request_fields id title (input none) timeout = refl
blocking_conversation_ui_request_fields id title (input (some s)) timeout = refl
blocking_conversation_ui_request_fields id title (editor none) timeout = refl
blocking_conversation_ui_request_fields id title (editor (some s)) timeout = refl
