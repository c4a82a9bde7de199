-- ===== src/UiRequest.antt =====
-- apps/desktop/web/lib/helpers.ts: `blockingConversationUiRequest`, which reads a request of an
-- extension that the user has to answer.
pub mod Shape
mod Tests
use Prim.Native.String.{String}
use open_pi.Prelude.{
  ℕ, Bool, true, false, ◌&&◌, Option, none, some, List, [], ◌∷◌, if◌then◌else◌, ◌>>=◌,
}
use open_pi.Text.{Text, units, text_eq}
use open_pi.JsValue.{
  JsValue, Items, Fields, undefined, null, boolean, number, string, array, object, nil, cons,
  property, as_string, as_number, is_text,
}

-- what is asked for, by the method
pub data Asked : Type 0 where
  select : List Text → Asked
  confirm : Text → Asked
  input : Option Text → Asked
  editor : Option Text → Asked

pub record BlockingUiRequest : Type 0 where
  pub id : Text
  pub title : Text
  pub asked : Asked
  pub timeout : Option ℕ

-- the elements, if all are strings
unfoldable pub all_strings : Items → Option (List Text)
all_strings nil = some []
all_strings (cons v vs) = elim (as_string v) [
  | none ↦ none
  | some s ↦ elim (all_strings vs) [ none ↦ none | some rest ↦ some (s ∷ rest) ]
]

-- an optional field: `none` when it is there with another type
abbrev pub optional_string : JsValue → Option (Option Text)
optional_string undefined = some none
optional_string (string s) = some (some s)
optional_string _ = none

abbrev pub options_of : JsValue → Option (List Text)
options_of (array vs) = all_strings vs
options_of _ = none

-- the request for a method, from its own fields
unfoldable pub asked_by : Text → Fields → Option Asked
asked_by method value =
    if text_eq method (units "select")
    then options_of (property value (units "options")) >>= (λ options. some (select options))
    else if text_eq method (units "confirm")
    then as_string (property value (units "message")) >>= (λ message. some (confirm message))
    else if text_eq method (units "input")
    then optional_string (property value (units "placeholder")) >>= (λ text. some (input text))
    else if text_eq method (units "editor")
    then optional_string (property value (units "prefill")) >>= (λ text. some (editor text))
    else none

-- an editor's request has no time limit
abbrev pub timeout_for : Asked → JsValue → Option ℕ
timeout_for (editor text) timeout = none
timeout_for _ timeout = as_number timeout

unfoldable pub blocking_conversation_ui_request : Fields → Option BlockingUiRequest
blocking_conversation_ui_request value =
    if is_text (property value (units "type")) (units "extension_ui_request")
    then (do
      id ← as_string (property value (units "id"))
      method ← as_string (property value (units "method"))
      title ← as_string (property value (units "title"))
      asked ← asked_by method value
      some (record {
        id = id;
        title = title;
        asked = asked;
        timeout = timeout_for asked (property value (units "timeout"));
      }))
    else none
