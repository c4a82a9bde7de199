-- ===== src/UiRequest/Tests.antt =====
-- A request to choose one of two options.
use open_pi.Prelude.{◌≡◌, some, [], ◌∷◌}
use open_pi.Text.{units}
use open_pi.JsValue.{number}
use open_pi.UiRequest.{Asked, select, timeout_for, blocking_conversation_ui_request}
use open_pi.UiRequest.Shape.{ui_request_fields, blocking_conversation_ui_request_fields}

abbrev choice : Asked
choice = select (units "Yes" ∷ units "No" ∷ [])

blocking_conversation_ui_request_fields_example :
    blocking_conversation_ui_request
      (ui_request_fields (units "r1") (units "Delete?") choice (number 30))
    ≡ some (record {
      id = units "r1";
      title = units "Delete?";
      asked = choice;
      timeout = timeout_for choice (number 30);
    })
blocking_conversation_ui_request_fields_example =
    blocking_conversation_ui_request_fields (units "r1") (units "Delete?") choice (number 30)
