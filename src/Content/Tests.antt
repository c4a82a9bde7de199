-- ===== src/Content/Tests.antt =====
-- A text, alone and as a block.
use open_pi.Prelude.{◌≡◌, ◌↔◌, true}
use open_pi.Text.{units}
use open_pi.JsValue.{JsValue, string, object, array, nil, cons, end, field}
use open_pi.Content.{conversation_content_matches}
use open_pi.Content.Matches.{IsSameContent, conversation_content_matches_iff}

abbrev plain : JsValue
plain = string (units "hello")

abbrev as_block : JsValue
as_block = array (
    cons
      (object (
        field (units "type") (string (units "text"))
          (field (units "text") (string (units "hello")) end)))
      nil)

conversation_content_matches_iff_example :
    (conversation_content_matches plain as_block ≡ true) ↔ IsSameContent plain as_block
conversation_content_matches_iff_example = conversation_content_matches_iff plain as_block
