-- ===== src/MobileData.antt =====
-- apps/desktop/web/mobile/mobile-data.ts: the transcripts and lists that the phone reads. The rows
-- that the server sends are arguments.
pub mod Readable
mod Tests
use open_pi.Prelude.{
  ℕ, Bool, true, false, not, ◌&&◌, ◌||◌, Option, none, some, List, [], ◌∷◌, ◌++◌, map, flat_map,
  keep_if, or_else, if◌then◌else◌,
}
use open_pi.Text.{Text, units, is_empty, trim, join}
use open_pi.JsValue.{
  JsValue, undefined, null, boolean, number, string, array, object, property, get, as_string,
  items_of, is_text, truthy, or_value,
}
use open_pi.JsValue.Print.{to_string}

pub record MobileMessage : Type 0 where
  pub id : Text
  pub role : Text
  pub text : Text
  pub reasoning : Text
  pub tool_name : Option Text
  pub created_at : Option Text

pub record MobileConversation : Type 0 where
  pub id : Text
  pub name : Text
  pub model : Option Text
  pub message_count : ℕ
  pub updated_at : Text

pub data Kind : Type 0 where
  text thinking : Kind

abbrev pub kind_key : Kind → Text
kind_key text = units "text"
kind_key thinking = units "thinking"

-- what one block adds
unfoldable pub block_part : Kind → JsValue → List Text
block_part kind block = elim (as_string (get block (kind_key kind))) [ none ↦ [] | some s ↦ s ∷ [] ]

unfoldable pub blocks_to_text : JsValue → Kind → Text
blocks_to_text (string s) text = s
blocks_to_text (array vs) kind =
    trim (join (b'\n' ∷ b'\n' ∷ []) (flat_map (block_part kind) (items_of vs)))
blocks_to_text _ kind = []

unfoldable pub first_tool : List JsValue → Option Text
first_tool [] = none
first_tool (block ∷ blocks) =
    let type = get block (units "type") in
    let later = first_tool blocks in
    if is_text type (units "toolCall") || is_text type (units "tool_use")
    then elim (as_string (get block (units "name"))) [ none ↦ later | some name ↦ some name ]
    else later

unfoldable pub tool_name : JsValue → Option Text
tool_name (array vs) = first_tool (items_of vs)
tool_name _ = none

abbrev pub sealed_message : MobileMessage
sealed_message = record {
  id = units "encrypted";
  role = units "system";
  text = units "这段会话在云端是端到端加密的，手机端无法解读。";
  reasoning = [];
  tool_name = none;
  created_at = none;
}

abbrev pub is_sealed : JsValue → Bool
is_sealed entry = truthy entry && truthy (get entry (units "__enc"))

-- a message that can be read
abbrev pub open_message : JsValue → JsValue → MobileMessage
open_message entry message = record {
  id = to_string (or_value (get entry (units "id")) (string []));
  role = to_string (or_value (get message (units "role")) (string (units "assistant")));
  text = blocks_to_text (get message (units "content")) text;
  reasoning = blocks_to_text (get message (units "content")) thinking;
  tool_name = tool_name (get message (units "content"));
  created_at = as_string (get entry (units "timestamp"));
}

-- one round of the loop over the rows, on the payload of a row
unfoldable pub transcript_entry : JsValue → List MobileMessage
transcript_entry entry =
    let message = get entry (units "message") in
    if not (truthy entry)
    then []
    else if truthy (get entry (units "__enc"))
    then sealed_message ∷ []
    else if not (truthy message)
    then []
    else open_message entry message ∷ []

unfoldable pub load_transcript : List JsValue → List MobileMessage
load_transcript rows = flat_map transcript_entry rows

-- a row of the table of conversations
pub record ConversationRow : Type 0 where
  pub id : Text
  pub name : Option Text
  pub model : Option Text
  pub updated_at : Option Text

unfoldable pub list_conversations : List ConversationRow → List MobileConversation
list_conversations rows =
    map
      (λ row.
        let name = trim (or_else row.name []) in
        record {
          id = row.id;
          name = if is_empty name then units "未命名会话" else name;
          model = row.model;
          message_count = 0;
          updated_at = or_else row.updated_at [];
        })
      rows
