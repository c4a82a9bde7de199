-- ===== src/Content.antt =====
-- apps/desktop/web/lib/helpers.ts: what the content of a message holds. The content is a value
-- that the agent sends, of no declared type.
pub mod Matches
mod Tests
use Prim.Native.String.{String}
use open_pi.Prelude.{
  ℕ, ◌+◌, Bool, true, false, not, ◌&&◌, ◌||◌, Option, none, some, List, [], ◌∷◌, ◌++◌, map, keep_if,
  flat_map, any, if◌then◌else◌, ◌==◌, length, drop, or_else,
}
use open_pi.Text.{Text, units, text_eq, is_empty, trim, join, starts_with}
use open_pi.Text.Tags.{cut_at, find_block, after_block, remove_with, remove_all, starts_with_i}
use open_pi.JsValue.{
  JsValue, undefined, null, boolean, number, string, array, object, property, has_property,
  as_string, as_object, as_array, items_of, is_text,
}

-- the fields of a message that these functions read
pub record Message : Type 0 where
  pub role : Text
  pub content : JsValue
  pub tool_name : Option Text
  pub reasoning : Option Text
  pub is_error : Bool
  pub error_message : Option Text

-- `isRecord(value)`, with the properties of the record
abbrev pub is_record : JsValue → Bool
is_record (object fs) = true
is_record _ = false

abbrev pub is_string_value : JsValue → Bool
is_string_value (string s) = true
is_string_value _ = false

unfoldable pub is_conversation_message : JsValue → Bool
is_conversation_message (object fs) =
    is_string_value (property fs (units "role")) && has_property fs (units "content")
is_conversation_message _ = false

-- the text of a block of content, empty for a block of another kind
unfoldable pub block_text : JsValue → Text
block_text (object fs) =
    let type = property fs (units "type") in
    if is_text type (units "text") || is_text type (units "output_text")
    then or_else (as_string (property fs (units "text"))) []
    else []
block_text _ = []

abbrev pub blank_line : Text
blank_line = b'\n' ∷ b'\n' ∷ []

abbrev pub has_units : Text → Bool
has_units s = not (is_empty s)

unfoldable pub content_text : JsValue → Text
content_text (string s) = s
content_text (array vs) = trim (join blank_line (keep_if has_units (map block_text (items_of vs))))
content_text _ = []

abbrev pub is_tool_block : JsValue → Bool
is_tool_block type = is_text type (units "toolCall") || is_text type (units "tool_use")

pub record BlockCounts : Type 0 where
  pub tools : ℕ
  pub thinking : ℕ

-- one round of the loop over the blocks
unfoldable pub count_block : BlockCounts → JsValue → BlockCounts
count_block n (object fs) =
    let type = property fs (units "type") in
    record {
      tools = if is_tool_block type then n.tools + 1 else n.tools;
      thinking = if is_text type (units "thinking") then n.thinking + 1 else n.thinking;
    }
count_block n _ = n

unfoldable pub count_blocks : BlockCounts → List JsValue → BlockCounts
count_blocks n [] = n
count_blocks n (v ∷ vs) = count_blocks (count_block n v) vs

unfoldable pub message_block_counts : JsValue → BlockCounts
message_block_counts (array vs) = count_blocks (record { tools = 0; thinking = 0 }) (items_of vs)
message_block_counts _ = record { tools = 0; thinking = 0 }

pub record ImageContent : Type 0 where
  pub data_url : Text
  pub mime_type : Text

abbrev pub supported_image_types : List Text
supported_image_types =
    units "image/png" ∷ units "image/jpeg" ∷ units "image/gif" ∷ units "image/webp" ∷ []

-- the image of a block, if it is one of a supported type
unfoldable pub block_image : JsValue → List ImageContent
block_image (object fs) =
    if is_text (property fs (units "type")) (units "image")
    then elim (as_string (property fs (units "data"))) [
      | none ↦ []
      | some d ↦ elim (as_string (property fs (units "mimeType"))) [
        | none ↦ []
        | some m ↦
            if any (λ t. text_eq t m) supported_image_types
            then record { data_url = d; mime_type = m } ∷ []
            else []
      ]
    ]
    else []
block_image _ = []

unfoldable pub content_images : JsValue → List ImageContent
content_images (array vs) = flat_map block_image (items_of vs)
content_images _ = []

-- `/\n*<openpi-vision-context[\s\S]*?<\/openpi-vision-context>/`
abbrev pub after_vision : Text → Option Text
after_vision s = after_block (units "<openpi-vision-context") (units "</openpi-vision-context>") s

-- `/\n*<openpi-attachments>[\s\S]*?<\/openpi-attachments>/`
abbrev pub after_attachments : Text → Option Text
after_attachments s = after_block (units "<openpi-attachments>") (units "</openpi-attachments>") s

unfoldable pub visible_message_text : Text → Text
visible_message_text text = trim (remove_all after_vision (remove_all after_attachments text))

-- the text and the images that two contents are compared by
abbrev pub visible_text : JsValue → Text
visible_text content = trim (remove_all after_vision (content_text content))

-- the images have the same data one by one
abbrev pub same_images : List ImageContent → List ImageContent → Bool
same_images [] [] = true
same_images [] (r ∷ rs) = false
same_images (l ∷ ls) [] = false
same_images (l ∷ ls) (r ∷ rs) =
    text_eq l.mime_type r.mime_type && text_eq l.data_url r.data_url && same_images ls rs

unfoldable pub conversation_content_matches : JsValue → JsValue → Bool
conversation_content_matches left right =
    text_eq (visible_text left) (visible_text right)
    && same_images (content_images left) (content_images right)

-- `s.match(/<think>([\s\S]*?)(?:<\/think>|$)/i)?.[1]`
unfoldable pub think_block : Text → Option Text
think_block s = elim (cut_at starts_with_i (units "<think>") s) [
  | none ↦ none
  | some (before, rest) ↦ elim (cut_at starts_with_i (units "</think>") rest) [
    | none ↦ some rest
    | some (body, behind) ↦ some body
  ]
]

-- the thinking that is written into a text, trimmed
unfoldable pub think_text : Text → Text
think_text s = trim (or_else (think_block s) [])

abbrev pub one_if_units : Text → List Text
one_if_units s = if is_empty s then [] else s ∷ []

-- a string that is more than white space, trimmed
abbrev pub trimmed_string : JsValue → Text
trimmed_string v = trim (or_else (as_string v) [])

-- what one block adds to the reasoning
unfoldable pub block_reasoning : JsValue → List Text
block_reasoning (object fs) =
    let type = property fs (units "type") in
    let thinking = trimmed_string (property fs (units "thinking")) in
    let reasoning = trimmed_string (property fs (units "reasoning")) in
    if is_text type (units "thinking") && has_units thinking
    then thinking ∷ []
    else if has_units reasoning
    then reasoning ∷ []
    else if is_text type (units "text")
    then one_if_units (think_text (or_else (as_string (property fs (units "text"))) []))
    else []
block_reasoning _ = []

-- the reasoning in the content, where the message has none of its own
unfoldable pub content_reasoning : JsValue → Text
content_reasoning (string s) = think_text s
content_reasoning (array vs) = trim (join blank_line (flat_map block_reasoning (items_of vs)))
content_reasoning _ = []

unfoldable pub message_reasoning : Message → Text
message_reasoning m =
    let own = trim (or_else m.reasoning []) in
    if has_units own then own else content_reasoning m.content
