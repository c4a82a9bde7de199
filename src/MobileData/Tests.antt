-- ===== src/MobileData/Tests.antt =====
-- A row that can be read and two that cannot.
use Prim.Native.String.{String}
use open_pi.Prelude.{◌≡◌, refl, inl, inr, none, [], ◌∷◌}
use open_pi.Text.{units, text_eq, trim, trim_start, is_space, join}
use open_pi.JsValue.{JsValue, string, array, object, items, end, field, property}
use open_pi.JsValue.Print.{to_string}
use open_pi.MobileData.{
  sealed_message, block_part, blocks_to_text, first_tool, tool_name, transcript_entry,
  load_transcript,
}
use open_pi.MobileData.Readable.{load_transcript-Alike}

abbrev sealed : String → JsValue
sealed s = object (field (units "__enc") (string (units s)) end)

abbrev block : String → String → JsValue
block type s =
    object (field (units "type") (string (units type)) (field (units type) (string (units s)) end))

abbrev readable : JsValue
readable = object (
    field (units "id") (string (units "m1")) (
      field (units "message")
        (object (
          field (units "content") (array (items (block "thinking" "hm" ∷ block "text" "hi" ∷ [])))
            end))
        end))

transcript :
    load_transcript (readable ∷ sealed "x" ∷ [])
    ≡ record {
      id = units "m1";
      role = units "assistant";
      text = units "hi";
      reasoning = units "hm";
      tool_name = none;
      created_at = none;
    }
      ∷ sealed_message
      ∷ []
unfolding load_transcript transcript_entry blocks_to_text block_part first_tool tool_name property
    to_string text_eq trim trim_start is_space join
transcript = refl

load_transcript-Alike_example :
    load_transcript (readable ∷ sealed "x" ∷ []) ≡ load_transcript (readable ∷ sealed "y" ∷ [])
load_transcript-Alike_example =
    load_transcript-Alike (readable ∷ sealed "x" ∷ []) (readable ∷ sealed "y" ∷ [])
      (inl refl, (inr (unfold property text_eq in (refl, refl)), tt))
