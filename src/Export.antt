-- ===== src/Export.antt =====
-- apps/desktop/web/lib/export-markdown.ts: a message as Markdown, and the name of the file that a
-- conversation is exported to. `toLowerCase` and the date are parameters of the name.
pub mod Filename
pub mod Conversation
mod Tests
use Prim.Native.String.{String}
use open_pi.Prelude.{
  ℕ, Bool, true, false, not, ◌&&◌, ◌||◌, Option, none, some, List, [], ◌∷◌, ◌++◌, any, flat_map,
  if◌then◌else◌, ltb, ◌==◌, length,
}
use open_pi.Text.{Text, units, text_eq, is_empty, is_space, trim, join, starts_with}
use open_pi.Text.Tags.{cut_at, find_block, remove_all, starts_with_i}
use open_pi.Text.Decimal.{show}
use open_pi.Content.{Message, content_text, visible_message_text, content_images, message_reasoning}
use open_pi.ToolCall.{ToolCall, tool_calls}

pub record MessageOptions : Type 0 where
  pub include_reasoning : Bool
  pub include_tool_calls : Bool
  pub include_tool_results : Bool

-- a sign and the selector that has it drawn as a picture
abbrev pub pictured : String → Text
pictured sign = units sign ++ 0xfe0f ∷ []

abbrev pub lines_of : List Text → Text
lines_of lines = join (b'\n' ∷ []) lines

-- the lines, unless the text is empty
abbrev pub unless_empty : Text → List Text → List Text
unless_empty text lines = if is_empty text then [] else lines

-- `text?.trim()`, empty where there is no text
abbrev pub trimmed : Option Text → Text
trimmed none = []
trimmed (some s) = trim s

unfoldable pub attachment_lines : Text → List Text
attachment_lines raw_text =
    let body = trimmed (
      find_block starts_with (units "<openpi-attachments>") (units "</openpi-attachments>")
        raw_text) in
    unless_empty body (
      []
      ∷ units "<details>"
      ∷ units "<summary>📎 Attached Documents</summary>"
      ∷ []
      ∷ units "```"
      ∷ body
      ∷ units "```"
      ∷ units "</details>"
      ∷ [])

unfoldable pub image_lines : ℕ → List Text
image_lines n =
    if ltb 0 n
    then []
      ∷ (units "> "
          ++ (pictured "🖼"
              ++ (units " *["
                  ++ (show n
                      ++ (units " image attachment"
                          ++ ((if ltb 1 n then units "s" else []) ++ units "]*"))))))
      ∷ []
    else []

unfoldable pub user_lines : Message → List Text
user_lines m =
    let raw_text = content_text m.content in
    let visible = visible_message_text raw_text in
    units "## 👤 User"
    ∷ []
    ∷ (unless_empty visible (visible ∷ [])
        ++ (attachment_lines raw_text ++ image_lines (length (content_images m.content))))

unfoldable pub reasoning_lines : Text → List Text
reasoning_lines reasoning = unless_empty reasoning (
    units "<details>"
    ∷ units "<summary>💭 Thinking Process</summary>"
    ∷ []
    ∷ reasoning
    ∷ []
    ∷ units "</details>"
    ∷ []
    ∷ [])

-- the lines of one call
unfoldable pub call_lines : ToolCall → List Text
call_lines call = (units "- **" ++ (call.name ++ units "**")) ∷ elim call.detail [
  | none ↦ []
  | some detail ↦ unless_empty detail (units "```json" ∷ detail ∷ units "```" ∷ [])
]

unfoldable pub calls_lines : List ToolCall → List Text
calls_lines [] = []
calls_lines (call ∷ calls) =
    units "<details>"
    ∷ (units "<summary>"
        ++ (pictured "🛠"
            ++ (units " Tool Calls (" ++ (show (length (call ∷ calls)) ++ units ")</summary>"))))
    ∷ []
    ∷ (flat_map call_lines (call ∷ calls) ++ units "</details>" ∷ [] ∷ [])

-- what is left behind a match of `<think>[\s\S]*?(?:<\/think>|$)` at the start of the text
unfoldable pub after_think : Text → Option Text
after_think s =
    if starts_with_i s (units "<think>")
    then elim (cut_at starts_with_i (units "</think>") s) [
      | none ↦ some []
      | some (body, behind) ↦ some behind
    ]
    else none

-- the text of `errorMessage`, or another one where there is none
abbrev pub message_or : Option Text → Text → Text
message_or none other = other
message_or (some s) other = if is_empty s then other else s

unfoldable pub error_lines : Message → List Text
error_lines m =
    let given = message_or m.error_message [] in
    if m.is_error || not (is_empty given)
    then []
      ∷ (units "> "
          ++ (pictured "⚠"
              ++ (units " **Error**: " ++ message_or m.error_message (units "Unknown error"))))
      ∷ []
    else []

unfoldable pub assistant_lines : Message → MessageOptions → List Text
assistant_lines m options =
    let clean_text = trim (remove_all after_think (content_text m.content)) in
    units "## 🤖 OpenPI"
    ∷ []
    ∷ ((if options.include_reasoning then reasoning_lines (message_reasoning m) else [])
        ++ ((if options.include_tool_calls then calls_lines (tool_calls m) else [])
            ++ (unless_empty clean_text (clean_text ∷ []) ++ error_lines m)))

unfoldable pub result_lines : Message → List Text
result_lines m =
    let detail = content_text m.content in
    (units "### "
      ++ (pictured "🛠" ++ (units " Tool Result: " ++ message_or m.tool_name (units "Tool"))))
    ∷ []
    ∷ ((if m.is_error
          then (units "> " ++ (pictured "⚠" ++ units " **Tool execution failed**")) ∷ [] ∷ []
          else [])
        ++ unless_empty detail (units "```" ∷ detail ∷ units "```" ∷ []))

unfoldable pub format_message_to_markdown : Message → MessageOptions → Text
format_message_to_markdown m options =
    if text_eq m.role (units "user")
    then lines_of (user_lines m)
    else if text_eq m.role (units "assistant")
    then lines_of (assistant_lines m options)
    else if text_eq m.role (units "toolResult")
    then (if options.include_tool_results then lines_of (result_lines m) else [])
    else if text_eq m.role (units "system")
    then units "> " ++ (pictured "ℹ" ++ (units " **System**: " ++ content_text m.content))
    else []

-- the units that no file name holds
abbrev pub forbidden : Text
forbidden = units "\\/:*?\"<>|"

abbrev pub is_forbidden : ℕ → Bool
is_forbidden c = any (λ d. d == c) forbidden

abbrev pub is_dash : ℕ → Bool
is_dash c = c == b'-'

-- `s.replace(/[…]+/g, "-")`, for the units that pass the test; `inside` tells that the unit before
-- passed it
unfoldable pub replace_runs : (ℕ → Bool) → Bool → Text → Text
replace_runs p inside [] = []
replace_runs p inside (c ∷ s) = elim (p c) [
  | true ↦ if inside then replace_runs p true s else b'-' ∷ replace_runs p true s
  | false ↦ c ∷ replace_runs p false s
]

-- `^-`
unfoldable pub drop_first_dash : Text → Text
drop_first_dash [] = []
drop_first_dash (c ∷ s) = if is_dash c then s else c ∷ s

-- `-$`
unfoldable pub drop_last_dash : Text → Text
drop_last_dash [] = []
drop_last_dash (c ∷ []) = if is_dash c then [] else c ∷ []
drop_last_dash (c ∷ d ∷ s) = c ∷ drop_last_dash (d ∷ s)

unfoldable pub sanitized : (Text → Text) → Text → Text
sanitized lower raw_title = drop_last_dash (
    drop_first_dash (
      replace_runs is_dash false
        (replace_runs is_space false (replace_runs is_forbidden false (lower (trim raw_title))))))

-- `sessionName || label || "conversation"`
unfoldable pub raw_title_of : Option Text → Option Text → Text
raw_title_of session_name label = message_or session_name (message_or label (units "conversation"))

unfoldable pub generate_export_filename : (Text → Text) → Option Text → Option Text → Text → Text
generate_export_filename lower session_name label date =
    message_or (some (sanitized lower (raw_title_of session_name label))) (units "conversation")
    ++ (units "-" ++ (date ++ units ".md"))
