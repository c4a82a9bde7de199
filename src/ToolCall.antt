-- ===== src/ToolCall.antt =====
-- apps/desktop/web/lib/helpers.ts: the calls of tools in a message, their summaries and icons.
use open_pi.Prelude.{
  Bool, false, Option, none, some, List, [], ◌∷◌, ◌++◌, any, flat_map, take, ltb, if◌then◌else◌,
  length, or_else,
}
use open_pi.Text.{Text, units, text_eq}
use open_pi.JsValue.{
  JsValue, Fields, undefined, string, array, object, property, as_string, items_of, or_value,
}
use open_pi.JsValue.Print.{to_string, stringify, stringify_2}
use open_pi.Content.{Message, content_text, is_tool_block}

pub record ToolCall : Type 0 where
  pub name : Text
  pub detail : Option Text

-- `JSON.stringify(input, null, 2)`, where there is an input
abbrev pub call_detail : JsValue → Option Text
call_detail undefined = none
call_detail v = stringify_2 v

-- the call of one block of content
unfoldable pub block_call : JsValue → List ToolCall
block_call (object fs) =
    if is_tool_block (property fs (units "type"))
    then record {
      name = or_else (as_string (property fs (units "name"))) (units "Tool call");
      detail =
          call_detail (or_value (property fs (units "arguments")) (property fs (units "input")));
    }
      ∷ []
    else []
block_call _ = []

-- `text || other`
abbrev pub or_text : Option Text → Text → Text
or_text none other = other
or_text (some []) other = other
or_text (some (c ∷ s)) other = c ∷ s

-- the calls in content that is an array
abbrev pub content_calls : JsValue → List ToolCall
content_calls (array vs) = flat_map block_call (items_of vs)
content_calls _ = []

unfoldable pub tool_calls : Message → List ToolCall
tool_calls m =
    if text_eq m.role (units "toolResult")
    then record {
      name = or_text m.tool_name (units "Tool result");
      detail = some (content_text m.content);
    }
      ∷ []
    else content_calls m.content

unfoldable pub is_tool_call_block : JsValue → Bool
is_tool_call_block (object fs) = is_tool_block (property fs (units "type"))
is_tool_call_block _ = false

-- the name is one of these
abbrev pub one_of : Text → List Text → Bool
one_of name names = any (λ n. text_eq n name) names

-- the first of the properties that is neither `undefined` nor `null`
abbrev pub first_property : Fields → List Text → JsValue
first_property args [] = undefined
first_property args (k ∷ ks) = or_value (property args k) (first_property args ks)

-- `String(args.a ?? args.b ?? "")`
abbrev pub first_string : Fields → List Text → Text
first_string args ks = to_string (or_value (first_property args ks) (string []))

abbrev pub ellipsis : Text
ellipsis = 0x2026 ∷ []

unfoldable pub tool_call_summary : Text → Fields → Text
tool_call_summary name args =
    if one_of name (units "bash" ∷ units "bash_execution" ∷ [])
    then first_string args (units "command" ∷ units "cmd" ∷ [])
    else if one_of name (units "read_file" ∷ units "file_read" ∷ units "read" ∷ [])
    then first_string args (units "path" ∷ units "file" ∷ [])
    else if one_of name (units "write_file" ∷ units "file_write" ∷ [])
    then units "写入 " ++ first_string args (units "path" ∷ units "file" ∷ [])
    else if one_of name (units "glob" ∷ units "search_files" ∷ units "find_files" ∷ [])
    then first_string args (units "pattern" ∷ units "glob" ∷ [])
    else if one_of name (units "subagent" ∷ units "spawn_subagent" ∷ units "launch_subagent" ∷ [])
    then first_string args
        (units "task" ∷ units "description" ∷ units "prompt" ∷ units "title" ∷ [])
    else let s = or_else (stringify (object args)) [] in
      if ltb 100 (length s) then take 97 s ++ ellipsis else s

unfoldable pub tool_call_icon_name : Text → Text
tool_call_icon_name name =
    if one_of name (units "bash" ∷ units "bash_execution" ∷ [])
    then units "terminal"
    else if one_of name (
        units "read_file"
        ∷ units "file_read"
        ∷ units "read"
        ∷ units "write_file"
        ∷ units "file_write"
        ∷ [])
    then units "file"
    else if one_of name (units "glob" ∷ units "search_files" ∷ units "find_files" ∷ [])
    then units "search"
    else if one_of name (units "subagent" ∷ units "spawn_subagent" ∷ units "launch_subagent" ∷ [])
    then units "bot"
    else units "wrench"
