-- ===== src/ToolAction.antt =====
-- apps/desktop/web/lib/helpers.ts: `formatActionItem`, how the action of a tool is told.
pub mod Detail
pub mod Trajectory
pub mod Badges
pub mod Counts
use Prim.Native.String.{String}
use open_pi.Prelude.{
  ℕ, ◌+◌, Bool, true, false, not, ◌&&◌, ◌||◌, Option, none, some, List, [], ◌∷◌, ◌++◌, map, any,
  keep_if, flat_map, take, drop, ltb, if◌then◌else◌, ◌==◌, length, or_else, is_some, span,
}
use open_pi.Text.{Text, units, text_eq, is_empty, trim, split, includes, starts_with, to_lower}
use open_pi.Text.Tags.{cut_at}
use open_pi.Text.Decimal.{show}
use open_pi.JsValue.{
  JsValue, Items, Fields, undefined, null, boolean, number, string, array, object, end, keys,
  property, as_string, items_of, is_text, or_value,
}
use open_pi.JsValue.Print.{to_string, stringify, stringify_2}
use open_pi.Content.{Message, content_text, is_tool_block}
use open_pi.ToolCall.{first_property, ellipsis}
use open_pi.ToolPath.{clean_path}

pub data ActionType : Type 0 where
  read write edit bash search' other : ActionType

pub record ActionItem : Type 0 where
  pub action_type : ActionType
  pub verb : Text
  pub target : Text
  pub badge : Option Text

-- the path among the arguments, cleaned, or nothing
unfoldable pub get_path : Fields → Text
get_path args =
    elim (as_string (
      first_property args (
        units "path"
        ∷ units "file_path"
        ∷ units "filePath"
        ∷ units "targetFile"
        ∷ units "TargetFile"
        ∷ units "AbsolutePath"
        ∷ units "file"
        ∷ []))) [ none ↦ [] | some raw ↦ clean_path raw ]

-- `a ?? b`, as a template writes it, where it is not `undefined`
abbrev pub defined_text : JsValue → Option Text
defined_text undefined = none
defined_text v = some (to_string v)

-- the value of `a ?? b ?? c`: the last one where the others are missing
abbrev pub or_last : Fields → Text → List Text → JsValue
or_last args k [] = property args k
or_last args k (l ∷ ks) = or_value (property args k) (or_last args l ks)

unfoldable pub get_line_range : Fields → Text
get_line_range args =
    let start =
      defined_text (or_last args (units "startLine") (units "StartLine" ∷ units "line" ∷ [])) in
    let stop = defined_text (or_last args (units "endLine") (units "EndLine" ∷ [])) in
    elim start [
      | none ↦ []
      | some s ↦ elim stop [ none ↦ units "#L" ++ s | some e ↦ units "#L" ++ (s ++ (b'-' ∷ e)) ]
    ]

abbrev pub check_mark : Text
check_mark = 0x2713 ∷ []

-- `isError ? "failed" : output !== undefined ? "✓" : undefined`
abbrev pub simple_badge : Option Text → Bool → Option Text
simple_badge output true = some (units "failed")
simple_badge none false = none
simple_badge (some text) false = some check_mark

unfoldable pub result_badge : Option Text → Bool → Option Text
result_badge output true = some (units "failed")
result_badge none false = none
result_badge (some text) false =
    let trimmed = trim text in
    let lines = length (split b'\n' trimmed) in
    if is_empty trimmed
    then some check_mark
    else if ltb 1 lines
    then some (show lines ++ units " results")
    else some check_mark

abbrev pub includes_any : Text → List Text → Bool
includes_any name words = any (includes name) words

-- the five kinds of tools that are known, by what the name in lower case includes
unfoldable pub action_type_of : Text → ActionType
action_type_of lower =
    if includes_any lower
      (units "bash" ∷ units "terminal" ∷ units "run_command" ∷ units "exec" ∷ [])
    then bash
    else if includes_any lower (units "read" ∷ units "view" ∷ units "cat" ∷ [])
    then read
    else if includes_any lower (units "edit" ∷ units "replace" ∷ units "patch" ∷ [])
    then edit
    else if includes_any lower (units "write" ∷ units "create" ∷ units "save" ∷ [])
    then write
    else if includes_any lower (units "search" ∷ units "grep" ∷ units "find" ∷ units "glob" ∷ [])
    then search'
    else other

abbrev pub text_or : Text → Text → Text
text_or [] other' = other'
text_or (c ∷ s) other' = c ∷ s

-- the command among the arguments, trimmed
unfoldable pub command_text : Fields → Text
command_text args =
    let command =
      or_value
        (first_property args
          (units "command" ∷ units "cmd" ∷ units "CommandLine" ∷ units "commandLine" ∷ []))
        (string []) in
    trim (or_else (as_string command) [])

-- a command, cut to 70 units
unfoldable pub shown_command : Text → Text
shown_command cmd =
    if is_empty cmd
    then units "command"
    else if ltb 70 (length cmd)
    then take 67 cmd ++ units "..."
    else cmd

abbrev pub command_target : Fields → Text
command_target args = shown_command (command_text args)

unfoldable pub read_target : Fields → Text
read_target args =
    let path = get_path args in
    let lines = get_line_range args in
    if is_empty path then units "file" else path ++ (if is_empty lines then [] else b' ' ∷ lines)

-- the query among the arguments
unfoldable pub search_query : Fields → Text
search_query args =
    or_else
      (as_string (
        first_property args
          (units "query" ∷ units "pattern" ∷ units "Query" ∷ units "Pattern" ∷ units "term" ∷ [])))
      []

unfoldable pub search_target : Fields → Text
search_target args =
    let query = search_query args in
    if is_empty query
    then text_or (get_path args) (units "codebase")
    else b'"' ∷ (query ++ b'"' ∷ [])

abbrev pub has_keys : Fields → Bool
has_keys end = false
has_keys _ = true

unfoldable pub other_target : Fields → Text
other_target args =
    text_or (get_path args)
      (if has_keys args then take 50 (or_else (stringify (object args)) []) else [])

-- the item for a tool of a kind
unfoldable pub action_item : ActionType → Text → Fields → Option Text → Bool → ActionItem
action_item bash name args output is_error = record {
  action_type = bash;
  verb = units "Ran";
  target = command_target args;
  badge = simple_badge output is_error;
}
action_item read name args output is_error = record {
  action_type = read;
  verb = units "Analyzed";
  target = read_target args;
  badge = simple_badge output is_error;
}
action_item edit name args output is_error = record {
  action_type = edit;
  verb = units "Edited";
  target = text_or (get_path args) (units "file");
  badge = simple_badge output is_error;
}
action_item write name args output is_error = record {
  action_type = write;
  verb = units "Wrote";
  target = text_or (get_path args) (units "file");
  badge = simple_badge output is_error;
}
action_item search' name args output is_error = record {
  action_type = search';
  verb = units "Searched";
  target = search_target args;
  badge = result_badge output is_error;
}
action_item other name args output is_error = record {
  action_type = other;
  verb = text_or name (units "Called");
  target = other_target args;
  badge = simple_badge output is_error;
}

unfoldable pub format_action_item : Text → Option Fields → Option Text → Bool → ActionItem
format_action_item name args output is_error =
    action_item (action_type_of (to_lower name)) name (or_else args end) output is_error
