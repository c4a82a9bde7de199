-- ===== src/RunningTool.antt =====
-- apps/desktop/web/lib/helpers.ts: what is shown of a tool that runs, `getRunningToolDetail` and
-- `getRunningToolOutput`. `JSON.parse` is a parameter: what it gives for a text, `none` where it
-- throws.
pub mod Detail
use Prim.Native.String.{String}
use open_pi.Prelude.{
  ℕ, Bool, true, false, not, ◌&&◌, ◌||◌, Option, none, some, List, [], ◌∷◌, ◌++◌, any,
  if◌then◌else◌, ltb, take, length, or_else,
}
use open_pi.Text.{Text, units, text_eq, is_empty, trim, to_lower}
use open_pi.JsValue.{
  JsValue, Items, Fields, undefined, null, boolean, number, string, array, object, nil, cons, end,
  field, property, get, as_string, as_array, items_of, is_text, or_value,
}
use open_pi.JsValue.Print.{stringify, stringify_2}
use open_pi.ToolPath.{clean_path}
use open_pi.ToolCall.{one_of}

pub record RunningTool : Type 0 where
  pub tool_name : Text
  pub args : JsValue
  pub partial_result : JsValue
  pub result : JsValue

pub record RunningToolDetail : Type 0 where
  pub summary : Text
  pub command : Option Text
  pub cwd : Option Text
  pub is_command : Bool
  pub file_path : Option Text
  pub query : Option Text
  pub raw_args : Option Text

-- a value that is an object, arrays included, as `typeof` and truth have it
abbrev pub object_like : JsValue → Option JsValue
object_like (object fs) = some (object fs)
object_like (array vs) = some (array vs)
object_like _ = none

-- the arguments as an object, parsed where they are a text
unfoldable pub args_of : (Text → Option JsValue) → JsValue → Option JsValue
args_of parse (string s) = elim (parse s) [ none ↦ none | some v ↦ object_like v ]
args_of parse v = object_like v

unfoldable pub is_command_tool : Text → Bool
is_command_tool tool_name = one_of (to_lower tool_name) (
    units "bash"
    ∷ units "terminal"
    ∷ units "run_command"
    ∷ units "execute_command"
    ∷ units "exec"
    ∷ [])

-- the first of the properties that is a string
unfoldable pub first_string_property : JsValue → List Text → Option Text
first_string_property args [] = none
first_string_property args (k ∷ ks) = elim (as_string (get args k)) [
  | none ↦ first_string_property args ks
  | some s ↦ some s
]

unfoldable pub command_of : RunningTool → Option JsValue → Option Text
command_of tool none = if is_command_tool tool.tool_name then as_string tool.args else none
command_of tool (some args) = first_string_property args (
    units "command" ∷ units "cmd" ∷ units "CommandLine" ∷ units "commandLine" ∷ units "script" ∷ [])

-- the properties of the arguments, where there are any
abbrev pub property_of : Option JsValue → List Text → Option Text
property_of none ks = none
property_of (some args) ks = first_string_property args ks

abbrev pub file_keys : List Text
file_keys =
    units "path"
    ∷ units "file"
    ∷ units "filePath"
    ∷ units "targetFile"
    ∷ units "TargetFile"
    ∷ units "AbsolutePath"
    ∷ []

abbrev pub query_keys : List Text
query_keys = units "pattern" ∷ units "query" ∷ units "prompt" ∷ []

-- a text that is there and not empty, changed by `f`
abbrev pub mapped_text : (Text → Text) → Option Text → Option Text
mapped_text f none = none
mapped_text f (some []) = none
mapped_text f (some (c ∷ s)) = some (f (c ∷ s))

-- `Object.keys(args).length > 0`
abbrev pub has_entries : JsValue → Bool
has_entries (object (field k v fs)) = true
has_entries (array (cons v vs)) = true
has_entries _ = false

unfoldable pub args_summary : Text → Option JsValue → Text
args_summary tool_name none = tool_name
args_summary tool_name (some args) =
    let text = or_else (stringify args) [] in
    if has_entries args
    then if ltb 80 (length text) then take 77 text ++ units "..." else text
    else tool_name

-- the first text that is there: the command, the path, the query, or a summary of the arguments
unfoldable pub summary_of : Option Text → Option Text → Option Text → Text → Text
summary_of (some command) file query rest = command
summary_of none (some file) query rest = file
summary_of none none (some query) rest = query
summary_of none none none rest = rest

unfoldable pub get_running_tool_detail : (Text → Option JsValue) → RunningTool → RunningToolDetail
get_running_tool_detail parse tool =
    let args = args_of parse tool.args in
    let command = mapped_text trim (command_of tool args) in
    let file_path = mapped_text clean_path (property_of args file_keys) in
    let query = mapped_text trim (property_of args query_keys) in
    record {
      summary = summary_of command file_path query (args_summary tool.tool_name args);
      command = command;
      cwd = property_of args (units "cwd" ∷ units "Cwd" ∷ []);
      is_command = is_command_tool tool.tool_name;
      file_path = file_path;
      query = query;
      raw_args = elim args [ none ↦ as_string tool.args | some v ↦ stringify_2 v ];
    }

-- the text of the first block of text
unfoldable pub first_text : List JsValue → Option Text
first_text [] = none
first_text (v ∷ vs) =
    if is_text (get v (units "type")) (units "text")
    then as_string (get v (units "text"))
    else first_text vs

-- what `getRunningToolOutput` does: it returns a text or nothing, or throws
pub data Output : Type 0 where
  returned : Option Text → Output
  thrown : Output

-- `obj.content?.find(…)?.text`, where it is a text that is not empty; a content that is there and
-- no array has no `find`
abbrev pub content_output : JsValue → Output
content_output undefined = returned none
content_output null = returned none
content_output (array vs) = returned (mapped_text (λ s. s) (first_text (items_of vs)))
content_output _ = thrown

unfoldable pub value_output : JsValue → Output
value_output undefined = returned none
value_output null = returned none
value_output (boolean b) = returned none
value_output (number n) = returned none
value_output (string s) = returned (mapped_text (λ t. t) (some s))
value_output v =
    elim (first_string_property v (units "text" ∷ units "stdout" ∷ units "output" ∷ [])) [
      | none ↦ content_output (get v (units "content"))
      | some s ↦ returned (some s)
    ]

unfoldable pub get_running_tool_output : RunningTool → Output
get_running_tool_output tool = value_output (or_value tool.partial_result tool.result)
