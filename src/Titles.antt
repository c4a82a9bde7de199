-- ===== src/Titles.antt =====
-- apps/desktop/web/lib/helpers.ts: `instanceTitle` and `shortWorkspacePath`, what a conversation is
-- called in the list.
pub mod Length
mod Tests
use Prim.Native.String.{String}
use open_pi.Prelude.{
  ℕ, Bool, true, false, not, ◌&&◌, ◌||◌, Option, none, some, List, [], ◌∷◌, ◌++◌, map, any, keep_if,
  span, take, drop, length, if◌then◌else◌, ltb, leb, ◌==◌, or_else,
}
use open_pi.Text.{
  Text, units, text_eq, is_empty, is_space, trim, split, join, starts_with, includes,
}
use open_pi.Text.Tags.{starts_with_i}

-- `cwd.replace(/\\/g, "/")`
abbrev pub normalized : Text → Text
normalized cwd = map (λ c. if c == b'\\' then b'/' else c) cwd

-- `parts.slice(-2)`
unfoldable pub last_two : List Text → List Text
last_two [] = []
last_two (p ∷ []) = p ∷ []
last_two (p ∷ q ∷ []) = p ∷ q ∷ []
last_two (p ∷ q ∷ r ∷ ps) = last_two (q ∷ r ∷ ps)

unfoldable pub short_workspace_path : Text → Text
short_workspace_path cwd =
    let path = normalized cwd in
    let parts = keep_if (λ p. not (is_empty p)) (split b'/' path) in
    if leb (length parts) 2
    then if starts_with path (units "/") then path else cwd
    else join (units "/") (last_two parts)

-- the title of a conversation without a name
unfoldable pub unnamed_title : Option Text → Text
unnamed_title none = units "新对话"
unnamed_title (some cwd) =
    let path = short_workspace_path cwd in
    if is_empty cwd
      || is_empty path
      || any (λ p. text_eq p path) (units "huaan" ∷ units "Users" ∷ units "." ∷ [])
    then units "新对话"
    else path ++ units " 会话"

unfoldable pub skip_spaces : Text → Text
skip_spaces [] = []
skip_spaces (c ∷ s) = if is_space c then skip_spaces s else c ∷ s

-- `/ephemeral\s*subagent/i`
unfoldable pub names_subagent : Text → Bool
names_subagent [] = false
names_subagent (c ∷ s) =
    let later = names_subagent s in
    (starts_with_i (c ∷ s) (units "ephemeral")
      && starts_with_i (skip_spaces (drop 9 (c ∷ s))) (units "subagent"))
    || later

-- what `\s*([^…]+)` captures, for a class that leaves out the units that end it. When no unit of the
-- class follows the white space, a unit of the white space itself is captured, if the class has it.
unfoldable pub captured : (ℕ → Bool) → Text × Text → Option Text
captured ends (spaces, rest) =
    let (body, behind) = span (λ c. not (ends c)) rest in
    if not (is_empty body)
    then some body
    else if any (λ c. not (ends c)) spaces
    then some []
    else none

-- `[:：]` and what follows
unfoldable pub after_colon : (ℕ → Bool) → Text → Option Text
after_colon ends [] = none
after_colon ends (c ∷ s) =
    if c == b':' || c == 0xff1a then captured ends (span is_space s) else none

-- a match at the start of the text, by one of the two words
unfoldable pub field_here : Text → Text → (ℕ → Bool) → Text → Option Text
field_here word word' ends s =
    if starts_with_i s word
    then after_colon ends (drop (length word) s)
    else if starts_with_i s word'
    then after_colon ends (drop (length word') s)
    else none

-- the first match in the text
unfoldable pub find_field : Text → Text → (ℕ → Bool) → Text → Option Text
find_field word word' ends [] = none
find_field word word' ends (c ∷ s) = elim (field_here word word' ends (c ∷ s)) [
  | none ↦ find_field word word' ends s
  | some v ↦ some v
]

abbrev pub ends_line : ℕ → Bool
ends_line c = c == b'\n' || c == b'\r'

-- `/(?:Objective|目标)[:：]\s*([^\n\r.]+)/i`
unfoldable pub objective : Text → Option Text
objective raw = find_field (units "Objective") (units "目标") (λ c. ends_line c || c == b'.') raw

-- `/(?:Role|角色)[:：]\s*([^\n\r]+)/i`
unfoldable pub role_name : Text → Option Text
role_name raw = find_field (units "Role") (units "角色") ends_line raw

-- a name for what was matched, if there is more of it than white space
unfoldable pub labelled : Text → Option Text → Option Text
labelled label none = none
labelled label (some v) = if is_empty (trim v) then none else some (label ++ take 24 (trim v))

-- the title of a subagent
unfoldable pub subagent_title : Text → Text
subagent_title raw =
    or_else (labelled (units "审计: ") (objective raw))
      (or_else (labelled (units "子任务: ") (role_name raw)) (units "后台审计任务"))

-- `s.replace(/\s+/g, " ")`; `inside` tells that the unit before was white space
unfoldable pub squeeze : Bool → Text → Text
squeeze inside [] = []
squeeze inside (c ∷ s) = elim (is_space c) [
  | true ↦ if inside then squeeze true s else b' ' ∷ squeeze true s
  | false ↦ c ∷ squeeze false s
]

unfoldable pub skip_hashes : Text → Text
skip_hashes [] = []
skip_hashes (c ∷ s) = if c == b'#' then skip_hashes s else c ∷ s

-- `s.replace(/^#+\s*/, "")`
unfoldable pub without_heading : Text → Text
without_heading s = if starts_with s (units "#") then skip_spaces (skip_hashes s) else s

abbrev pub is_word_unit : ℕ → Bool
is_word_unit c =
    (leb b'a' c && leb c b'z')
    || (leb b'A' c && leb c b'Z')
    || (leb b'0' c && leb c b'9')
    || c == b'_'

-- the text begins with the word, and the word ends there
unfoldable pub begins_with_word : Text → Text → Bool
begins_with_word s word =
    starts_with_i s word
    && elim (drop (length word) s) [ [] ↦ true | c ∷ rest ↦ not (is_word_unit c) ]

-- `/^(reply|write|say|respond|exactly|ok)\b/i`
unfoldable pub is_test_prompt : Text → Bool
is_test_prompt s = any (begins_with_word s) (
    units "reply"
    ∷ units "write"
    ∷ units "say"
    ∷ units "respond"
    ∷ units "exactly"
    ∷ units "ok"
    ∷ [])

-- `/^(调用|用 |使用)/`
unfoldable pub is_call_prompt : Text → Bool
is_call_prompt s = any (starts_with s) (units "调用" ∷ units "用 " ∷ units "使用" ∷ [])

-- a prompt that stands as a title
unfoldable pub prompt_title : Text → Text
prompt_title title =
    if is_test_prompt title && ltb 28 (length title)
    then units "快速测试"
    else if is_call_prompt title && ltb 28 (length title)
    then take 20 title ++ units "…"
    else title

-- a title of at most 32 units
unfoldable pub shortened : Text → Text
shortened title = if ltb 32 (length title) then take 30 title ++ units "…" else title

unfoldable pub named_title : Text → Text
named_title raw =
    if names_subagent raw
      || includes raw (units "Ephemeral")
      || starts_with raw (units "【Ephemeral")
    then subagent_title raw
    else if includes raw (units "chatgpt.com/share/")
    then units "ChatGPT 导入会话"
    else shortened (prompt_title (without_heading (squeeze false raw)))

-- `a || b || ""`
abbrev pub first_given : Option Text → Option Text → Text
first_given (some (c ∷ s)) b = c ∷ s
first_given _ none = []
first_given _ (some b) = b

abbrev pub is_unnamed : Text → Bool
is_unnamed raw = is_empty raw || text_eq raw (units "新对话")

unfoldable pub instance_title : Option Text → Option Text → Option Text → Text
instance_title label cwd session_name =
    let raw = trim (first_given session_name label) in
    if is_unnamed raw then unnamed_title cwd else named_title raw
