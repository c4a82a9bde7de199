-- ===== src/Recap/Steps.antt =====
-- apps/desktop/web/lib/recap.ts, parts 3 to 5 of `extractRecapAndSuggestions`: the commands, the
-- next steps, and what the calls of tools suggest.
use open_pi.Prelude.{
  ℕ, zero, suc, ◌-◌, Bool, true, false, not, ◌&&◌, ◌||◌, Option, none, some, List, [], ◌∷◌, ◌++◌,
  map, any, keep_if, span, drop, take, length, leb, ◌==◌, if◌then◌else◌,
}
use open_pi.Text.{Text, units, text_eq, is_empty, is_space, trim, split, starts_with, includes}
use open_pi.Text.Decimal.{is_digit}
use open_pi.Text.Tags.{starts_with_i}
use open_pi.Recap.{
  clean_markdown, is_command_like, matches_any, is_terminator, rest_of_line, push_new, is_between,
}
use open_pi.Recap.Choices.{is_colon}

abbrev pub is_newline : ℕ → Bool
is_newline c = c == b'\n'

abbrev pub fence : Text
fence = units "```"

-- the units without the last, which is a newline
unfoldable pub before_newline : Text → Option Text
before_newline [] = none
before_newline (c ∷ []) = if is_newline c then some [] else none
before_newline (c ∷ d ∷ s) = elim (before_newline (d ∷ s)) [
  | none ↦ none
  | some body ↦ some (c ∷ body)
]

-- `\s*\n([^`]+?)\n```` at the start: the body up to white space at its start, and what follows.
-- `white` is the white space at the start and `rest` the text behind it.
unfoldable pub block_body : Text → Text → Option (Text × Text)
block_body white rest =
    let (body, behind) = span (λ c. not (c == b'`')) rest in
    if any is_newline white && starts_with behind fence
    then if is_empty body
      then elim (before_newline white) [
        | none ↦ none
        | some before ↦
            if any is_newline (take (length before - 1) before)
            then some ([], drop 3 behind)
            else none
      ]
      else elim (before_newline body) [ none ↦ none | some text ↦ some (text, drop 3 behind) ]
    else none

-- the match with one of the languages, the first that gives one
unfoldable pub block_in : List Text → Text → Option (Text × Text)
block_in [] s = none
block_in (lang ∷ langs) s =
    let later = block_in langs s in
    if starts_with s lang
    then elim (block_body (span is_space (drop (length lang) s)).0
        (span is_space (drop (length lang) s)).1) [ none ↦ later | some found ↦ some found ]
    else later

abbrev pub languages : List Text
languages = units "bash" ∷ units "sh" ∷ units "shell" ∷ units "zsh" ∷ units "console" ∷ [] ∷ []

-- a block of code at the start of the text
unfoldable pub shell_block : Text → Option (Text × Text)
shell_block s = if starts_with s fence then block_in languages (drop 3 s) else none

-- `commands.push` for a block with one line, which is a short command
unfoldable pub add_command : List Text → Text → List Text
add_command commands body =
    elim (keep_if (λ l. not (is_empty l)) (map trim (split b'\n' (trim body)))) [
      | [] ↦ commands
      | cmd ∷ [] ↦
          if is_command_like cmd && leb (length cmd) 45 then push_new commands cmd else commands
      | cmd ∷ next ∷ rest ↦ commands
    ]

-- the loop over the matches; the fuel bounds the units of the text
unfoldable pub commands_from : ℕ → List Text → Text → List Text
commands_from zero commands s = commands
commands_from (suc fuel) commands [] = commands
commands_from (suc fuel) commands (c ∷ s) = elim (shell_block (c ∷ s)) [
  | none ↦ commands_from fuel commands s
  | some (body, behind) ↦ commands_from fuel (add_command commands body) behind
]

unfoldable pub commands_of : Text → List Text
commands_of s = commands_from (length s) [] s

abbrev pub heading_words : List Text
heading_words = units "下一步" ∷ units "后续" ∷ units "建议" ∷ units "接下来" ∷ []

-- `^#+\s*.*(?:…|Next Steps)`
unfoldable pub is_hash_heading : Text → Bool
is_hash_heading line =
    let body = (span is_space (span (λ c. c == b'#') line).1).1 in
    starts_with line (units "#")
    && matches_any (units "Next Steps" ∷ heading_words) (span (λ c. not (is_terminator c)) body).0

-- `[一二三四五六\d]`
abbrev pub is_ordinal : ℕ → Bool
is_ordinal c =
    c == 0x4e00
    || c == 0x4e8c
    || c == 0x4e09
    || c == 0x56db
    || c == 0x4e94
    || c == 0x516d
    || is_digit c

-- `[、.：:]\s*(?:…)`
abbrev pub is_ordinal_rest : Text → Bool
is_ordinal_rest [] = false
is_ordinal_rest (c ∷ s) =
    (c == 0x3001 || c == b'.' || is_colon c)
    && any (starts_with_i (span is_space s).1) heading_words

-- `^(?:[一二三四五六\d]+)[、.：:]\s*(?:…)`
unfoldable pub is_ordinal_heading : Text → Bool
is_ordinal_heading line =
    let (ordinals, rest) = span is_ordinal line in not (is_empty ordinals) && is_ordinal_rest rest

-- `^(?:…|你可以尝试)[：:]`
unfoldable pub is_word_heading : Text → Bool
is_word_heading line =
    any (λ w. starts_with_i line (w ++ units "：") || starts_with_i line (w ++ units ":"))
      (units "你可以尝试" ∷ heading_words)

abbrev pub is_heading : Text → Bool
is_heading line = is_hash_heading line || is_ordinal_heading line || is_word_heading line

-- `[-*•\d.]`
abbrev pub is_bullet : ℕ → Bool
is_bullet c = c == b'-' || c == b'*' || c == 0x2022 || is_digit c || c == b'.'

-- `line.match(/^[-*•\d.]+\s*(.+)$/)?.[1]`; of a line of bullets alone the last is captured
unfoldable pub bullet_text : Text → Option Text
bullet_text line =
    let (bullets, rest) = span is_bullet line in
    if is_empty bullets
    then none
    else if is_empty rest
    then if leb 2 (length bullets) then some (drop (length bullets - 1) bullets) else none
    else rest_of_line rest

-- the state of the loop over the lines
pub record Section : Type 0 where
  pub inside : Bool
  pub steps : List Text

unfoldable pub add_step : Section → Text → Section
add_step s text =
    let item = clean_markdown text in
    if is_between 2 32 item then record s { steps = push_new s.steps item } else s

-- what a line of the section does, with what it matches
unfoldable pub in_section : Section → Text → Option Text → Section
in_section s line (some text) = add_step s text
in_section s line none =
    if is_empty line || starts_with line (units "#") then record s { inside = false } else s

-- one round, on a trimmed line
unfoldable pub step_line : Section → Text → Section
step_line s line =
    if is_heading line
    then record s { inside = true }
    else if s.inside
    then in_section s line (bullet_text line)
    else s

unfoldable pub step_lines : Section → List Text → Section
step_lines s [] = s
step_lines s (line ∷ lines) = step_lines (step_line s (trim line)) lines

unfoldable pub next_steps_of : Text → List Text
next_steps_of s = (step_lines (record { inside = false; steps = [] }) (split b'\n' s)).steps

-- a call of a tool, as far as it is read
pub record ToolRun : Type 0 where
  pub name : Text
  pub status : Option Text

abbrev pub has_status : Text → ToolRun → Bool
has_status t r = elim r.status [ none ↦ false | some s ↦ text_eq s t ]

-- some call is one of these tools
abbrev pub uses_tool : List Text → List ToolRun → Bool
uses_tool names runs = any (λ r. any (text_eq r.name) names) runs

unfoldable pub tool_suggestions : Text → List ToolRun → Bool → List Text
tool_suggestions s runs is_error =
    if is_error || any (has_status (units "error")) runs
    then units "分析并修复工具执行报错" ∷ []
    else if uses_tool (units "edit" ∷ units "write" ∷ []) runs
    then units "查看 git diff 确认文件修改"
      ∷ (if includes s (units "测试")
            || includes s (units "test")
            || matches_any (units "spec" ∷ units "test" ∷ []) s
          then units "运行测试用例验证改动" ∷ []
          else [])
    else if uses_tool (units "grep" ∷ units "find" ∷ units "code_search" ∷ []) runs
    then units "继续分析相关模块的具体实现" ∷ []
    else []
