-- ===== src/Recap/Extract.antt =====
-- apps/desktop/web/lib/recap.ts: `extractRecapAndSuggestions`, part 6 and the result, and
-- `extractLatestSuggestions`.
use mathlib.Core.List.{reverse}
use open_pi.Prelude.{
  Bool, false, not, ◌&&◌, ◌||◌, Option, none, some, List, [], ◌∷◌, ◌++◌, any, keep_if, take, length,
  leb, if◌then◌else◌,
}
use open_pi.Text.{Text, units, text_eq, is_empty, trim, includes}
use open_pi.Content.{Message, content_text, visible_message_text}
use open_pi.Recap.{matches_any, push_all}
use open_pi.Recap.Choices.{choices_of}
use open_pi.Recap.Steps.{ToolRun, commands_of, next_steps_of, tool_suggestions}
use open_pi.Recap.Milestone.{is_questioning, recap_of}

pub record Todo : Type 0 where
  pub content : Text
  pub status : Text

pub record SuggestionContext : Type 0 where
  pub last_user_prompt : Text
  pub todos : List Todo
  pub tool_calls : List ToolRun
  pub is_error : Bool

pub record Advice : Type 0 where
  pub recap : Text
  pub suggestions : List Text

-- the first todo that is pending or in progress
unfoldable pub next_todo : List Todo → Option Todo
next_todo [] = none
next_todo (t ∷ ts) =
    if text_eq t.status (units "pending") || text_eq t.status (units "in_progress")
    then some t
    else next_todo ts

unfoldable pub todo_suggestion : List Todo → List Text
todo_suggestion todos = elim (next_todo todos) [
  | none ↦ []
  | some t ↦ (units "继续待办：" ++ t.content) ∷ []
]

-- `/(word|word)/` without the flag `i`
abbrev pub includes_any_of : List Text → Text → Bool
includes_any_of words s = any (includes s) words

abbrev pub reason_words : List Text
reason_words = units "为什么" ∷ units "原理" ∷ units "机制" ∷ units "怎么实现" ∷ units "解释" ∷ units "介绍" ∷ []

abbrev pub rework_words : List Text
rework_words = units "重构" ∷ units "优化" ∷ units "性能" ∷ []

abbrev pub repo_words : List Text
repo_words =
    units "github" ∷ units "repo" ∷ units "项目" ∷ units "开源" ∷ units "仓库" ∷ units "router" ∷ []

-- what is suggested when nothing else is
unfoldable pub fallbacks : Text → Text → List Text
fallbacks s prompt =
    if is_questioning s
    then units "按推荐的最佳实践继续推进" ∷ units "补充更详细的上下文信息" ∷ []
    else if includes_any_of reason_words prompt
    then units "深入讲解核心底层原理" ∷ units "提供具体的工程使用示例" ∷ []
    else if includes_any_of rework_words s && includes_any_of rework_words prompt
    then units "分析边界条件与性能影响" ∷ []
    else if includes_any_of (units "测试" ∷ units "验证" ∷ []) s
    then units "运行测试用例验证改动" ∷ []
    else if matches_any repo_words prompt
        || matches_any (units "github.com" ∷ units "项目" ∷ units "开源" ∷ []) s
    then units "对比各项目的优缺点与适用场景" ∷ units "深入查看推荐项目的源码实现" ∷ []
    else []

-- `if (suggestions.length === 0)`
abbrev pub if_none : List Text → List Text → List Text
if_none [] other = other
if_none (t ∷ ts) other = t ∷ ts

-- the candidates by their priority
unfoldable pub candidates : Text → SuggestionContext → List Text
candidates s context =
    let first = todo_suggestion context.todos in
    let more = push_all first (choices_of s) in
    let steps = push_all more (next_steps_of s) in
    let commands = push_all steps (commands_of s) in
    push_all commands (tool_suggestions s context.tool_calls context.is_error)

-- `[...new Set(suggestions)].filter((s) => s !== "继续下一步工作").slice(0, 3)`
unfoldable pub cut_suggestions : List Text → List Text
cut_suggestions suggestions =
    take 3 (keep_if (λ s. not (text_eq s (units "继续下一步工作"))) (push_all [] suggestions))

unfoldable pub extract_recap_and_suggestions : Text → SuggestionContext → Advice
extract_recap_and_suggestions text context =
    let s = trim text in
    if is_empty s then record { recap = []; suggestions = [] } else record {
      recap = recap_of s;
      suggestions =
          cut_suggestions
            (if_none (candidates s context) (fallbacks s (trim context.last_user_prompt)));
    }

-- a message of the conversation with the calls of tools that belong to it
pub record Turn : Type 0 where
  pub message : Message
  pub tool_calls : List ToolRun

abbrev pub has_role : Text → Turn → Bool
has_role role t = text_eq t.message.role role

abbrev pub visible_of : Turn → Text
visible_of t = visible_message_text (content_text t.message.content)

-- the visible text of the first message of the user
unfoldable pub user_prompt : List Turn → Text
user_prompt [] = []
user_prompt (t ∷ ts) = if has_role (units "user") t then visible_of t else user_prompt ts

-- `Boolean(m.isError || m.errorMessage)`
abbrev pub has_failed : Turn → Bool
has_failed t =
    t.message.is_error || elim t.message.error_message [ none ↦ false | some e ↦ not (is_empty e) ]

-- what one message gives, with the earlier messages from the last to the first
unfoldable pub suggestions_of : List Todo → Turn → List Turn → List Text
suggestions_of todos t earlier =
    if has_role (units "assistant") t && leb 10 (length (visible_of t))
    then (extract_recap_and_suggestions (visible_of t) (record {
      last_user_prompt = user_prompt earlier;
      todos = todos;
      tool_calls = t.tool_calls;
      is_error = has_failed t;
    })).suggestions
    else []

-- the loop, over the messages from the last to the first
unfoldable pub latest_from : List Todo → List Turn → List Text
latest_from todos [] = []
latest_from todos (t ∷ earlier) =
    if_none (suggestions_of todos t earlier) (latest_from todos earlier)

unfoldable pub extract_latest_suggestions : List Turn → List Todo → List Text
extract_latest_suggestions messages todos = latest_from todos (reverse messages)
