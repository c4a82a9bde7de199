-- ===== src/Recap/Tests.antt =====
-- A reply with choices, a next step, a command and a report.
use open_pi.Prelude.{◌≡◌, refl, false, none, List, [], ◌∷◌, ◌++◌, All}
use open_pi.Text.{
  Text, units, text_eq, starts_with, includes, is_space, trim, trim_start, split, join,
}
use open_pi.Text.Tags.{starts_with_i}
use open_pi.JsValue.{string}
use open_pi.Content.{content_text, visible_message_text}
use open_pi.Text.Tags.{after_block, drop_newlines, remove_with}
use open_pi.Recap.{
  is_lead, clean_markdown, is_first_word, is_command_like, matches_then, comes_before_stop,
  rest_of_line, push_new, push_all,
}
use open_pi.Recap.Choices.{
  has_confirm_question, confirm_choices, after_label, after_option_colon, option_text,
  option_choice, add_option, add_options, asks_to_choose, numbered_text, in_block, choice_line,
  choice_lines, choices_of,
}
use open_pi.Recap.Steps.{
  before_newline, block_body, block_in, shell_block, add_command, commands_from, commands_of,
  is_hash_heading, is_ordinal_heading, is_word_heading, bullet_text, add_step, in_section,
  step_line, step_lines, next_steps_of, tool_suggestions,
}
use open_pi.Recap.Milestone.{
  groups_from, paragraphs, ends_with_question, is_milestone, first_milestone, recap_of,
}
use open_pi.Recap.Extract.{
  extract_latest_suggestions, latest_from, suggestions_of, user_prompt, Todo, SuggestionContext,
  next_todo, todo_suggestion, candidates, cut_suggestions, Turn, extract_recap_and_suggestions,
  extract_latest_suggestions,
}
use open_pi.Recap.Bounded.{IsMenu}
use open_pi.Recap.Latest.{extract_recap_and_suggestions-IsMenu, extract_recap_and_suggestions_head}
use open_pi.Recap.Short.{IsShort, extract_recap_and_suggestions-IsShort}

abbrev nl : Text
nl = b'\n' ∷ []

abbrev reply : Text
reply =
    units "登录模块的问题已修复，共三处。"
    ++ (nl ++ nl)
    ++ units "方案一：只改前端"
    ++ nl
    ++ units "```sh"
    ++ nl
    ++ units "npm test"
    ++ nl
    ++ units "```"
    ++ nl
    ++ units "下一步："
    ++ nl
    ++ units "- 补充测试"

abbrev context : SuggestionContext
context = record { last_user_prompt = []; todos = []; tool_calls = []; is_error = false }

abbrev todo : Todo
todo = record { content = units "发布"; status = units "pending" }

abbrev busy : SuggestionContext
busy = record context { todos = todo ∷ [] }

reply_recap : (extract_recap_and_suggestions reply context).recap ≡ units "登录模块的问题已修复，共三处。"
unfolding extract_recap_and_suggestions recap_of matches_then starts_with_i trim trim_start is_space
    paragraphs groups_from split join first_milestone is_milestone ends_with_question includes
    starts_with clean_markdown is_lead
reply_recap = refl

reply_suggestions :
    (extract_recap_and_suggestions reply context).suggestions
    ≡ units "只改前端" ∷ units "补充测试" ∷ units "npm test" ∷ []
unfolding extract_recap_and_suggestions trim trim_start is_space is_lead clean_markdown
    is_first_word is_command_like matches_then comes_before_stop rest_of_line push_new push_all
    has_confirm_question confirm_choices after_label after_option_colon option_text option_choice
    add_option add_options asks_to_choose numbered_text in_block choice_line choice_lines choices_of
    before_newline block_body block_in shell_block add_command commands_from commands_of
    is_hash_heading is_ordinal_heading is_word_heading bullet_text add_step in_section step_line
    step_lines next_steps_of tool_suggestions next_todo todo_suggestion candidates cut_suggestions
    text_eq starts_with includes starts_with_i split
reply_suggestions = refl

extract_recap_and_suggestions_head_example :
    (rest : List Text) × ((extract_recap_and_suggestions reply busy).suggestions
      ≡ (units "继续待办：" ++ units "发布") ∷ rest)
extract_recap_and_suggestions_head_example =
    extract_recap_and_suggestions_head reply busy todo (unfold trim trim_start is_space in refl)
      (unfold next_todo text_eq in refl)

extract_recap_and_suggestions-IsShort_example :
    All IsShort (extract_recap_and_suggestions reply context).suggestions
extract_recap_and_suggestions-IsShort_example =
    extract_recap_and_suggestions-IsShort reply context (unfold next_todo in refl)

extract_recap_and_suggestions-IsMenu_example :
    IsMenu (extract_recap_and_suggestions reply busy).suggestions
extract_recap_and_suggestions-IsMenu_example = extract_recap_and_suggestions-IsMenu reply busy

abbrev turn : Text → Text → Turn
turn role text = record {
  message = record {
    role = role;
    content = string text;
    tool_name = none;
    reasoning = none;
    is_error = false;
    error_message = none;
  };
  tool_calls = [];
}

abbrev turns : List Turn
turns =
    turn (units "user") (units "请修复登录")
    ∷ turn (units "assistant") reply
    ∷ turn (units "user") (units "谢谢")
    ∷ []

latest_suggestions :
    extract_latest_suggestions turns [] ≡ units "只改前端" ∷ units "补充测试" ∷ units "npm test" ∷ []
unfolding extract_latest_suggestions latest_from suggestions_of user_prompt content_text
    visible_message_text remove_with after_block drop_newlines extract_recap_and_suggestions trim
    trim_start is_space is_lead clean_markdown is_first_word is_command_like matches_then
    comes_before_stop rest_of_line push_new push_all has_confirm_question confirm_choices
    after_label after_option_colon option_text option_choice add_option add_options asks_to_choose
    numbered_text in_block choice_line choice_lines choices_of before_newline block_body block_in
    shell_block add_command commands_from commands_of is_hash_heading is_ordinal_heading
    is_word_heading bullet_text add_step in_section step_line step_lines next_steps_of
    tool_suggestions next_todo todo_suggestion candidates cut_suggestions text_eq starts_with
    includes starts_with_i split
latest_suggestions = refl
