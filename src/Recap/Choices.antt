-- ===== src/Recap/Choices.antt =====
-- apps/desktop/web/lib/recap.ts, part 2 of `extractRecapAndSuggestions`: the choices that a reply
-- offers. A line is trimmed before it is matched.
use open_pi.Prelude.{
  ℕ, Bool, true, false, not, ◌&&◌, ◌||◌, Option, none, some, List, [], ◌∷◌, ◌++◌, map, span, drop,
  take, length, leb, ◌==◌, if◌then◌else◌, or_else,
}
use open_pi.Text.{Text, units, is_empty, is_space, trim, split, starts_with}
use open_pi.Text.Tags.{starts_with_i}
use open_pi.Recap.{
  clean_markdown, matches_then, comes_before_stop, rest_of_line, push_new, is_between,
}

-- the words with the same beginning
abbrev pub prefixed : Text → List Text → List Text
prefixed begin words = map (λ w. begin ++ w) words

abbrev pub confirm_words : List Text
confirm_words =
    prefixed (units "是否")
      (units "开始" ∷ units "立即" ∷ units "确认" ∷ units "需要我" ∷ units "现在" ∷ units "进行" ∷ [])
    ++ (prefixed (units "要不要") (units "开始" ∷ units "立即" ∷ units "现在" ∷ units "进行" ∷ [])
        ++ (prefixed (units "确认") agreed ++ prefixed (units "同意") agreed))
  where
    agreed : List Text
    agreed = units "开始吗" ∷ units "执行吗" ∷ units "修改吗" ∷ units "提交吗" ∷ units "继续吗" ∷ []

abbrev pub is_question_mark : ℕ → Bool
is_question_mark c = c == 0xff1f || c == b'?'

abbrev pub is_colon : ℕ → Bool
is_colon c = c == 0xff1a || c == b':'

unfoldable pub has_confirm_question : Text → Bool
has_confirm_question s = matches_then confirm_words (comes_before_stop is_question_mark) s

-- the word of the list that the text begins with
unfoldable pub word_here : List Text → Text → Option Text
word_here [] s = none
word_here (w ∷ ws) s = if starts_with s w then some w else word_here ws s

-- the first match of `/(word|word)/`
unfoldable pub first_word : List Text → Text → Option Text
first_word words [] = none
first_word words (c ∷ s) = elim (word_here words (c ∷ s)) [
  | none ↦ first_word words s
  | some w ↦ some w
]

abbrev pub action_verbs : List Text
action_verbs =
    units "重构"
    ∷ units "修改"
    ∷ units "提交"
    ∷ units "继续"
    ∷ units "优化"
    ∷ units "部署"
    ∷ units "运行"
    ∷ units "修复"
    ∷ []

unfoldable pub confirm_choices : Text → List Text
confirm_choices s =
    if has_confirm_question s
    then (units "确认，开始" ++ or_else (first_word action_verbs s) (units "执行"))
      ∷ units "先不执行，查看方案细节"
      ∷ []
    else []

-- `[1-4A-D]` with the flag `i`
abbrev pub is_label : ℕ → Bool
is_label c = (leb b'1' c && leb c b'4') || (leb b'A' c && leb c b'D') || (leb b'a' c && leb c b'd')

-- what follows a unit of the class
abbrev pub after_unit : (ℕ → Bool) → Text → Option Text
after_unit test [] = none
after_unit test (c ∷ s) = if test c then some s else none

-- `[A-D][.、]` with the flag `i`
abbrev pub after_letter : Text → Option Text
after_letter [] = none
after_letter (c ∷ s) =
    if (leb b'A' c && leb c b'D') || (leb b'a' c && leb c b'd')
    then after_unit (λ d. d == b'.' || d == 0x3001) s
    else none

-- what follows the label of an option
unfoldable pub after_label : Text → Option Text
after_label line =
    if starts_with line (units "方案")
    then after_unit (λ c. c == 0x4e00 || c == 0x4e8c || c == 0x4e09 || c == 0x56db || is_label c)
        (drop 2 line)
    else if starts_with_i line (units "Option")
    then after_unit is_label (span is_space (drop 6 line)).1
    else after_letter line

-- `[：:]?\s*(.+)$`; a colon with nothing behind it is captured itself
unfoldable pub after_option_colon : Text → Option Text
after_option_colon [] = none
after_option_colon (c ∷ s) =
    if is_colon c && not (is_empty (span is_space s).1)
    then rest_of_line s
    else rest_of_line (c ∷ s)

-- `lineTrim.match(optionPattern)?.[1]`
unfoldable pub option_text : Text → Option Text
option_text line = elim (after_label line) [
  | none ↦ none
  | some rest ↦ after_option_colon (span is_space rest).1
]

-- `s.split(/[，。；;]/)[0]`
abbrev pub first_clause : Text → Text
first_clause s = (span (λ c. not (c == 0xff0c || c == 0x3002 || c == 0xff1b || c == b';')) s).0

unfoldable pub option_choice : Text → Text
option_choice text =
    let cleaned = clean_markdown text in
    let core = trim (first_clause cleaned) in if is_between 2 28 core then core else take 28 cleaned

-- one round of the loop over the lines
unfoldable pub add_option : List Text → Text → List Text
add_option choices line = elim (option_text (trim line)) [
  | none ↦ choices
  | some text ↦
      if is_empty (option_choice text) then choices else push_new choices (option_choice text)
]

unfoldable pub add_options : List Text → List Text → List Text
add_options choices [] = choices
add_options choices (line ∷ lines) = add_options (add_option choices line) lines

abbrev pub prompt_words : List Text
prompt_words =
    units "请选择"
    ∷ units "你可以选择"
    ∷ units "提供以下几种"
    ∷ units "有两个方案"
    ∷ units "有以下几种"
    ∷ units "以下选项"
    ∷ units "偏好哪种"
    ∷ units "选择哪一个"
    ∷ units "可供选择"
    ∷ units "几种方案"
    ∷ []

unfoldable pub asks_to_choose : Text → Bool
asks_to_choose line =
    matches_then prompt_words (comes_before_stop (λ c. is_colon c || is_question_mark c)) line

-- `line.match(/^[1-4][.、)]\s*(.+)$/)?.[1]`
unfoldable pub numbered_text : Text → Option Text
numbered_text [] = none
numbered_text (c ∷ s) =
    if leb b'1' c && leb c b'4'
    then elim (after_unit (λ d. d == b'.' || d == 0x3001 || d == b')') s) [
      | none ↦ none
      | some rest ↦ rest_of_line rest
    ]
    else none

unfoldable pub numbered_choice : Text → Text
numbered_choice text = take 28 (trim (first_clause (clean_markdown text)))

-- the state of the loop over the lines
pub record ChoiceBlock : Type 0 where
  pub inside : Bool
  pub found : List Text

unfoldable pub add_numbered : ChoiceBlock → Text → ChoiceBlock
add_numbered b text =
    if leb 2 (length (numbered_choice text))
    then record b { found = push_new b.found (numbered_choice text) }
    else b

-- what a line of the block does, with what it matches
unfoldable pub in_block : ChoiceBlock → Text → Option Text → ChoiceBlock
in_block b line (some text) = add_numbered b text
in_block b line none =
    if is_empty line || starts_with line (units "#") then record b { inside = false } else b

-- one round, on a trimmed line
unfoldable pub choice_line : ChoiceBlock → Text → ChoiceBlock
choice_line b line =
    if asks_to_choose line
    then record b { inside = true }
    else if b.inside
    then in_block b line (numbered_text line)
    else b

unfoldable pub choice_lines : ChoiceBlock → List Text → ChoiceBlock
choice_lines b [] = b
choice_lines b (line ∷ lines) = choice_lines (choice_line b (trim line)) lines

-- all choices of a trimmed reply
unfoldable pub choices_of : Text → List Text
choices_of s =
    let lines = split b'\n' s in
    (choice_lines (record { inside = false; found = add_options (confirm_choices s) lines })
      lines).found
