-- ===== src/Recap/Milestone.antt =====
-- apps/desktop/web/lib/recap.ts, part 7 of `extractRecapAndSuggestions`: the line of a reply that
-- says what was done.
use open_pi.Prelude.{
  Bool, false, not, ◌&&◌, Option, none, some, List, [], ◌∷◌, ◌++◌, map, any, keep_if, flat_map,
  length, leb, if◌then◌else◌, or_else,
}
use open_pi.Text.{Text, units, is_empty, trim, split, join, starts_with, includes}
use open_pi.Recap.{clean_markdown, matches_any, is_between}
use open_pi.Recap.Choices.{is_question_mark}

abbrev pub is_blank_line : Text → Bool
is_blank_line s = is_empty (trim s)

-- a group that is not empty, and the groups behind it
abbrev pub with_group : List Text → List (List Text) → List (List Text)
with_group [] groups = groups
with_group (l ∷ ls) groups = (l ∷ ls) ∷ groups

-- the groups of lines between blank lines; the first argument is the group that is read
unfoldable pub groups_from : List Text → List Text → List (List Text)
groups_from group [] = with_group group []
groups_from group (l ∷ ls) =
    if is_blank_line l
    then with_group group (groups_from [] ls)
    else groups_from (group ++ l ∷ []) ls

-- `s.split(/\n\s*\n/).map((p) => p.trim()).filter(Boolean)`
unfoldable pub paragraphs : Text → List Text
paragraphs s =
    keep_if (λ p. not (is_empty p))
      (map (λ g. trim (join (b'\n' ∷ []) g)) (groups_from [] (split b'\n' s)))

-- `lines[0]`
abbrev pub first_line : List Text → Text
first_line [] = []
first_line (l ∷ ls) = l

abbrev pub future_words : List Text
future_words = units "下一步" ∷ units "后续" ∷ units "建议" ∷ units "Next Steps" ∷ units "Suggestions" ∷ []

-- the paragraph does not begin with what comes next
abbrev pub is_report : Text → Bool
is_report p = not (matches_any future_words (first_line (split b'\n' (trim p))))

-- `/[？?]$/`
unfoldable pub ends_with_question : Text → Bool
ends_with_question [] = false
ends_with_question (c ∷ []) = is_question_mark c
ends_with_question (c ∷ d ∷ s) = ends_with_question (d ∷ s)

abbrev pub plan_words : List Text
plan_words =
    units "为了"
    ∷ units "如果"
    ∷ units "若"
    ∷ units "待"
    ∷ units "将要"
    ∷ units "计划"
    ∷ units "准备"
    ∷ units "建议"
    ∷ units "假设"
    ∷ units "首先"
    ∷ units "可以通过"
    ∷ []

abbrev pub done_words : List Text
done_words =
    units "已完成"
    ∷ units "完整实现"
    ∷ units "已实现"
    ∷ units "已成功"
    ∷ units "已修复"
    ∷ units "全部通过"
    ∷ units "优化完毕"
    ∷ units "已交付"
    ∷ units "重构完成"
    ∷ units "经过排查"
    ∷ units "总结如下"
    ∷ units "总结："
    ∷ units "修复完毕"
    ∷ []

-- the line passes both `continue` and the test of the loop
unfoldable pub is_milestone : Text → Bool
is_milestone line =
    not (ends_with_question line)
    && not (any (starts_with line) plan_words)
    && any (includes line) done_words
    && is_between 8 140 line

-- the first line that passes
unfoldable pub first_milestone : List Text → Option Text
first_milestone [] = none
first_milestone (line ∷ lines) = if is_milestone line then some line else first_milestone lines

-- the lines of a paragraph, without their marks
abbrev pub clean_lines : Text → List Text
clean_lines p = keep_if (λ l. not (is_empty l)) (map clean_markdown (split b'\n' p))

abbrev pub question_words : List Text
question_words =
    units "不太清楚"
    ∷ units "不太确定"
    ∷ units "请提供"
    ∷ units "能提供"
    ∷ units "告诉我更多"
    ∷ units "具体要做什么"
    ∷ units "具体是指"
    ∷ units "具体细节"
    ∷ units "需要您提供"
    ∷ units "请问需要"
    ∷ units "你想使用哪种"
    ∷ units "请确认"
    ∷ []

abbrev pub is_questioning : Text → Bool
is_questioning s = matches_any question_words s

-- the lines that the two loops look at
abbrev pub report_lines : Text → List Text
report_lines s = flat_map clean_lines (keep_if is_report (paragraphs s))

-- the recap of a trimmed reply
unfoldable pub recap_of : Text → Text
recap_of s =
    if not (is_questioning s) && leb 20 (length s)
    then or_else (first_milestone (report_lines s)) []
    else []
