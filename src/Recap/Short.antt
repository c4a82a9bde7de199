-- ===== src/Recap/Short.antt =====
-- apps/desktop/web/lib/recap.ts: the length of what `extractRecapAndSuggestions` suggests.
use open_pi.Prelude.{
  ℕ, zero, suc, ◌≤◌, ◌≡◌, refl, sym, subst, inl, inr, Bool, not, ◌&&◌, ◌||◌, if◌then◌else◌, Option,
  none, some, List, [], ◌∷◌, map, keep_if, length, leb, Bool-cases, Option-cases, All, arith,
  or_else, if-then_else_lem,
}
use open_pi.Text.{Text, units, is_empty, trim, split, starts_with}
use open_pi.Recap.{push_new, clean_markdown, is_command_like, is_between}
use open_pi.Recap.Choices.{
  word_here, first_word, action_verbs, has_confirm_question, confirm_choices, option_text,
  option_choice, first_clause, add_option, add_options, numbered_text, numbered_choice, ChoiceBlock,
  add_numbered, asks_to_choose, in_block, choice_line, choice_lines, choices_of,
}
use open_pi.Recap.Steps.{
  ToolRun, shell_block, add_command, commands_from, commands_of, is_heading, bullet_text, Section,
  add_step, in_section, step_line, step_lines, next_steps_of, tool_suggestions,
}
use open_pi.Recap.Bounded.{length-take, push_new-All, push_all-All, cut_suggestions-All}
use open_pi.Recap.Extract.{
  next_todo, todo_suggestion, SuggestionContext, candidates, fallbacks, if_none,
  extract_recap_and_suggestions,
}

-- at most 45 units
abbrev pub IsShort : Text → Type 0
IsShort t = length t ≤ 45

-- what one word of the list has
module _ (P : Text → Type 0) where
  word_here_lem : (words : List Text) (s w : Text) → All P words → word_here words s ≡ some w → P w
  unfolding word_here
  word_here_lem [] s w h e = absurd (cc)
  word_here_lem (v ∷ words) s w (p, ps) e = elim (Bool-cases (starts_with s v)) [
    | inl begins ↦ let same : v ≡ w = ground arith in subst P same p
    | inr other ↦ word_here_lem words s w ps (ground arith)
  ]

  first_word_lem :
      (words : List Text) (s w : Text) → All P words → first_word words s ≡ some w → P w
  unfolding first_word
  first_word_lem words [] w h e = absurd (cc)
  first_word_lem words (c ∷ s) w h e = elim (Option-cases (word_here words (c ∷ s))) [
    | inl out ↦ first_word_lem words s w h (ground arith)
    | inr (v, found) ↦
        let same : v ≡ w = ground arith in subst P same (word_here_lem words (c ∷ s) v h found)
  ]

verb_lem : (s : Text) → length (or_else (first_word action_verbs s) (units "执行")) ≤ 2
verb_lem s = elim (Option-cases (first_word action_verbs s)) [
  | inl out ↦ rw out (omega arith)
  | inr (w, found) ↦
      rw found (first_word_lem (λ v. length v ≤ 2) action_verbs s w (ground arith) found)
]

confirm_choices-IsShort : (s : Text) → All IsShort (confirm_choices s)
unfolding confirm_choices
confirm_choices-IsShort s =
    if-then_else_lem (All IsShort) (has_confirm_question s) _ []
      (λ h. (omega (arith, verb_lem s), (omega arith, tt))) (λ h. tt)

option_choice-IsShort : (text : Text) → IsShort (option_choice text)
unfolding option_choice
option_choice-IsShort text =
    if-then_else_lem IsShort (is_between 2 28 (trim (first_clause (clean_markdown text)))) _ _
      (λ h. ground arith) (λ h. omega (arith, length-take 28 (clean_markdown text)))

add_option-IsShort :
    (choices : List Text) (line : Text)
    → All IsShort choices
    → All IsShort (add_option choices line)
unfolding add_option
add_option-IsShort choices line h = elim (Option-cases (option_text (trim line))) [
  | inl out ↦ rw (out, add_option) h
  | inr (text, found) ↦
      rw (found, add_option)
        (if-then_else_lem (All IsShort) (is_empty (option_choice text)) choices _ (λ e. h)
          (λ e. push_new-All IsShort choices (option_choice text) h (option_choice-IsShort text)))
]

add_options-IsShort :
    (lines choices : List Text) → All IsShort choices → All IsShort (add_options choices lines)
unfolding add_options
add_options-IsShort [] choices h = h
add_options-IsShort (line ∷ lines) choices h =
    add_options-IsShort lines (add_option choices line) (add_option-IsShort choices line h)

add_numbered-IsShort :
    (b : ChoiceBlock) (text : Text) → All IsShort b.found → All IsShort (add_numbered b text).found
unfolding add_numbered numbered_choice
add_numbered-IsShort b text h =
    if-then_else_lem (λ x. All IsShort x.found) (leb 2 (length (numbered_choice text))) _ b
      (λ e.
        push_new-All IsShort b.found (numbered_choice text) h
          (omega (arith, length-take 28 (trim (first_clause (clean_markdown text))))))
      (λ e. h)

in_block-IsShort :
    (b : ChoiceBlock) (line : Text) (found : Option Text)
    → All IsShort b.found
    → All IsShort (in_block b line found).found
unfolding in_block
in_block-IsShort b line (some text) h = add_numbered-IsShort b text h
in_block-IsShort b line none h =
    if-then_else_lem (λ x. All IsShort x.found) (is_empty line || starts_with line (units "#")) _ b
      (λ e. h) (λ e. h)

choice_line-IsShort :
    (b : ChoiceBlock) (line : Text) → All IsShort b.found → All IsShort (choice_line b line).found
unfolding choice_line
choice_line-IsShort b line h =
    if-then_else_lem (λ (x : ChoiceBlock). All IsShort x.found) (asks_to_choose line) _ _ (λ e. h)
      (λ e.
        if-then_else_lem (λ (x : ChoiceBlock). All IsShort x.found) b.inside _ b
          (λ inside. in_block-IsShort b line (numbered_text line) h) (λ outside. h))

choice_lines-IsShort :
    (lines : List Text) (b : ChoiceBlock)
    → All IsShort b.found
    → All IsShort (choice_lines b lines).found
unfolding choice_lines
choice_lines-IsShort [] b h = h
choice_lines-IsShort (line ∷ lines) b h =
    choice_lines-IsShort lines (choice_line b (trim line)) (choice_line-IsShort b (trim line) h)

choices_of-IsShort : (s : Text) → All IsShort (choices_of s)
unfolding choices_of
choices_of-IsShort s =
    choice_lines-IsShort (split b'\n' s) _
      (add_options-IsShort (split b'\n' s) (confirm_choices s) (confirm_choices-IsShort s))

add_command-IsShort :
    (commands : List Text) (body : Text)
    → All IsShort commands
    → All IsShort (add_command commands body)
unfolding add_command
add_command-IsShort commands body h =
    go (keep_if (λ l. not (is_empty l)) (map trim (split b'\n' (trim body))))
  where
    go :
        (lines : List Text)
        → All IsShort (elim lines [
          | [] ↦ commands
          | cmd ∷ [] ↦
              if is_command_like cmd && leb (length cmd) 45 then push_new commands cmd else commands
          | cmd ∷ next ∷ rest ↦ commands
        ])
    go [] = h
    go (cmd ∷ []) =
        if-then_else_lem (All IsShort) (is_command_like cmd && leb (length cmd) 45) _ commands
          (λ e. push_new-All IsShort commands cmd h (ground arith)) (λ e. h)
    go (cmd ∷ next ∷ rest) = h

commands_from-IsShort :
    (fuel : ℕ) (commands : List Text) (s : Text)
    → All IsShort commands
    → All IsShort (commands_from fuel commands s)
unfolding commands_from
commands_from-IsShort zero commands s h = h
commands_from-IsShort (suc fuel) commands [] h = h
commands_from-IsShort (suc fuel) commands (c ∷ s) h = elim (Option-cases (shell_block (c ∷ s))) [
  | inl out ↦ rw (out, commands_from) (commands_from-IsShort fuel commands s h)
  | inr ((body, behind), found) ↦
      rw (found, commands_from)
        (commands_from-IsShort fuel (add_command commands body) behind
          (add_command-IsShort commands body h))
]

add_step-IsShort :
    (s : Section) (text : Text) → All IsShort s.steps → All IsShort (add_step s text).steps
unfolding add_step
add_step-IsShort s text h =
    if-then_else_lem (λ (x : Section). All IsShort x.steps) (is_between 2 32 (clean_markdown text))
      _ s (λ e. push_new-All IsShort s.steps (clean_markdown text) h (ground arith)) (λ e. h)

in_section-IsShort :
    (s : Section) (line : Text) (found : Option Text)
    → All IsShort s.steps
    → All IsShort (in_section s line found).steps
unfolding in_section
in_section-IsShort s line (some text) h = add_step-IsShort s text h
in_section-IsShort s line none h =
    if-then_else_lem (λ (x : Section). All IsShort x.steps)
      (is_empty line || starts_with line (units "#")) _ s (λ e. h) (λ e. h)

step_line-IsShort :
    (s : Section) (line : Text) → All IsShort s.steps → All IsShort (step_line s line).steps
unfolding step_line
step_line-IsShort s line h =
    if-then_else_lem (λ (x : Section). All IsShort x.steps) (is_heading line) _ _ (λ e. h)
      (λ e.
        if-then_else_lem (λ (x : Section). All IsShort x.steps) s.inside _ s
          (λ inside. in_section-IsShort s line (bullet_text line) h) (λ outside. h))

step_lines-IsShort :
    (lines : List Text) (s : Section) → All IsShort s.steps → All IsShort (step_lines s lines).steps
unfolding step_lines
step_lines-IsShort [] s h = h
step_lines-IsShort (line ∷ lines) s h =
    step_lines-IsShort lines (step_line s (trim line)) (step_line-IsShort s (trim line) h)

tool_suggestions-IsShort :
    (s : Text) (runs : List ToolRun) (is_error : Bool)
    → All IsShort (tool_suggestions s runs is_error)
unfolding tool_suggestions
tool_suggestions-IsShort s runs is_error = ground arith

fallbacks-IsShort : (s prompt : Text) → All IsShort (fallbacks s prompt)
unfolding fallbacks
fallbacks-IsShort s prompt = ground arith

if_none-IsShort :
    (own other : List Text) → All IsShort own → All IsShort other → All IsShort (if_none own other)
if_none-IsShort [] other h k = k
if_none-IsShort (t ∷ ts) other h k = h

candidates-IsShort :
    (s : Text) (context : SuggestionContext)
    → next_todo context.todos ≡ none
    → All IsShort (candidates s context)
unfolding candidates todo_suggestion next_steps_of commands_of
candidates-IsShort s context e =
    push_all-All IsShort _ _
      (push_all-All IsShort _ _
        (push_all-All IsShort _ _
          (push_all-All IsShort _ _ (subst (All IsShort) (sym nothing) tt) (choices_of-IsShort s))
          steps)
        (commands_from-IsShort (length s) [] s tt))
      (tool_suggestions-IsShort s context.tool_calls context.is_error)
  where
    nothing : todo_suggestion context.todos ≡ []
    nothing = rw (e, todo_suggestion) refl

    steps : All IsShort (next_steps_of s)
    steps = step_lines-IsShort (split b'\n' s) _ tt

-- Without a todo that is to be done, no suggestion has more than 45 units.
pub extract_recap_and_suggestions-IsShort :
    (text : Text) (context : SuggestionContext)
    → next_todo context.todos ≡ none
    → All IsShort (extract_recap_and_suggestions text context).suggestions
unfolding extract_recap_and_suggestions
extract_recap_and_suggestions-IsShort text context e = elim (Bool-cases (is_empty (trim text))) [
  | inl blank ↦ rw blank tt
  | inr full ↦ rw full (
      cut_suggestions-All IsShort _ (
        if_none-IsShort (candidates (trim text) context) _
          (candidates-IsShort (trim text) context e)
          (fallbacks-IsShort (trim text) (trim context.last_user_prompt))))
]
