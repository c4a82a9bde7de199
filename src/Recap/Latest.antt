-- ===== src/Recap/Latest.antt =====
-- apps/desktop/web/lib/recap.ts: what the results of `extractRecapAndSuggestions` and
-- `extractLatestSuggestions` are.
use mathlib.Core.List.{reverse}
use open_pi.Prelude.{
  ◌≤◌, ◌≡◌, refl, ap, ◌∙◌, inl, inr, ◌⊎◌, Bool, true, false, not, ◌&&◌, some, List, [], ◌∷◌, ◌++◌,
  any, keep_if, take, length, leb, Bool-cases, Option-cases, arith,
}
use open_pi.Text.{Text, units, text_eq, is_empty, trim, includes}
use open_pi.Recap.{push_new, push_all}
use open_pi.Recap.Milestone.{
  done_words, is_milestone, first_milestone, is_questioning, recap_of, report_lines,
}
use open_pi.Recap.Choices.{choices_of}
use open_pi.Recap.Steps.{commands_of, next_steps_of, tool_suggestions}
use open_pi.Recap.Bounded.{keep_if_kept, IsMenu, cut_suggestions-IsMenu, nil-IsMenu}
use open_pi.Recap.Extract.{
  Todo, next_todo, todo_suggestion, SuggestionContext, candidates, if_none, cut_suggestions,
  extract_recap_and_suggestions, Turn, suggestions_of, latest_from, extract_latest_suggestions,
}

-- For every reply and context there are at most three suggestions, all different, and none is the
-- general one.
pub extract_recap_and_suggestions-IsMenu :
    (text : Text) (context : SuggestionContext)
    → IsMenu (extract_recap_and_suggestions text context).suggestions
unfolding extract_recap_and_suggestions
extract_recap_and_suggestions-IsMenu text context = elim (Bool-cases (is_empty (trim text))) [
  | inl blank ↦ rw blank nil-IsMenu
  | inr full ↦ rw full (cut_suggestions-IsMenu _)
]

-- pushing leaves what comes first in its place
push_all_head :
    (t : Text) (list items : List Text)
    → (rest : List Text) × (push_all (t ∷ list) items ≡ t ∷ rest)
unfolding push_all push_new
push_all_head t list [] = (list, refl)
push_all_head t list (item ∷ items) = elim (Bool-cases (any (λ u. text_eq u item) (t ∷ list))) [
  | inl found ↦ rw found (push_all_head t list items)
  | inr out ↦ rw out (push_all_head t (list ++ item ∷ []) items)
]

-- the cut list begins with what the list begins with
cut_suggestions_head :
    (t : Text) (list : List Text)
    → not (text_eq t (units "继续下一步工作")) ≡ true
    → (rest : List Text) × (cut_suggestions (t ∷ list) ≡ t ∷ rest)
unfolding cut_suggestions
cut_suggestions_head t list general =
    let test : Text → Bool = λ s. not (text_eq s (units "继续下一步工作")) in
    let (all, e) = push_all_head t [] list in
    let first : push_all [] (t ∷ list) ≡ t ∷ all = (unfold push_all push_new in e) in
    (
      take 2 (keep_if test all),
      ap (λ ts. take 3 (keep_if test ts)) first ∙ ap (take 3) (keep_if_kept test t all general),
    )

todo_suggestion_lem :
    (todos : List Todo) (t : Todo)
    → next_todo todos ≡ some t
    → todo_suggestion todos ≡ (units "继续待办：" ++ t.content) ∷ []
unfolding todo_suggestion
todo_suggestion_lem todos t e = rw (e, todo_suggestion) refl

candidates_head :
    (s : Text) (context : SuggestionContext) (t : Todo)
    → next_todo context.todos ≡ some t
    → (rest : List Text) × (candidates s context ≡ (units "继续待办：" ++ t.content) ∷ rest)
unfolding candidates
candidates_head s context t e =
    let label : Text = units "继续待办：" ++ t.content in
    let first : todo_suggestion context.todos ≡ label ∷ [] =
      todo_suggestion_lem context.todos t e in
    let (a, ea) = push_all_head label [] (choices_of s) in
    let (b, eb) = push_all_head label a (next_steps_of s) in
    let (c, ec) = push_all_head label b (commands_of s) in
    let (d, ed) = push_all_head label c (tool_suggestions s context.tool_calls context.is_error) in
    (d, rw (first, ea, eb, ec) ed)

-- If the reply is not blank and a todo is pending or in progress, the first suggestion is to go on
-- with the first such todo.
pub extract_recap_and_suggestions_head :
    (text : Text) (context : SuggestionContext) (t : Todo)
    → is_empty (trim text) ≡ false
    → next_todo context.todos ≡ some t
    → (rest : List Text) × ((extract_recap_and_suggestions text context).suggestions
        ≡ (units "继续待办：" ++ t.content) ∷ rest)
unfolding extract_recap_and_suggestions
extract_recap_and_suggestions_head text context t full e =
    let label : Text = units "继续待办：" ++ t.content in
    let (others, first) = candidates_head (trim text) context t e in
    let (rest, cut) = cut_suggestions_head label others (unfold text_eq in refl) in
    (rest, rw (full, first) cut)

-- a line that reports what is done, of 8 to 140 units, in a reply that does not ask back
abbrev pub IsRecap : Text → Text → Type 0
IsRecap s line =
    (is_questioning s ≡ false)
    × (8 ≤ length line)
    × (length line ≤ 140)
    × (any (includes line) done_words ≡ true)

first_milestone_lem :
    (lines : List Text) (line : Text) → first_milestone lines ≡ some line → is_milestone line ≡ true
unfolding first_milestone
first_milestone_lem [] line h = absurd (cc)
first_milestone_lem (l ∷ lines) line h = let ih = first_milestone_lem lines line in ground arith

is_milestone_lem :
    (s line : Text) → is_questioning s ≡ false → is_milestone line ≡ true → IsRecap s line
unfolding is_milestone
is_milestone_lem s line quiet h = (quiet, ground arith, ground arith, ground arith)

recap_of_lem : (s : Text) → (recap_of s ≡ []) ⊎ IsRecap s (recap_of s)
unfolding recap_of
recap_of_lem s = elim (Bool-cases (not (is_questioning s) && leb 20 (length s))) [
  | inr out ↦ inl (rw out refl)
  | inl long ↦ elim (Option-cases (first_milestone (report_lines s))) [
    | inl out ↦ inl (rw (long, out) refl)
    | inr (line, found) ↦ inr (
        rw (long, found)
          (is_milestone_lem s line (ground arith)
            (first_milestone_lem (report_lines s) line found)))
  ]
]

-- The recap is empty or such a line of the reply.
pub extract_recap_and_suggestions-IsRecap :
    (text : Text) (context : SuggestionContext)
    → ((extract_recap_and_suggestions text context).recap ≡ [])
      ⊎ IsRecap (trim text) (extract_recap_and_suggestions text context).recap
unfolding extract_recap_and_suggestions
extract_recap_and_suggestions-IsRecap text context = elim (Bool-cases (is_empty (trim text))) [
  | inl blank ↦ inl (rw blank refl)
  | inr full ↦ rw full (recap_of_lem (trim text))
]

-- every message of the list gives nothing
abbrev pub Silent : List Todo → List Turn → Type 0
Silent todos [] = Unit
Silent todos (t ∷ earlier) = (suggestions_of todos t earlier ≡ []) × Silent todos earlier

-- the suggestions are those of a message such that no later one gives any; the messages stand from
-- the last to the first
pub data IsLatest (todos : List Todo) : List Turn → List Text → Type 0 where
  here :
      {t : Turn} {earlier : List Turn} {s : Text} {ss : List Text}
      → suggestions_of todos t earlier ≡ s ∷ ss
      → IsLatest todos (t ∷ earlier) (s ∷ ss)
  later_silent :
      {t : Turn} {earlier : List Turn} {ss : List Text}
      → suggestions_of todos t earlier ≡ []
      → IsLatest todos earlier ss
      → IsLatest todos (t ∷ earlier) ss

latest_from-IsLatest :
    (todos : List Todo) (ts : List Turn)
    → ((latest_from todos ts ≡ []) × Silent todos ts) ⊎ IsLatest todos ts (latest_from todos ts)
unfolding latest_from
latest_from-IsLatest todos [] = inl (refl, tt)
latest_from-IsLatest todos (t ∷ earlier) =
    go (suggestions_of todos t earlier) refl (latest_from-IsLatest todos earlier)
  where
    go :
        (own : List Text)
        → suggestions_of todos t earlier ≡ own
        → ((latest_from todos earlier ≡ []) × Silent todos earlier)
          ⊎ IsLatest todos earlier (latest_from todos earlier)
        → ((if_none own (latest_from todos earlier) ≡ []) × Silent todos (t ∷ earlier))
          ⊎ IsLatest todos (t ∷ earlier) (if_none own (latest_from todos earlier))
    go [] e (inl (out, silent)) = inl (out, (e, silent))
    go [] e (inr found) = inr (later_silent e found)
    go (s ∷ ss) e ih = inr (here e)

-- The latest suggestions are those of the last message that gives any, or there are none.
pub extract_latest_suggestions-IsLatest :
    (messages : List Turn) (todos : List Todo)
    → ((extract_latest_suggestions messages todos ≡ []) × Silent todos (reverse messages))
      ⊎ IsLatest todos (reverse messages) (extract_latest_suggestions messages todos)
unfolding extract_latest_suggestions
extract_latest_suggestions-IsLatest messages todos = latest_from-IsLatest todos (reverse messages)
