-- ===== src/Markdown.antt =====
-- apps/desktop/web/lib/markdown.tsx: what the regular expressions of `splitBlocks` read of a line.
-- A trimmed line is meant where the source trims it.
pub mod Blocks
pub mod Behind
pub mod Blank
pub mod Shape
pub mod Fuel
pub mod Fenced
pub mod Inline
pub mod Links
mod Tests
use Prim.Native.String.{String}
use mathlib.Core.List.{reverse}
use open_pi.Prelude.{
  ℕ, ◌+◌, Bool, true, false, not, ◌&&◌, ◌||◌, Option, none, some, List, [], ◌∷◌, ◌++◌, map, any,
  span, drop, length, leb, ◌==◌, if◌then◌else◌,
}
use open_pi.Text.{Text, units, is_empty, is_space, trim, trim_start, split, starts_with, includes}
use open_pi.Text.Decimal.{is_digit, parse_int}
use open_pi.Recap.{is_terminator}

-- `\s*` skipped
abbrev pub skip : Text → Text
skip s = (span is_space s).1

-- `/^\s+/` and what follows
unfoldable pub after_space : Text → Option Text
after_space s = if is_empty (span is_space s).0 then none else some (skip s)

abbrev pub is_hash : ℕ → Bool
is_hash c = c == b'#'

-- `\s*#*\s*$`
unfoldable pub is_heading_end : Text → Bool
is_heading_end s = is_empty (skip (span is_hash (skip s)).1)

-- `(.+?)\s*#*\s*$`
unfoldable pub heading_text : Text → Option Text
heading_text [] = none
heading_text (c ∷ s) =
    let later = heading_text s in
    if is_terminator c
    then none
    else if is_heading_end s
    then some (c ∷ [])
    else elim later [ none ↦ none | some text ↦ some (c ∷ text) ]

-- `/^(#{1,6})\s+/`: the number of marks, and what follows
unfoldable pub heading_start : Text → Option (ℕ × Text)
heading_start s =
    let level = length (span is_hash s).0 in
    if leb 1 level && leb level 6
    then elim (after_space (span is_hash s).1) [ none ↦ none | some rest ↦ some (level, rest) ]
    else none

-- a heading: its level and its text
unfoldable pub heading_of : Text → Option (ℕ × Text)
heading_of s = elim (heading_start s) [
  | none ↦ none
  | some (level, rest) ↦ elim (heading_text rest) [ none ↦ none | some text ↦ some (level, text) ]
]

-- `c{3,}\s*$`
unfoldable pub is_rule_of : ℕ → Text → Bool
is_rule_of mark s =
    let (marks, rest) = span (λ c. c == mark) s in leb 3 (length marks) && is_empty (skip rest)

unfoldable pub is_rule : Text → Bool
is_rule s = is_rule_of b'-' s || is_rule_of b'*' s || is_rule_of b'_' s

-- what `/^\s*>\s?/` leaves of a line that it matches
unfoldable pub quote_rest : Text → Option Text
quote_rest line = elim (skip line) [
  | [] ↦ none
  | c ∷ s ↦ if c == b'>' then some (without_space s) else none
]
  where
    without_space : Text → Text
    without_space [] = []
    without_space (c ∷ s) = if is_space c then s else c ∷ s

-- what `/^\s*[-*+]\s+/` leaves of a line that it matches
unfoldable pub bullet_rest : Text → Option Text
bullet_rest line = elim (skip line) [
  | [] ↦ none
  | c ∷ s ↦ if c == b'-' || c == b'*' || c == b'+' then after_space s else none
]

-- what `/^\s*(\d+)[.)]\s+/` leaves of a line that it matches, and the number
unfoldable pub ordered_rest : Text → Option (ℕ × Text)
ordered_rest line =
    let (digits, rest) = span is_digit (skip line) in
    if is_empty digits then none else elim rest [
      | [] ↦ none
      | c ∷ s ↦
          if c == b'.' || c == b')'
          then elim (after_space s) [ none ↦ none | some item ↦ some (parse_int digits, item) ]
          else none
    ]

-- `[^\n]*\|.` after the first unit
unfoldable pub has_inner_pipe : Text → Bool
has_inner_pipe [] = false
has_inner_pipe (c ∷ []) = false
has_inner_pipe (c ∷ d ∷ s) =
    let later = has_inner_pipe (d ∷ s) in
    (c == b'|' && not (is_terminator d)) || (not (is_terminator c) && later)

unfoldable pub is_table_row : Text → Bool
is_table_row [] = false
is_table_row (c ∷ s) = includes (c ∷ s) (units "|") && not (is_terminator c) && has_inner_pipe s

-- `:?`
abbrev pub skip_colon : Text → Text
skip_colon [] = []
skip_colon (c ∷ s) = if c == b':' then s else c ∷ s

-- `\s*:?-+:?\s*`
unfoldable pub is_divider_cell : Text → Bool
is_divider_cell cell =
    let (dashes, rest) = span (λ c. c == b'-') (skip_colon (skip cell)) in
    not (is_empty dashes) && is_empty (skip (skip_colon rest))

-- at least so many cells of a divider, then possibly a blank one
unfoldable pub are_divider_cells : ℕ → List Text → Bool
are_divider_cells seen [] = leb 2 seen
are_divider_cells seen (cell ∷ []) =
    (is_divider_cell cell && leb 1 seen) || (is_empty (skip cell) && leb 2 seen)
are_divider_cells seen (cell ∷ next ∷ cells) =
    is_divider_cell cell && are_divider_cells (seen + 1) (next ∷ cells)

-- the text without a pipe at its start
abbrev pub without_pipe : Text → Text
without_pipe [] = []
without_pipe (c ∷ s) = if c == b'|' then s else c ∷ s

unfoldable pub is_table_divider : Text → Bool
is_table_divider line =
    let trimmed = trim line in
    includes trimmed (units "-") && are_divider_cells 0 (split b'|' (without_pipe trimmed))

unfoldable pub split_table_row : Text → List Text
split_table_row trimmed =
    map trim (split b'|' (reverse (without_pipe (reverse (without_pipe trimmed)))))

-- `line.trimStart().startsWith("```")`
unfoldable pub is_fence : Text → Bool
is_fence line = starts_with (trim_start line) (units "```")
