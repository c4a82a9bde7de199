-- ===== src/Markdown/Blocks.antt =====
-- apps/desktop/web/lib/markdown.tsx: `splitBlocks`, which reads a text as a list of blocks.
use open_pi.Prelude.{
  ℕ, zero, suc, min, Bool, true, false, not, ◌&&◌, Option, none, some, List, [], ◌∷◌, map, span,
  drop, length, is_some, ◌==◌, if◌then◌else◌,
}
use open_pi.Text.{Text, units, is_empty, trim, trim_start, split, join, starts_with}
use open_pi.Markdown.{
  heading_start, heading_of, is_rule, quote_rest, bullet_rest, ordered_rest, is_table_row,
  is_table_divider, split_table_row, is_fence,
}

pub data Block : Type 0 where
  code_block : Text → Option Text → Block
  heading : ℕ → Text → Block
  paragraph : Text → Block
  list : List Text → Bool → Option ℕ → Block
  hr : Block
  quote : List Text → Block
  table : List Text → List (List Text) → Block

-- a block that was read, if any, and the lines behind it
abbrev pub Step : Type 0
Step = Option Block × List Text

-- the lines that match, up to the first that does not, and the others
unfoldable pub collect {ℓ} : {A : Type ℓ} → (Text → Option A) → List Text → List A × List Text
collect match [] = ([], [])
collect match (line ∷ lines) =
    let (found, rest) = collect match lines in
    elim (match line) [ none ↦ ([], line ∷ lines) | some a ↦ (a ∷ found, rest) ]

-- the one branch with what was found, or the other
abbrev pub match_or {ℓ κ} : {A : Type ℓ} {B : Type κ} → Option A → (A → B) → B → B
match_or none f b = b
match_or (some a) f b = f a

-- `lang || undefined`
abbrev pub language : Text → Option Text
language line =
    if is_empty (trim (drop 3 (trim_start line)))
    then none
    else some (trim (drop 3 (trim_start line)))

unfoldable pub read_code : Text → List Text → Step
read_code line lines =
    let (body, rest) = span (λ l. not (is_fence l)) lines in
    (some (code_block (join (b'\n' ∷ []) body) (language line)), drop 1 rest)

unfoldable pub read_quote : List Text → Step
read_quote lines = let (found, rest) = collect quote_rest lines in (some (quote found), rest)

-- the cells padded and cut to the width of the header
unfoldable pub fit_cells : ℕ → List Text → List Text
fit_cells zero cells = []
fit_cells (suc n) [] = [] ∷ fit_cells n []
fit_cells (suc n) (cell ∷ cells) = cell ∷ fit_cells n cells

abbrev pub table_row : Text → Option (List Text)
table_row line = if is_table_row (trim line) then some (split_table_row (trim line)) else none

abbrev pub starts_with_divider : List Text → Bool
starts_with_divider [] = false
starts_with_divider (line ∷ lines) = is_table_divider line

-- a table row with a divider behind it
abbrev pub starts_table : Text → List Text → Bool
starts_table line lines = is_table_row (trim line) && starts_with_divider lines

unfoldable pub read_table : Text → List Text → Step
read_table line lines =
    let headers = split_table_row (trim line) in
    let (rows, rest) = collect table_row (drop 1 lines) in
    (some (table headers (map (fit_cells (length headers)) rows)), rest)

unfoldable pub read_bullets : List Text → Step
read_bullets lines =
    let (found, rest) = collect bullet_rest lines in (some (list found false none), rest)

-- `Number(digits) || 1`
abbrev pub first_number : ℕ → ℕ
first_number zero = 1
first_number (suc n) = suc n

-- the item of a numbered line
abbrev pub ordered_item : Text → Option Text
ordered_item line = match_or (ordered_rest line) (λ (start, item). some item) none

unfoldable pub read_ordered : ℕ → List Text → Step
read_ordered start lines =
    let (found, rest) = collect ordered_item lines in
    (some (list found true (some (first_number start))), rest)

-- the line goes on with the paragraph
unfoldable pub continues : Text → List Text → Bool
continues line lines =
    not (is_empty (trim line))
    && not (is_fence line)
    && not (is_some (bullet_rest line))
    && not (is_some (ordered_rest line))
    && not (is_some (heading_start (trim line)))
    && not (is_some (quote_rest line))
    && not (is_rule (trim line))
    && not (starts_table line lines)

unfoldable pub paragraph_lines : List Text → List Text × List Text
paragraph_lines [] = ([], [])
paragraph_lines (line ∷ lines) =
    let (found, rest) = paragraph_lines lines in
    if continues line lines then (line ∷ found, rest) else ([], line ∷ lines)

unfoldable pub read_paragraph : Text → List Text → Step
read_paragraph line lines =
    let (found, rest) = paragraph_lines lines in
    (some (paragraph (join (b'\n' ∷ []) (line ∷ found))), rest)

-- one round of the loop, on a line and those behind it
unfoldable pub next_block : Text → List Text → Step
next_block line lines =
    if starts_with (trim line) (units "```")
    then read_code line lines
    else match_or (heading_of (trim line))
        (λ (level, text). (some (heading (min 6 level) text), lines))
        (if is_rule (trim line)
          then (some hr, lines)
          else match_or (quote_rest line) (λ text. read_quote (line ∷ lines))
              (if starts_table line lines
                then read_table line lines
                else match_or (bullet_rest line) (λ item. read_bullets (line ∷ lines))
                    (match_or (ordered_rest line)
                      (λ (start, item). read_ordered start (line ∷ lines))
                      (if is_empty (trim line) then (none, lines) else read_paragraph line lines))))

abbrev pub with_block : Option Block → List Block → List Block
with_block none blocks = blocks
with_block (some b) blocks = b ∷ blocks

-- the loop; the fuel bounds the lines
unfoldable pub blocks_from : ℕ → List Text → List Block
blocks_from zero lines = []
blocks_from (suc fuel) [] = []
blocks_from (suc fuel) (line ∷ lines) =
    let (block, rest) = next_block line lines in with_block block (blocks_from fuel rest)

-- `s.replace(/\r\n/g, "\n")`
unfoldable pub plain_newlines : Text → Text
plain_newlines [] = []
plain_newlines (c ∷ []) = c ∷ []
plain_newlines (c ∷ d ∷ s) =
    let later = plain_newlines (d ∷ s) in if c == b'\r' && d == b'\n' then later else c ∷ later

unfoldable pub source_lines : Text → List Text
source_lines text = split b'\n' (plain_newlines text)

abbrev pub or_paragraph : Text → List Block → List Block
or_paragraph text [] = paragraph text ∷ []
or_paragraph text (b ∷ bs) = b ∷ bs

unfoldable pub split_blocks : Text → List Block
split_blocks text = or_paragraph text (blocks_from (length (source_lines text)) (source_lines text))
