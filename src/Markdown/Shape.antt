-- ===== src/Markdown/Shape.antt =====
-- apps/desktop/web/lib/markdown.tsx: what each block of `splitBlocks` looks like.
use open_pi.Prelude.{
  ℕ, zero, suc, ◌≤◌, ◌≡◌, refl, ap, subst, min, Bool, true, false, not, ◌&&◌, Option, none, some,
  List, [], ◌∷◌, map, span, drop, length, All, leb, arith, Bool-cases, inl, inr, ◌⊎◌,
  if-then_else_lem,
}
use open_pi.Text.{Text, is_empty, trim, trim_start, split, join, starts_with}
use open_pi.Text.Split.{Lacks, split-join, split-Lacks}
use open_pi.Markdown.{
  heading_start, heading_text, heading_of, is_heading_end, after_space, is_hash, quote_rest,
  bullet_rest, is_fence, split_table_row,
}
use open_pi.Recap.{is_terminator}
use open_pi.Markdown.Blocks.{
  Block, code_block, heading, paragraph, list, hr, quote, table, Step, collect, fit_cells,
  table_row, read_code, read_quote, read_table, first_number, ordered_item, read_bullets,
  read_ordered, continues, paragraph_lines, read_paragraph, next_block, with_block, blocks_from,
  split_blocks, source_lines, or_paragraph,
}
use open_pi.Markdown.Fuel.{next_block_lem, collect-some, ordered_item_lem, blocks_of}
use open_pi.Markdown.Behind.{All-span, All-paragraph_lines, All-next_block}
use open_pi.Markdown.Blank.{IsBlank, blocks_of-IsBlank}

abbrev pub IsNonempty {ℓ} : {A : Type ℓ} → List A → Type 0
IsNonempty [] = ⊥
IsNonempty (x ∷ xs) = Unit

-- the predicate holds of every line of the text, as it stands between line breaks
abbrev pub AllLines : (Text → Type 0) → Text → Type 0
AllLines P value = All P (split b'\n' value)

abbrev pub IsSaid : Text → Type 0
IsSaid line = is_empty (trim line) ≡ false

-- the level of a heading is between 1 and 6; a list and a quote have an item; a numbered list starts
-- above 0; the rows of a table are as wide as its header; no line of a paragraph is blank; no line of
-- code is a fence
abbrev pub IsShaped : Block → Type 0
IsShaped (code_block value lang) = AllLines (λ l. is_fence l ≡ false) value
IsShaped (heading level text) = (1 ≤ level) × (level ≤ 6) × IsNonempty text
IsShaped (paragraph value) = AllLines IsSaid value
IsShaped (list items true (some start)) = IsNonempty items × (1 ≤ start)
IsShaped (list items true none) = ⊥
IsShaped (list items false (some start)) = ⊥
IsShaped (list items false none) = IsNonempty items
IsShaped hr = Unit
IsShaped (quote lines) = IsNonempty lines
IsShaped (table headers rows) = All (λ r. length r ≡ length headers) rows

abbrev AllShaped : Step → Type 0
AllShaped (none, rest) = Unit
AllShaped (some b, rest) = IsShaped b

span_code :
    (lines : List Text) → All (λ l. is_fence l ≡ false) (span (λ l. not (is_fence l)) lines).0
span_code [] = tt
span_code (line ∷ lines) = elim (Bool-cases (is_fence line)) [
  | inl fence ↦ rw (fence, span) tt
  | inr code ↦ rw (code, span) (code, span_code lines)
]

collect_takes {ℓ} :
    {A : Type ℓ} (match : Text → Option A) (line : Text) (lines : List Text) (a : A)
    → match line ≡ some a
    → IsNonempty (collect match (line ∷ lines)).0
collect_takes match line lines a found = rw (collect-some match line lines a found) tt

length-fit_cells : (n : ℕ) (cells : List Text) → length (fit_cells n cells) ≡ n
unfolding fit_cells
length-fit_cells zero cells = refl
length-fit_cells (suc n) [] = ap suc (length-fit_cells n [])
length-fit_cells (suc n) (cell ∷ cells) = ap suc (length-fit_cells n cells)

rows_fit : (n : ℕ) (rows : List (List Text)) → All (λ r. length r ≡ n) (map (fit_cells n) rows)
rows_fit n [] = tt
rows_fit n (row ∷ rows) = (length-fit_cells n row, rows_fit n rows)

paragraph_lines-IsSaid : (lines : List Text) → All IsSaid (paragraph_lines lines).0
unfolding paragraph_lines continues
paragraph_lines-IsSaid [] = tt
paragraph_lines-IsSaid (line ∷ lines) =
    if-then_else_lem (λ (p : List Text × List Text). All IsSaid p.0) (continues line lines) _ _
      (λ e. (ground arith, paragraph_lines-IsSaid lines)) (λ e. tt)

-- what is found, if anything, has the property
abbrev InSome {ℓ} : {A : Type ℓ} → (A → Type 0) → Option A → Type 0
InSome P none = Unit
InSome P (some a) = P a

heading_text_lem : (s : Text) → InSome IsNonempty (heading_text s)
unfolding heading_text
heading_text_lem [] = tt
heading_text_lem (c ∷ s) =
    if-then_else_lem (InSome IsNonempty) (is_terminator c) none _ (λ e. tt)
      (λ e.
        if-then_else_lem (InSome IsNonempty) (is_heading_end s) (some (c ∷ [])) _ (λ e. tt)
          (λ e. go (heading_text s)))
  where
    go :
        (o : Option Text) → InSome IsNonempty (elim o [ none ↦ none | some text ↦ some (c ∷ text) ])
    go none = tt
    go (some text) = tt

abbrev IsLevel : ℕ × Text → Type 0
IsLevel p = (1 ≤ p.0) × (p.0 ≤ 6)

heading_start_lem : (s : Text) → InSome IsLevel (heading_start s)
unfolding heading_start
heading_start_lem s =
    if-then_else_lem (InSome IsLevel) (leb 1 level && leb level 6) _ none
      (λ e. go (after_space (span is_hash s).1) (ground arith)) (λ e. tt)
  where
    level : ℕ
    level = length (span is_hash s).0

    go :
        (o : Option Text)
        → (1 ≤ level) × (level ≤ 6)
        → InSome IsLevel (elim o [ none ↦ none | some rest ↦ some (level, rest) ])
    go none h = tt
    go (some rest) h = h

abbrev IsHeading : ℕ × Text → Type 0
IsHeading p = (1 ≤ p.0) × (p.0 ≤ 6) × IsNonempty p.1

heading_of_lem : (s : Text) → InSome IsHeading (heading_of s)
unfolding heading_of
heading_of_lem s = go (heading_start s) (heading_start_lem s)
  where
    inner :
        (level : ℕ) (o : Option Text)
        → (1 ≤ level) × (level ≤ 6)
        → InSome IsNonempty o
        → InSome IsHeading (elim o [ none ↦ none | some text ↦ some (level, text) ])
    inner level none h k = tt
    inner level (some text) (low, high) k = (low, high, k)

    go :
        (o : Option (ℕ × Text))
        → InSome IsLevel o
        → InSome IsHeading (elim o [
          | none ↦ none
          | some (level, rest) ↦ elim (heading_text rest) [
            | none ↦ none
            | some text ↦ some (level, text)
          ]
        ])
    go none h = tt
    go (some (level, rest)) h = inner level (heading_text rest) h (heading_text_lem rest)

at_least_one : (n : ℕ) → 1 ≤ first_number n
at_least_one zero = omega arith
at_least_one (suc n) = omega arith

-- the lines of joined lines, where each of these is one line
module _ (P : Text → Type 0) where
  AllLines-cons :
      (line : Text) (lines : List Text)
      → All (Lacks b'\n') (line ∷ lines)
      → All P (line ∷ lines)
      → AllLines P (join (b'\n' ∷ []) (line ∷ lines))
  AllLines-cons line lines lacks h = rw (split-join b'\n' line lines lacks) h

  AllLines-join :
      (lines : List Text)
      → P []
      → All (Lacks b'\n') lines
      → All P lines
      → AllLines P (join (b'\n' ∷ []) lines)
  AllLines-join [] empty lacks h = unfold join split in (empty, tt)
  AllLines-join (line ∷ lines) empty lacks h = AllLines-cons line lines lacks h

empty_is_code : is_fence [] ≡ false
unfolding is_fence trim_start starts_with
empty_is_code = refl

next_block-AllShaped :
    (line : Text) (lines : List Text)
    → All (Lacks b'\n') (line ∷ lines)
    → AllShaped (next_block line lines)
unfolding read_code read_quote read_table read_bullets read_ordered read_paragraph
next_block-AllShaped line lines (one, lacks) =
    next_block_lem AllShaped line lines
      (AllLines-join (λ l. is_fence l ≡ false) (span code lines).0 empty_is_code
        (All-span (Lacks b'\n') code lines lacks).0 (span_code lines))
      (λ level text e. head level text (subst (InSome IsHeading) e (heading_of_lem (trim line)))) tt
      (λ text e. collect_takes quote_rest line lines text e)
      (rows_fit (length (split_table_row (trim line))) (collect table_row (drop 1 lines)).0)
      (λ item e. collect_takes bullet_rest line lines item e)
      (λ start item e. (
        collect_takes ordered_item line lines item (ordered_item_lem line item start e),
        at_least_one start,
      ))
      (λ blank. tt)
      (λ said.
        AllLines-cons IsSaid line (paragraph_lines lines).0
          (one, (All-paragraph_lines (Lacks b'\n') lines lacks).0)
          (said, paragraph_lines-IsSaid lines))
  where
    code : Text → Bool
    code l = not (is_fence l)

    head :
        (level : ℕ) (text : Text) → IsHeading (level, text) → IsShaped (heading (min 6 level) text)
    head level text (low, high, full) = (omega arith, omega arith, full)

with_block-IsShaped :
    (o : Option Block) (rest : List Text) (bs : List Block)
    → AllShaped (o, rest)
    → All IsShaped bs
    → All IsShaped (with_block o bs)
with_block-IsShaped none rest bs h hs = hs
with_block-IsShaped (some b) rest bs h hs = (h, hs)

blocks_from-IsShaped :
    (fuel : ℕ) (lines : List Text) → All (Lacks b'\n') lines → All IsShaped (blocks_from fuel lines)
unfolding blocks_from
blocks_from-IsShaped zero lines h = tt
blocks_from-IsShaped (suc fuel) [] h = tt
blocks_from-IsShaped (suc fuel) (line ∷ lines) h =
    with_block-IsShaped (next_block line lines).0 (next_block line lines).1 _
      (next_block-AllShaped line lines h)
      (blocks_from-IsShaped fuel (next_block line lines).1
        (All-next_block (Lacks b'\n') line lines h.1))

-- Every block of a text has its shape; or every line of the text is blank, and the text is the only
-- block, as a paragraph.
pub split_blocks-IsShaped :
    (text : Text)
    → All IsShaped (split_blocks text)
      ⊎ (All IsBlank (source_lines text) × (split_blocks text ≡ paragraph text ∷ []))
unfolding split_blocks
split_blocks-IsShaped text =
    go (blocks_of (source_lines text))
      (blocks_from-IsShaped (length (source_lines text)) (source_lines text)
        (unfold source_lines in split-Lacks b'\n' _))
      (blocks_of-IsBlank (source_lines text))
  where
    go :
        (bs : List Block)
        → All IsShaped bs
        → (bs ≡ [] → All IsBlank (source_lines text))
        → All IsShaped (or_paragraph text bs)
          ⊎ (All IsBlank (source_lines text) × (or_paragraph text bs ≡ paragraph text ∷ []))
    go [] h blank = inr (blank refl, refl)
    go (b ∷ bs) h blank = inl h
