-- ===== src/Markdown/Fuel.antt =====
-- apps/desktop/web/lib/markdown.tsx: the branches of the loop of `splitBlocks`, and the lines that a
-- round takes.
use open_pi.Prelude.{
  ℕ, zero, suc, ◌≤◌, ◌≡◌, refl, ap, min, Bool, true, false, not, Option, none, some, List, [], ◌∷◌,
  span, drop, length, arith, Bool-cases, Option-cases, inl, inr, if-then_else_lem,
}
use open_pi.Text.{Text, units, is_empty, trim, starts_with}
use open_pi.Markdown.{heading_of, is_rule, quote_rest, bullet_rest, ordered_rest, is_fence}
use open_pi.Markdown.Blocks.{
  Block, Step, collect, match_or, read_code, read_quote, starts_table, table_row, read_table,
  ordered_item, read_bullets, read_ordered, continues, paragraph_lines, read_paragraph, next_block,
  with_block, blocks_from, hr, heading,
}

match_or_lem {ℓ κ μ} :
    {A : Type ℓ} {B : Type κ} (P : B → Type μ) (o : Option A) (f : A → B) (b : B)
    → ((a : A) → o ≡ some a → P (f a))
    → P b
    → P (match_or o f b)
match_or_lem P none f b h k = k
match_or_lem P (some a) f b h k = h a refl

-- what holds of every branch holds of the round
pub next_block_lem :
    (P : Step → Type 0) (line : Text) (lines : List Text)
    → P (read_code line lines)
    → ((level : ℕ) (text : Text)
        → heading_of (trim line) ≡ some (level, text)
        → P (some (heading (min 6 level) text), lines))
    → P (some hr, lines)
    → ((text : Text) → quote_rest line ≡ some text → P (read_quote (line ∷ lines)))
    → P (read_table line lines)
    → ((item : Text) → bullet_rest line ≡ some item → P (read_bullets (line ∷ lines)))
    → ((start : ℕ) (item : Text)
        → ordered_rest line ≡ some (start, item)
        → P (read_ordered start (line ∷ lines)))
    → (is_empty (trim line) ≡ true → P (none, lines))
    → (is_empty (trim line) ≡ false → P (read_paragraph line lines))
    → P (next_block line lines)
unfolding next_block
next_block_lem P line lines code head rule quoted tabled bullets ordered blank para =
    if-then_else_lem P (starts_with (trim line) (units "```")) _ _ (λ e. code)
      (λ e.
        match_or_lem P (heading_of (trim line)) _ _ (λ (level, text) e. head level text e)
          (if-then_else_lem P (is_rule (trim line)) _ _ (λ e. rule)
            (λ e. match_or_lem P (quote_rest line) _ _ quoted (
              if-then_else_lem P (starts_table line lines) _ _ (λ e. tabled)
                (λ e. match_or_lem P (bullet_rest line) _ _ bullets (
                  match_or_lem P (ordered_rest line) _ _ (λ (start, item) e. ordered start item e)
                    (if-then_else_lem P (is_empty (trim line)) _ _ blank para)))))))

module _ {ℓ} {A : Type ℓ} (match : Text → Option A) where
  pub collect-none :
      (line : Text) (lines : List Text)
      → match line ≡ none
      → collect match (line ∷ lines) ≡ ([], line ∷ lines)
  unfolding collect
  collect-none line lines h = rw (h, collect) refl

  pub collect-some :
      (line : Text) (lines : List Text) (a : A)
      → match line ≡ some a
      → collect match (line ∷ lines) ≡ (a ∷ (collect match lines).0, (collect match lines).1)
  unfolding collect
  collect-some line lines a h = rw (h, collect) refl

  collect_rest : (lines : List Text) → length (collect match lines).1 ≤ length lines
  collect_rest [] = unfold collect in omega arith
  collect_rest (line ∷ lines) = elim (Option-cases (match line)) [
    | inl out ↦ rw (collect-none line lines out) (omega arith)
    | inr (a, found) ↦ rw (collect-some line lines a found) (omega (arith, collect_rest lines))
  ]

  -- a line that matches is taken
  collect_takes :
      (line : Text) (lines : List Text) (a : A)
      → match line ≡ some a
      → length (collect match (line ∷ lines)).1 ≤ length lines
  collect_takes line lines a found = rw (collect-some line lines a found) (collect_rest lines)

span_rest : (test : Text → Bool) (lines : List Text) → length (span test lines).1 ≤ length lines
span_rest test [] = omega arith
span_rest test (line ∷ lines) =
    let ih = span_rest test lines in
    elim (Bool-cases (test line)) [
      | inl kept ↦ rw (kept, span) (omega arith)
      | inr out ↦ rw (out, span) (omega arith)
    ]

length-drop : (lines : List Text) → length (drop 1 lines) ≤ length lines
length-drop [] = omega arith
length-drop (line ∷ lines) = omega arith

paragraph_rest : (lines : List Text) → length (paragraph_lines lines).1 ≤ length lines
unfolding paragraph_lines
paragraph_rest [] = omega arith
paragraph_rest (line ∷ lines) =
    if-then_else_lem (λ (p : List Text × List Text). length p.1 ≤ suc (length lines))
      (continues line lines) _ _ (λ e. omega (arith, paragraph_rest lines)) (λ e. omega arith)

pub ordered_item_lem :
    (line item : Text) (start : ℕ)
    → ordered_rest line ≡ some (start, item)
    → ordered_item line ≡ some item
ordered_item_lem line item start e = rw e refl

-- a round takes at least one line
pub next_block_rest :
    (line : Text) (lines : List Text) → length (next_block line lines).1 ≤ length lines
unfolding read_code read_quote read_table read_bullets read_ordered read_paragraph
next_block_rest line lines =
    let fence = λ (l : Text). not (is_fence l) in
    next_block_lem (λ s. length s.1 ≤ length lines) line lines
      (omega (arith, length-drop (span fence lines).1, span_rest fence lines))
      (λ level text e. omega arith) (omega arith)
      (λ text e. collect_takes quote_rest line lines text e)
      (omega (arith, collect_rest table_row (drop 1 lines), length-drop lines))
      (λ item e. collect_takes bullet_rest line lines item e)
      (λ start item e.
        collect_takes ordered_item line lines item (ordered_item_lem line item start e))
      (λ e. omega arith) (λ e. paragraph_rest lines)

-- The loop ends: with as much fuel as there are lines, more fuel gives the same blocks.
pub blocks_from_fuel :
    (fuel more : ℕ) (lines : List Text)
    → length lines ≤ fuel
    → length lines ≤ more
    → blocks_from fuel lines ≡ blocks_from more lines
unfolding blocks_from
blocks_from_fuel zero zero lines h k = refl
blocks_from_fuel zero (suc more) [] h k = refl
blocks_from_fuel (suc fuel) zero [] h k = refl
blocks_from_fuel (suc fuel) (suc more) [] h k = refl
blocks_from_fuel zero (suc more) (line ∷ lines) h k = absurd (omega arith)
blocks_from_fuel (suc fuel) zero (line ∷ lines) h k = absurd (omega arith)
blocks_from_fuel (suc fuel) (suc more) (line ∷ lines) h k =
    let (block, rest) = next_block line lines in
    let less = next_block_rest line lines in
    ap (with_block block) (blocks_from_fuel fuel more rest (omega arith) (omega arith))

-- the blocks of the lines, with enough fuel
abbrev pub blocks_of : List Text → List Block
blocks_of lines = blocks_from (length lines) lines

-- One round gives the block of the first lines, and the others are read from where it ends.
pub blocks_of_cons :
    (line : Text) (lines : List Text)
    → blocks_of (line ∷ lines)
      ≡ with_block (next_block line lines).0 (blocks_of (next_block line lines).1)
unfolding blocks_from
blocks_of_cons line lines =
    let (block, rest) = next_block line lines in
    ap (with_block block) (
      blocks_from_fuel (length lines) (length rest) rest (next_block_rest line lines) (omega arith))
