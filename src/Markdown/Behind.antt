-- ===== src/Markdown/Behind.antt =====
-- apps/desktop/web/lib/markdown.tsx: what holds of all lines holds of those that a round of
-- `splitBlocks` takes, and of those behind it.
use open_pi.Prelude.{
  ◌≡◌, inl, inr, Bool, not, Option, some, List, [], ◌∷◌, span, drop, Bool-cases, Option-cases,
  if-then_else_lem, All,
}
use open_pi.Text.{Text}
use open_pi.Markdown.{quote_rest, bullet_rest, is_fence}
use open_pi.Markdown.Blocks.{
  collect, read_code, read_quote, table_row, read_table, ordered_item, read_bullets, read_ordered,
  continues, paragraph_lines, read_paragraph, next_block,
}
use open_pi.Markdown.Fuel.{next_block_lem, collect-none, collect-some, ordered_item_lem}

module _ (P : Text → Type 0) where
  pub All-span :
      (test : Text → Bool) (lines : List Text)
      → All P lines
      → All P (span test lines).0 × All P (span test lines).1
  All-span test [] h = (tt, tt)
  All-span test (line ∷ lines) (h, hs) =
      let (taken, behind) = All-span test lines hs in
      elim (Bool-cases (test line)) [
        | inl kept ↦ rw (kept, span) ((h, taken), behind)
        | inr out ↦ rw (out, span) (tt, (h, hs))
      ]

  All-drop : (lines : List Text) → All P lines → All P (drop 1 lines)
  All-drop [] h = tt
  All-drop (line ∷ lines) (h, hs) = hs

  All-collect {ℓ} :
      {A : Type ℓ} (match : Text → Option A) (lines : List Text)
      → All P lines
      → All P (collect match lines).1
  All-collect match [] h = unfold collect in tt
  All-collect match (line ∷ lines) (h, hs) = elim (Option-cases (match line)) [
    | inl out ↦ rw (collect-none match line lines out) (h, hs)
    | inr (a, found) ↦ rw (collect-some match line lines a found) (All-collect match lines hs)
  ]

  -- a line that matches is not behind the round
  All-collect_takes {ℓ} :
      {A : Type ℓ} (match : Text → Option A) (line : Text) (lines : List Text) (a : A)
      → match line ≡ some a
      → All P lines
      → All P (collect match (line ∷ lines)).1
  All-collect_takes match line lines a found hs =
      rw (collect-some match line lines a found) (All-collect match lines hs)

  pub All-paragraph_lines :
      (lines : List Text)
      → All P lines
      → All P (paragraph_lines lines).0 × All P (paragraph_lines lines).1
  unfolding paragraph_lines
  All-paragraph_lines [] h = (tt, tt)
  All-paragraph_lines (line ∷ lines) (h, hs) =
      let (taken, behind) = All-paragraph_lines lines hs in
      if-then_else_lem (λ (p : List Text × List Text). All P p.0 × All P p.1) (continues line lines)
        _ _ (λ e. ((h, taken), behind)) (λ e. (tt, (h, hs)))

  -- the lines behind a round
  pub All-next_block :
      (line : Text) (lines : List Text) → All P lines → All P (next_block line lines).1
  unfolding read_code read_quote read_table read_bullets read_ordered read_paragraph
  All-next_block line lines h =
      next_block_lem (λ s. All P s.1) line lines
        (All-drop _ (All-span (λ l. not (is_fence l)) lines h).1) (λ level text e. h) h
        (λ text e. All-collect_takes quote_rest line lines text e h)
        (All-collect table_row (drop 1 lines) (All-drop lines h))
        (λ item e. All-collect_takes bullet_rest line lines item e h)
        (λ start item e.
          All-collect_takes ordered_item line lines item (ordered_item_lem line item start e) h)
        (λ e. h) (λ e. (All-paragraph_lines lines h).1)
