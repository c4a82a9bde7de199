-- ===== src/Markdown/Blank.antt =====
-- apps/desktop/web/lib/markdown.tsx: the lines that `splitBlocks` makes no block of.
use open_pi.Prelude.{
  ◌≡◌, refl, sym, ap, subst, length, arith, ◌∙◌, true, Option, none, some, List, [], ◌∷◌, All,
}
use open_pi.Text.{Text, is_empty, trim}
use open_pi.Markdown.Blocks.{
  Block, Step, read_code, read_quote, read_table, read_bullets, read_ordered, read_paragraph,
  next_block, with_block,
}
use open_pi.Markdown.Fuel.{next_block_lem, blocks_of, blocks_of_cons}

abbrev pub IsBlank : Text → Type 0
IsBlank line = is_empty (trim line) ≡ true

-- a round without a block takes one line, which is blank
abbrev IsPassed : Text → List Text → Step → Type 0
IsPassed line lines (none, rest) = IsBlank line × (rest ≡ lines)
IsPassed line lines (some b, rest) = Unit

next_block-IsPassed :
    (line : Text) (lines : List Text) → IsPassed line lines (next_block line lines)
unfolding read_code read_quote read_table read_bullets read_ordered read_paragraph
next_block-IsPassed line lines =
    next_block_lem (IsPassed line lines) line lines tt (λ level text e. tt) tt (λ text e. tt) tt
      (λ item e. tt) (λ start item e. tt) (λ blank. (blank, refl)) (λ said. tt)

pub blocks_of-IsBlank : (lines : List Text) → blocks_of lines ≡ [] → All IsBlank lines
blocks_of-IsBlank [] h = tt
blocks_of-IsBlank (line ∷ lines) h =
    go (next_block line lines).0 (next_block line lines).1 (next_block-IsPassed line lines)
      (sym (blocks_of_cons line lines) ∙ h) (blocks_of-IsBlank lines)
  where
    go :
        (o : Option Block) (rest : List Text)
        → IsPassed line lines (o, rest)
        → with_block o (blocks_of rest) ≡ []
        → (blocks_of lines ≡ [] → All IsBlank lines)
        → All IsBlank (line ∷ lines)
    go none rest (blank, same) e ih = (blank, ih (subst (λ r. blocks_of r ≡ []) same e))
    go (some b) rest passed e ih = absurd (omega (arith, ap length e))
