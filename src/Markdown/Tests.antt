-- ===== src/Markdown/Tests.antt =====
-- A heading, a table, a numbered list and a block of code; a line with links and marks.
use open_pi.Prelude.{
  ◌≡◌, ◌⊎◌, refl, true, Option, none, some, List, [], ◌∷◌, ◌++◌, flat_map, All, arith,
}
use open_pi.Text.{Text, units, split, join, trim, trim_start, is_space, starts_with, includes}
use open_pi.Text.Decimal.{parse_int}
use open_pi.FileLinks.{ParsedUrl}
use open_pi.Markdown.{
  after_space, is_heading_end, heading_text, heading_start, heading_of, is_rule_of, is_rule,
  quote_rest, bullet_rest, ordered_rest, has_inner_pipe, is_table_row, is_divider_cell,
  are_divider_cells, is_table_divider, split_table_row, is_fence,
}
use open_pi.Markdown.Blocks.{
  code_block, heading, paragraph, list, table, collect, language, fit_cells, read_table,
  read_ordered, continues, paragraph_lines, read_paragraph, next_block, blocks_from, source_lines,
  split_blocks,
}
use open_pi.Markdown.Fuel.{blocks_of, blocks_from_fuel}
use open_pi.Markdown.Fenced.{blocks_of_fenced}
use open_pi.Markdown.Blank.{IsBlank}
use open_pi.Markdown.Shape.{IsShaped, split_blocks-IsShaped}
use open_pi.Markdown.Inline.{
  link_here, marked_here, token_here, pieces_from, pieces_of, text_node, link_node, strong_node,
  is_safe_href, token_node, render_inline,
}
use open_pi.Markdown.Links.{piece_text, pieces_of_text, IsSafe, render_inline-IsSafe}

abbrev sample_lines : List Text
sample_lines =
    units "## Plan ##"
    ∷ units "| a | b |"
    ∷ units "|---|:-:|"
    ∷ units "| 1 |"
    ∷ units "3. go"
    ∷ units "4) on"
    ∷ units "end"
    ∷ []

sample_blocks :
    blocks_of sample_lines
    ≡ heading 2 (units "Plan")
      ∷ table (units "a" ∷ units "b" ∷ []) []
      ∷ paragraph (units "| 1 |")
      ∷ list (units "go" ∷ units "on" ∷ []) true (some 3)
      ∷ paragraph (units "end")
      ∷ []
unfolding blocks_from next_block heading_of heading_start heading_text is_heading_end after_space
    is_rule is_rule_of quote_rest is_table_row has_inner_pipe is_table_divider are_divider_cells
    is_divider_cell split_table_row read_table fit_cells collect bullet_rest ordered_rest
    read_ordered read_paragraph paragraph_lines continues is_fence split trim trim_start is_space
    starts_with includes join parse_int
sample_blocks = refl

abbrev code_lines : List Text
code_lines = units "# no heading" ∷ [] ∷ units "- no item" ∷ []

blocks_of_fenced_example :
    blocks_of (units "```sh" ∷ code_lines ++ units "```" ∷ sample_lines)
    ≡ code_block (join (b'\n' ∷ []) code_lines) (language (units "```sh")) ∷ blocks_of sample_lines
blocks_of_fenced_example =
    blocks_of_fenced (units "```sh") code_lines (units "```") sample_lines
      (unfold trim trim_start is_space starts_with in refl)
      (unfold is_fence trim_start is_space starts_with in (refl, (refl, (refl, tt))))
      (unfold is_fence trim_start is_space starts_with in refl)

blocks_from_fuel_example : blocks_from 7 sample_lines ≡ blocks_from 100 sample_lines
blocks_from_fuel_example = blocks_from_fuel 7 100 sample_lines (omega arith) (omega arith)

split_blocks-IsShaped_example :
    All IsShaped (split_blocks (join (b'\n' ∷ []) sample_lines))
    ⊎ (All IsBlank (source_lines (join (b'\n' ∷ []) sample_lines))
        × (split_blocks (join (b'\n' ∷ []) sample_lines)
            ≡ paragraph (join (b'\n' ∷ []) sample_lines) ∷ []))
split_blocks-IsShaped_example = split_blocks-IsShaped (join (b'\n' ∷ []) sample_lines)

abbrev line : Text
line = units "see [docs](https://a.b) and __all__"

abbrev no_url : Text → Option ParsedUrl
no_url s = none

abbrev as_is : Text → Option Text
as_is s = some s

line_nodes :
    render_inline no_url as_is line
    ≡ text_node (units "see ")
      ∷ link_node (units "docs") (units "https://a.b")
      ∷ text_node (units " and ")
      ∷ strong_node (units "all")
      ∷ []
unfolding render_inline pieces_of pieces_from token_here link_here marked_here token_node
    is_safe_href starts_with is_space
line_nodes = refl

pieces_of_text_example :
    (flat_map piece_text (pieces_of line) ≡ line) × (pieces_from 99 [] line ≡ pieces_of line)
pieces_of_text_example = pieces_of_text line 99 (omega arith)

render_inline-IsSafe_example : All IsSafe (render_inline no_url as_is line)
render_inline-IsSafe_example = render_inline-IsSafe no_url as_is line
