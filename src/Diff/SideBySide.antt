-- ===== src/Diff/SideBySide.antt =====
-- `SideBySideCell`, `SideBySideRow` and `buildSideBySideRows`: a hunk in two columns.
pub mod Columns
pub mod Aligned
use open_pi.Prelude.{
  ℕ, zero, suc, Bool, true, false, Option, none, some, List, [], ◌∷◌, ◌++◌, keep_if, length,
}
use open_pi.Text.{Text}
use open_pi.Diff.{LineKind, DiffLine}
use open_pi.Diff.Hunks.{DiffHunk}

pub data CellKind : Type 0 where
  ctx add del empty : CellKind

pub record Cell : Type 0 where
  pub kind : CellKind
  pub content : Option Text
  pub line_no : Option ℕ

pub record Row : Type 0 where
  pub left : Cell
  pub right : Cell

abbrev pub empty_cell : Cell
empty_cell = record { kind = empty; content = none; line_no = none }

-- a cell that shows the old side of a line, and one that shows the new side
abbrev pub old_cell : CellKind → DiffLine → Cell
old_cell kind l = record { kind = kind; content = some l.content; line_no = l.old_line_no }

abbrev pub new_cell : CellKind → DiffLine → Cell
new_cell kind l = record { kind = kind; content = some l.content; line_no = l.new_line_no }

pub record Cluster : Type 0 where
  pub dels : List DiffLine
  pub adds : List DiffLine
  pub rest : List DiffLine

-- the inner `while`: the deleted and added lines in a row, and the lines behind them
pub cluster : List DiffLine → List DiffLine → List DiffLine → Cluster
cluster dels adds [] = record { dels = dels; adds = adds; rest = [] }
cluster dels adds (l ∷ ls) = elim l.kind [
  | LineKind.del ↦ cluster (dels ++ l ∷ []) adds ls
  | LineKind.add ↦ cluster dels (adds ++ l ∷ []) ls
  | _ ↦ record { dels = dels; adds = adds; rest = l ∷ ls }
]

-- the `for` over the longer of the two lists; the shorter one is filled up with empty cells
pub pair_rows : List DiffLine → List DiffLine → List Row
pair_rows [] [] = []
pair_rows (d ∷ ds) [] = record { left = old_cell del d; right = empty_cell } ∷ pair_rows ds []
pair_rows [] (a ∷ as') = record { left = empty_cell; right = new_cell add a } ∷ pair_rows [] as'
pair_rows (d ∷ ds) (a ∷ as') =
    record { left = old_cell del d; right = new_cell add a } ∷ pair_rows ds as'

abbrev pub ctx_row : DiffLine → Row
ctx_row l = record { left = old_cell ctx l; right = new_cell ctx l }

-- the outer `while`, with fuel for the lines that are left
pub build_rows : ℕ → List DiffLine → List Row
build_rows zero ls = []
build_rows (suc fuel) [] = []
build_rows (suc fuel) (l ∷ ls) = elim l.kind [
  | LineKind.ctx ↦ ctx_row l ∷ build_rows fuel ls
  | _ ↦ let c = cluster [] [] (l ∷ ls) in pair_rows c.dels c.adds ++ build_rows fuel c.rest
]

abbrev pub is_body : DiffLine → Bool
is_body l = elim l.kind [ LineKind.hunk ↦ false | LineKind.header ↦ false | _ ↦ true ]

-- each round of the outer loop takes at least one line
unfoldable pub build_side_by_side_rows : DiffHunk → List Row
unfolding build_rows cluster pair_rows
build_side_by_side_rows h = let lines = keep_if is_body h.lines in build_rows (length lines) lines
