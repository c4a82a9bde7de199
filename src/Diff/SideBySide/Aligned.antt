-- ===== src/Diff/SideBySide/Aligned.antt =====
-- The rows of a side-by-side view.
use open_pi.Prelude.{
  ℕ, zero, suc, ◌≡◌, ◌⊎◌, inl, inr, List, [], ◌∷◌, arith, keep_if, length, All, All-append,
}
use open_pi.Diff.{DiffLine}
use open_pi.Diff.Hunks.{DiffHunk}
use open_pi.Diff.SideBySide.{
  CellKind, Row, cluster, pair_rows, build_rows, is_body, build_side_by_side_rows,
}
use open_pi.Diff.SideBySide.Columns.{Kind-cases, build_rows-ctx, build_rows-cluster}

-- A row that stands for something: context on both sides, or a change with a cell on either side.
abbrev pub IsAligned : Row → Type 0
IsAligned r =
    ((r.left.kind ≡ CellKind.ctx)
      × (r.right.kind ≡ CellKind.ctx)
      × (r.left.content ≡ r.right.content))
    ⊎ (r.left.kind ≡ CellKind.del) × (r.right.kind ≡ CellKind.add)
    ⊎ (r.left.kind ≡ CellKind.del) × (r.right.kind ≡ CellKind.empty)
    ⊎ (r.left.kind ≡ CellKind.empty) × (r.right.kind ≡ CellKind.add)

pair_rows-IsAligned : (ds as' : List DiffLine) → All IsAligned (pair_rows ds as')
unfolding pair_rows
pair_rows-IsAligned [] [] = tt
pair_rows-IsAligned (d ∷ ds) [] = (ground arith, pair_rows-IsAligned ds [])
pair_rows-IsAligned [] (a ∷ as') = (ground arith, pair_rows-IsAligned [] as')
pair_rows-IsAligned (d ∷ ds) (a ∷ as') = (ground arith, pair_rows-IsAligned ds as')

build_rows-IsAligned : (fuel : ℕ) (ls : List DiffLine) → All IsAligned (build_rows fuel ls)
build_rows-IsAligned zero ls = unfold build_rows in tt
build_rows-IsAligned (suc fuel) [] = unfold build_rows in tt
build_rows-IsAligned (suc fuel) (l ∷ ls) = elim (Kind-cases l.kind) [
  | inl e ↦ rw (build_rows-ctx fuel l ls e) (ground arith, build_rows-IsAligned fuel ls)
  | inr e ↦
      let c = cluster [] [] (l ∷ ls) in
      rw (build_rows-cluster fuel l ls e) (
        All-append IsAligned (pair_rows c.dels c.adds) (build_rows fuel c.rest)
          (pair_rows-IsAligned c.dels c.adds) (build_rows-IsAligned fuel c.rest))
]

-- Every row is a context line on both sides, or a deletion beside an addition, or one of these
-- beside an empty cell; no row is empty.
pub build_side_by_side_rows-IsAligned : (h : DiffHunk) → All IsAligned (build_side_by_side_rows h)
unfolding build_side_by_side_rows
build_side_by_side_rows-IsAligned h =
    build_rows-IsAligned (length (keep_if is_body h.lines)) (keep_if is_body h.lines)
