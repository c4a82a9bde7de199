-- ===== src/Diff/SideBySide/Columns.antt =====
-- The columns of a side-by-side view hold the two sides of the hunk, in order and in full.
use mathlib.Core.List.{map-append}
use open_pi.Prelude.{
  ℕ, zero, suc, ◌≤◌, ◌≡◌, refl, ◌∙◌, ◌≢◌, ◌⊎◌, inl, inr, Bool, true, false, List, [], ◌∷◌, ◌++◌,
  map, append_assoc, arith, keep_if, length, All,
}
use open_pi.Diff.{LineKind, DiffLine}
use open_pi.Diff.Hunks.{DiffHunk}
use open_pi.Diff.SideBySide.{
  CellKind, Cell, Row, old_cell, new_cell, cluster, pair_rows, ctx_row, build_rows, is_body,
  build_side_by_side_rows,
}

abbrev pub is_filled : Cell → Bool
is_filled c = elim c.kind [ CellKind.empty ↦ false | _ ↦ true ]

-- a column without its empty cells
abbrev pub left_column : List Row → List Cell
left_column rows = keep_if is_filled (map (λ r. r.left) rows)

abbrev pub right_column : List Row → List Cell
right_column rows = keep_if is_filled (map (λ r. r.right) rows)

-- the old and the new side of the lines
abbrev pub old_side : List DiffLine → List Cell
old_side [] = []
old_side (l ∷ ls) = elim l.kind [
  | LineKind.ctx ↦ old_cell CellKind.ctx l ∷ old_side ls
  | LineKind.del ↦ old_cell CellKind.del l ∷ old_side ls
  | _ ↦ old_side ls
]

abbrev pub new_side : List DiffLine → List Cell
new_side [] = []
new_side (l ∷ ls) = elim l.kind [
  | LineKind.ctx ↦ new_cell CellKind.ctx l ∷ new_side ls
  | LineKind.add ↦ new_cell CellKind.add l ∷ new_side ls
  | _ ↦ new_side ls
]

keep_if-append {ℓ} :
    {A : Type ℓ} (p : A → Bool) (xs ys : List A)
    → keep_if p (xs ++ ys) ≡ keep_if p xs ++ keep_if p ys
keep_if-append p [] ys = refl
keep_if-append p (x ∷ xs) ys = ground (arith, keep_if-append p xs ys)

left_column-append : (xs ys : List Row) → left_column (xs ++ ys) ≡ left_column xs ++ left_column ys
left_column-append xs ys = simp (map-append, keep_if-append)

right_column-append :
    (xs ys : List Row) → right_column (xs ++ ys) ≡ right_column xs ++ right_column ys
right_column-append xs ys = simp (map-append, keep_if-append)

left-pair_rows :
    (ds as' : List DiffLine) → left_column (pair_rows ds as') ≡ map (old_cell CellKind.del) ds
unfolding pair_rows
left-pair_rows [] [] = refl
left-pair_rows (d ∷ ds) [] = rw (left-pair_rows ds [])
left-pair_rows [] (a ∷ as') = left-pair_rows [] as'
left-pair_rows (d ∷ ds) (a ∷ as') = rw (left-pair_rows ds as')

right-pair_rows :
    (ds as' : List DiffLine) → right_column (pair_rows ds as') ≡ map (new_cell CellKind.add) as'
unfolding pair_rows
right-pair_rows [] [] = refl
right-pair_rows (d ∷ ds) [] = right-pair_rows ds []
right-pair_rows [] (a ∷ as') = rw (right-pair_rows [] as')
right-pair_rows (d ∷ ds) (a ∷ as') = rw (right-pair_rows ds as')

-- what a cluster takes, and what it leaves
record Takes (ds as' ls : List DiffLine) : Type 0 where
  old :
      map (old_cell CellKind.del) (cluster ds as' ls).dels ++ old_side (cluster ds as' ls).rest
      ≡ map (old_cell CellKind.del) ds ++ old_side ls
  new :
      map (new_cell CellKind.add) (cluster ds as' ls).adds ++ new_side (cluster ds as' ls).rest
      ≡ map (new_cell CellKind.add) as' ++ new_side ls
  shorter : length (cluster ds as' ls).rest ≤ length ls
  body : All (λ l. is_body l ≡ true) ls → All (λ l. is_body l ≡ true) (cluster ds as' ls).rest

map-concat {ℓ κ} :
    {A : Type ℓ} {B : Type κ} (f : A → B) (xs : List A) (x : A) (ys : List B)
    → map f (xs ++ x ∷ []) ++ ys ≡ map f xs ++ f x ∷ ys
map-concat f xs x ys = simp (map-append, append_assoc)

cluster-Takes : (ds as' ls : List DiffLine) → Takes ds as' ls
unfolding cluster
cluster-Takes ds as' [] = record { old = refl; new = refl; shorter = omega arith; body = λ b. b }
cluster-Takes ds as' (l ∷ ls) =
    let d = cluster-Takes (ds ++ l ∷ []) as' ls in
    let a = cluster-Takes ds (as' ++ l ∷ []) ls in
    record {
      old = ground (arith, d.old, a.old, map-concat (old_cell CellKind.del) ds l (old_side ls));
      new = ground (arith, d.new, a.new, map-concat (new_cell CellKind.add) as' l (new_side ls));
      shorter = ground (arith, d.shorter, a.shorter);
      body = λ b. ground (arith, d.body b.1, a.body b.1);
    }

abbrev IsBody : DiffLine → Type 0
IsBody l = is_body l ≡ true

-- a cluster takes its first line
cluster-shorter :
    (l : DiffLine) (ls : List DiffLine)
    → IsBody l
    → l.kind ≢ LineKind.ctx
    → length (cluster [] [] (l ∷ ls)).rest ≤ length ls
unfolding cluster
cluster-shorter l ls b h =
    ground (arith, (cluster-Takes (l ∷ []) [] ls).shorter, (cluster-Takes [] (l ∷ []) ls).shorter)

record Shows (rows : List Row) (ls : List DiffLine) : Type 0 where
  left : left_column rows ≡ old_side ls
  right : right_column rows ≡ new_side ls

Shows-ctx :
    (l : DiffLine) (ls : List DiffLine) (rows : List Row)
    → l.kind ≡ LineKind.ctx
    → Shows rows ls
    → Shows (ctx_row l ∷ rows) (l ∷ ls)
Shows-ctx l ls rows e s = record { left = ground (arith, s.left); right = ground (arith, s.right) }

Shows-cluster :
    (l : DiffLine) (ls : List DiffLine) (rows : List Row)
    → Shows rows (cluster [] [] (l ∷ ls)).rest
    → Shows (pair_rows (cluster [] [] (l ∷ ls)).dels (cluster [] [] (l ∷ ls)).adds ++ rows) (l ∷ ls)
Shows-cluster l ls rows s =
    let c = cluster [] [] (l ∷ ls) in
    let t = cluster-Takes [] [] (l ∷ ls) in
    record {
      left =
          left_column-append (pair_rows c.dels c.adds) rows
          ∙ (rw (left-pair_rows c.dels c.adds, s.left) t.old);
      right =
          right_column-append (pair_rows c.dels c.adds) rows
          ∙ (rw (right-pair_rows c.dels c.adds, s.right) t.new);
    }

-- a line is context, or a change
pub Kind-cases : (k : LineKind) → (k ≡ LineKind.ctx) ⊎ (k ≢ LineKind.ctx)
Kind-cases LineKind.ctx = inl refl
Kind-cases LineKind.add = inr (cc)
Kind-cases LineKind.del = inr (cc)
Kind-cases LineKind.hunk = inr (cc)
Kind-cases LineKind.header = inr (cc)

module _ (fuel : ℕ) (l : DiffLine) (ls : List DiffLine) where
  pub build_rows-ctx :
      l.kind ≡ LineKind.ctx → build_rows (suc fuel) (l ∷ ls) ≡ ctx_row l ∷ build_rows fuel ls
  unfolding build_rows
  build_rows-ctx e = ground arith

  pub build_rows-cluster :
      l.kind ≢ LineKind.ctx
      → build_rows (suc fuel) (l ∷ ls)
        ≡ pair_rows (cluster [] [] (l ∷ ls)).dels (cluster [] [] (l ∷ ls)).adds
          ++ build_rows fuel (cluster [] [] (l ∷ ls)).rest
  unfolding build_rows
  build_rows-cluster e = ground arith

build_rows-Shows :
    (fuel : ℕ) (ls : List DiffLine)
    → length ls ≤ fuel
    → All IsBody ls
    → Shows (build_rows fuel ls) ls
build_rows-Shows zero [] le b = unfold build_rows in record { left = refl; right = refl }
build_rows-Shows zero (l ∷ ls) le b = absurd (omega arith)
build_rows-Shows (suc fuel) [] le b = unfold build_rows in record { left = refl; right = refl }
build_rows-Shows (suc fuel) (l ∷ ls) le (b, bs) = elim (Kind-cases l.kind) [
  | inl e ↦
      rw (build_rows-ctx fuel l ls e)
        (Shows-ctx l ls (build_rows fuel ls) e (build_rows-Shows fuel ls (omega arith) bs))
  | inr e ↦
      let rest = (cluster [] [] (l ∷ ls)).rest in
      rw (build_rows-cluster fuel l ls e) (
        Shows-cluster l ls (build_rows fuel rest) (
          build_rows-Shows fuel rest (omega (arith, cluster-shorter l ls b e))
            ((cluster-Takes [] [] (l ∷ ls)).body (b, bs))))
]

keep_if-All {ℓ} : {A : Type ℓ} (p : A → Bool) (xs : List A) → All (λ x. p x ≡ true) (keep_if p xs)
keep_if-All p [] = tt
keep_if-All p (x ∷ xs) = ground (arith, keep_if-All p xs)

-- The left column shows, without its empty cells, the context and the deleted lines of the hunk
-- with their old numbers, and the right column the context and the added lines with their new
-- numbers: each line once, in order.
pub build_side_by_side_rows-columns :
    (h : DiffHunk)
    → (left_column (build_side_by_side_rows h) ≡ old_side (keep_if is_body h.lines))
      × (right_column (build_side_by_side_rows h) ≡ new_side (keep_if is_body h.lines))
unfolding build_side_by_side_rows
build_side_by_side_rows-columns h =
    let lines = keep_if is_body h.lines in
    let s = build_rows-Shows (length lines) lines (omega arith) (keep_if-All is_body h.lines) in
    (s.left, s.right)
