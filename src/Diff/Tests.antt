-- ===== src/Diff/Tests.antt =====
-- The diff functions on concrete diffs, and the theorems at these.
use open_pi.Prelude.{
  ◌≡◌, refl, ◌⊎◌, inl, inr, length, true, none, some, List, [], ◌∷◌, map, arith, All, Pairs,
  keep_if,
}
use mathlib.Core.List.{Sublist}
use open_pi.Text.{Text, units, split, join, text_eq, starts_with, includes}
use open_pi.Text.Decimal.{show}
use open_pi.Diff.{LineKind, DiffLine, is_hunk_line}
use open_pi.Diff.Shape.{Writes}
use open_pi.Diff.Lines.{parse_diff_lines}
use open_pi.Diff.Lines.Numbering.{Numbered, parse_diff_lines-Numbered}
use open_pi.Diff.Hunks.{HunkStatus, DiffHunk, parse_diff_hunks}
use open_pi.Diff.Hunks.Kept.{all_lines, parse_diff_hunks-Writes}
use open_pi.Diff.Hunks.Stats.{IsParsed, parse_diff_hunks-IsParsed}
use open_pi.Diff.Apply.{before_lines, after_lines, find_target, apply_all, apply_hunks_to_source}
use open_pi.Diff.Apply.Target.{IsNearest, IsOutOfReach, find_target-IsNearest}
use open_pi.Diff.Apply.Patch.{Segment, apply_hunks_to_source-patched}
use open_pi.Diff.Apply.Edited.{apply_all-Sublist}
use open_pi.Diff.SideBySide.{is_body, build_side_by_side_rows}
use open_pi.Diff.SideBySide.Columns.{
  left_column, right_column, old_side, new_side, build_side_by_side_rows-columns,
}

abbrev nl : Text
nl = b'\n' ∷ []

abbrev old_text : Text
old_text = join nl (units "a" ∷ units "b" ∷ units "c" ∷ units "d" ∷ units "e" ∷ units "f" ∷ [])

-- two hunks: `b` becomes `B` and `B2`, and `e` goes
abbrev sample : Text
sample = join nl (
    units "--- a/x"
    ∷ units "+++ b/x"
    ∷ units "@@ -1,3 +1,4 @@"
    ∷ units " a"
    ∷ units "-b"
    ∷ units "+B"
    ∷ units "+B2"
    ∷ units " c"
    ∷ units "@@ -5,2 +6 @@"
    ∷ units "-e"
    ∷ units " f"
    ∷ [])

program : Unit {0}
unfolding split join text_eq starts_with includes show parse_diff_lines parse_diff_hunks apply_all
    apply_hunks_to_source build_side_by_side_rows
program = tt

apply_test :
    (apply_hunks_to_source old_text (parse_diff_hunks sample).hunks).result
    ≡ join nl (units "a" ∷ units "B" ∷ units "B2" ∷ units "c" ∷ units "d" ∷ units "f" ∷ [])
unfolding program
apply_test = refl

ids_test :
    map (λ h. h.id) (parse_diff_hunks sample).hunks ≡ units "hunk-1-1-1" ∷ units "hunk-2-5-6" ∷ []
unfolding program
ids_test = refl

counts_test : ((parse_diff_lines sample).adds ≡ 2) × ((parse_diff_lines sample).dels ≡ 2)
unfolding program
counts_test = (refl, refl)

parse_diff_lines-Numbered_example : Numbered 1 1 (parse_diff_lines sample).lines
parse_diff_lines-Numbered_example = parse_diff_lines-Numbered sample

parse_diff_hunks-Writes_example :
    Pairs Writes
      (all_lines (parse_diff_hunks sample).headers (parse_diff_hunks sample).hunks)
      (split b'\n' sample)
parse_diff_hunks-Writes_example = parse_diff_hunks-Writes sample

parse_diff_hunks-IsParsed_example : All IsParsed (parse_diff_hunks sample).hunks
parse_diff_hunks-IsParsed_example = parse_diff_hunks-IsParsed sample

top_test : is_hunk_line (units "@@ -1 +0,0 @@") ≡ true
unfolding program
top_test = refl

-- the deletion of the SQL comment `-- x`

abbrev text_line : LineKind → Text → DiffLine
text_line kind content = record {
  kind = kind;
  content = content;
  old_line_no = none;
  new_line_no = none;
}

-- replaces the line `b` of the old text, which is the second
abbrev change_b : DiffHunk
change_b = record {
  id = units "hunk-1-2-2";
  header = units "@@ -2 +2,2 @@";
  old_start = 2;
  old_count = 1;
  new_start = 2;
  new_count = 2;
  lines =
      text_line LineKind.hunk (units "@@ -2 +2,2 @@")
      ∷ text_line LineKind.del (units "b")
      ∷ text_line LineKind.add (units "B")
      ∷ text_line LineKind.add (units "B2")
      ∷ [];
  adds = 2;
  dels = 1;
  status = HunkStatus.accepted;
  edited_lines = none;
}

-- removes the line `e`, but is rejected
abbrev reject_e : DiffHunk
reject_e = record change_b {
  old_start = 5;
  lines = text_line LineKind.del (units "e") ∷ text_line LineKind.ctx (units "f") ∷ [];
  status = HunkStatus.rejected;
}

abbrev segments : List Segment
segments =
    record { gap = units "a" ∷ []; hunk = change_b }
    ∷ record { gap = units "c" ∷ units "d" ∷ []; hunk = reject_e }
    ∷ []

apply_hunks_to_source-patched_example :
    (apply_hunks_to_source old_text (change_b ∷ reject_e ∷ [])).result
    ≡ join nl
        (units "a" ∷ units "B" ∷ units "B2" ∷ units "c" ∷ units "d" ∷ units "e" ∷ units "f" ∷ [])
unfolding program before_lines after_lines
apply_hunks_to_source-patched_example =
    apply_hunks_to_source-patched old_text segments [] refl
      (refl, (λ e. cc), refl, (refl, (λ e. cc), refl, tt))

-- the line `f` has moved from index 2 to index 5
find_target-IsNearest_example :
    IsNearest
      (split b'\n' old_text)
      (units "f")
      2
      (find_target (split b'\n' old_text) (units "f" ∷ []) 2)
    ⊎ ((find_target (split b'\n' old_text) (units "f" ∷ []) 2 ≡ 2)
        × IsOutOfReach (split b'\n' old_text) (units "f") 2)
unfolding program
find_target-IsNearest_example =
    find_target-IsNearest (split b'\n' old_text) (units "f") 2 [] (omega arith)

-- the hunk for `b` with a line of the user, behind a rejected one
abbrev edited_hunks : List DiffHunk
edited_hunks = reject_e ∷ record change_b { edited_lines = some (units "X" ∷ []) } ∷ []

edited_test :
    (apply_all (units "a" ∷ units "b" ∷ []) edited_hunks).lines
    ≡ units "a" ∷ units "X" ∷ units "b" ∷ []
unfolding program
edited_test = refl

apply_all-Sublist_example :
    Sublist (units "a" ∷ units "b" ∷ []) (apply_all (units "a" ∷ units "b" ∷ []) edited_hunks).lines
    × (length (apply_all (units "a" ∷ units "b" ∷ []) edited_hunks).lines ≡ 3)
apply_all-Sublist_example =
    apply_all-Sublist (units "a" ∷ units "b" ∷ []) edited_hunks
      (inl refl, (inr (units "X", [], refl), tt))

build_side_by_side_rows-columns_example :
    (left_column (build_side_by_side_rows change_b) ≡ old_side (keep_if is_body change_b.lines))
    × (right_column (build_side_by_side_rows change_b) ≡ new_side (keep_if is_body change_b.lines))
build_side_by_side_rows-columns_example = build_side_by_side_rows-columns change_b
