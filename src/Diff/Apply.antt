-- ===== src/Diff/Apply.antt =====
-- `applyHunksToSource`: the hunks that were not rejected are put into a source text, the last one
-- first. `Infinity` and the index -1 are `none`.
pub mod Target
pub mod Counts
pub mod Patch
pub mod Edited
use open_pi.Prelude.{
  ℕ, zero, suc, ◌+◌, ◌-◌, Bool, true, false, ◌&&◌, Option, none, some, List, [], ◌∷◌, ◌++◌, foldl,
  ltb, leb, if◌then◌else◌, length, get_elem?, take, drop,
}
use open_pi.Text.{Text, text_eq, split, join}
use open_pi.Diff.{LineKind, add, del, hunk, header, ctx, DiffLine}
use open_pi.Diff.Hunks.{HunkStatus, pending, accepted, rejected, DiffHunk}

-- `.sort((a, b) => b.oldStart - a.oldStart)`, which is stable
pub insert : DiffHunk → List DiffHunk → List DiffHunk
insert h [] = h ∷ []
insert h (g ∷ gs) = if leb g.old_start h.old_start then h ∷ g ∷ gs else g ∷ insert h gs

pub sort : List DiffHunk → List DiffHunk
unfolding insert
sort [] = []
sort (h ∷ hs) = insert h (sort hs)

-- the lines that the hunk expects in the source: its context and its deleted lines
unfoldable pub before_lines : List DiffLine → List Text
before_lines [] = []
before_lines (l ∷ ls) = elim l.kind [
  | ctx ↦ l.content ∷ before_lines ls
  | del ↦ l.content ∷ before_lines ls
  | _ ↦ before_lines ls
]

-- the lines that replace them: its context and its added lines
unfoldable pub after_lines : List DiffLine → List Text
after_lines [] = []
after_lines (l ∷ ls) = elim l.kind [
  | ctx ↦ l.content ∷ after_lines ls
  | add ↦ l.content ∷ after_lines ls
  | _ ↦ after_lines ls
]

-- `originalExpected` and `replacementLines`
pub record Change : Type 0 where
  pub original_expected : List Text
  pub replacement_lines : List Text

abbrev pub from_lines : List DiffLine → Change
from_lines ls = record { original_expected = before_lines ls; replacement_lines = after_lines ls }

-- lines edited by the user replace the hunk's own, if there are any
abbrev pub change_of : Option (List Text) → List DiffLine → Change
change_of (some (e ∷ es)) ls = record { original_expected = []; replacement_lines = e ∷ es }
change_of (some []) ls = from_lines ls
change_of none ls = from_lines ls

-- `lines[i] === text`, also past the end
abbrev pub is_line : Option Text → Text → Bool
is_line none text = false
is_line (some line) text = text_eq line text

pub record Search : Type 0 where
  pub best_dist : Option ℕ
  pub found_idx : Option ℕ

abbrev pub search_radius : ℕ
search_radius = 15

-- `Math.abs(offset) < bestDist`
abbrev pub is_closer : ℕ → Option ℕ → Bool
is_closer dist none = true
is_closer dist (some best) = ltb dist best

-- `Math.abs(round - searchRadius)`
abbrev pub distance : ℕ → ℕ
distance round = if leb round search_radius then search_radius - round else round - search_radius

-- one round of the search, at `offset = round - searchRadius`
search_round : List Text → Text → ℕ → ℕ → Search → Search
search_round lines first target round s =
    let test_idx = target + round - search_radius in
    if leb search_radius (target + round)
      && ltb test_idx (length lines)
      && is_line (get_elem? lines test_idx) first
      && is_closer (distance round) s.best_dist
    then record { best_dist = some (distance round); found_idx = some test_idx }
    else s

-- the rounds `round`, `round + 1`, …, `n` of them
search_rounds : List Text → Text → ℕ → ℕ → ℕ → Search → Search
search_rounds lines first target zero round s = s
search_rounds lines first target (suc n) round s =
    search_rounds lines first target n (round + 1) (search_round lines first target round s)

-- the index from the header, or the nearest line that is the first expected one
fuzzy : List Text → Text → ℕ → ℕ
fuzzy lines first target =
    if ltb target (length lines)
    then if is_line (get_elem? lines target) first
      then target
      else elim (search_rounds lines first target 31 0
          (record { best_dist = none; found_idx = none })).found_idx [
            | none ↦ target
            | some idx ↦ idx
          ]
    else target

pub find_target : List Text → List Text → ℕ → ℕ
unfolding fuzzy search_rounds search_round text_eq
find_target lines [] target = target
find_target lines (first ∷ _) target = fuzzy lines first target

-- `lines.splice(start, deleteCount, ...items)`
abbrev pub splice : List Text → ℕ → ℕ → List Text → List Text
splice lines start delete_count items =
    take start lines ++ (items ++ drop (start + delete_count) lines)

pub record Applying : Type 0 where
  pub lines : List Text
  pub applied_count : ℕ
  pub rejected_count : ℕ

-- `Math.max(0, hunk.oldStart - 1)` is the subtraction of natural numbers
put_change : Change → ℕ → List Text → List Text
put_change change old_start lines =
    let target_idx = find_target lines change.original_expected (old_start - 1) in
    splice lines target_idx (length change.original_expected) change.replacement_lines

abbrev pub is_rejected : HunkStatus → Bool
is_rejected rejected = true
is_rejected _ = false

-- one round of the loop over the hunks
apply_hunk : Applying → DiffHunk → Applying
apply_hunk s h =
    if is_rejected h.status then record s { rejected_count = s.rejected_count + 1 } else record s {
      applied_count = s.applied_count + 1;
      lines = put_change (change_of h.edited_lines h.lines) h.old_start s.lines;
    }

unfoldable pub apply_all : List Text → List DiffHunk → Applying
unfolding sort apply_hunk put_change find_target before_lines after_lines
apply_all lines hunks =
    foldl apply_hunk (record { lines = lines; applied_count = 0; rejected_count = 0 }) (sort hunks)

pub record Applied : Type 0 where
  pub result : Text
  pub applied_count : ℕ
  pub rejected_count : ℕ

unfoldable pub apply_hunks_to_source : Text → List DiffHunk → Applied
unfolding apply_all
apply_hunks_to_source source_text hunks =
    let s = apply_all (split b'\n' source_text) hunks in
    record {
      result = join (b'\n' ∷ []) s.lines;
      applied_count = s.applied_count;
      rejected_count = s.rejected_count;
    }
