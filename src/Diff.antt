-- ===== src/Diff.antt =====
-- apps/desktop/web/lib/diff.ts: unified diffs. The types that the functions of the file share, the
-- scanner of a hunk's header line, and one child module for each function.
pub mod Shape
pub mod Detect
pub mod Lines
pub mod Hunks
pub mod Apply
pub mod SideBySide
mod Tests
use Prim.Native.String.{String}
use open_pi.Prelude.{
  ℕ, ◌≡◌, refl, Bool, true, false, ◌&&◌, ◌||◌, not, Option, none, some, List, [], ◌∷◌, ◌++◌, ◌==◌,
  if◌then◌else◌, span, drop, or_else, ◌>>=◌,
}
use open_pi.Text.{Text, units, is_empty, starts_with, includes, is_space}
use open_pi.Text.Decimal.{is_digit, parse_int}

pub data LineKind : Type 0 where
  add del hunk header ctx : LineKind

pub record DiffLine : Type 0 where
  pub kind : LineKind
  pub content : Text
  pub old_line_no : Option ℕ
  pub new_line_no : Option ℕ

-- what the groups of the header's pattern hold; a count may be left out
pub record HunkHeader : Type 0 where
  pub old_start : ℕ
  pub old_count : Option ℕ
  pub new_start : ℕ
  pub new_count : Option ℕ

-- a literal of the pattern, and what follows it
literal : Text → Text → Option Text
literal [] s = some s
literal (c ∷ t) [] = none
literal (c ∷ t) (d ∷ s) = if c == d then literal t s else none

-- `\s*`
spaces : Text → Text
spaces s = (span is_space s).1

-- `(\d+)`
number : Text → Option (ℕ × Text)
number s =
    let (ds, rest) = span is_digit s in if is_empty ds then none else some (parse_int ds, rest)

-- `(?:,(\d+))?`
count : Text → Option ℕ × Text
count [] = (none, [])
count (c ∷ s) =
    if c == b','
    then elim (number s) [ none ↦ (none, c ∷ s) | some (n, rest) ↦ (some n, rest) ]
    else (none, c ∷ s)

-- `/@@\s*-(\d+)(?:,(\d+))?\s*\+(\d+)(?:,(\d+))?\s*@@/` at the start of a text. What may follow a
-- repetition never fits the repetition itself, so the pattern needs no backtracking.
header_here : Text → Option HunkHeader
header_here s = do
  a ← literal (units "@@") s
  b ← literal (units "-") (spaces a)
  (old_start, c) ← number b
  let (old_count, d) = count c
  e ← literal (units "+") (spaces d)
  (new_start, f) ← number e
  let (new_count, g) = count f
  _ ← literal (units "@@") (spaces g)
  some (record {
    old_start = old_start;
    old_count = old_count;
    new_start = new_start;
    new_count = new_count;
  })

-- `raw.match(…)`: the first place where the pattern fits
unfoldable pub match_header : Text → Option HunkHeader
unfolding literal spaces is_space number parse_int count header_here
match_header [] = none
match_header (c ∷ s) =
    let later = match_header s in elim (header_here (c ∷ s)) [ none ↦ later | some h ↦ some h ]

-- `raw.startsWith("@@") && raw.includes("@@")`
abbrev pub is_hunk_line : Text → Bool
is_hunk_line raw = starts_with raw (units "@@") && includes raw (units "@@")

-- the file headers of a git diff
abbrev pub is_header_line : Text → Bool
is_header_line raw =
    starts_with raw (units "---")
    || starts_with raw (units "+++")
    || starts_with raw (units "diff --git")
    || starts_with raw (units "index ")

abbrev pub is_add_line : Text → Bool
is_add_line raw = starts_with raw (units "+") && not (starts_with raw (units "+++"))

abbrev pub is_del_line : Text → Bool
is_del_line raw = starts_with raw (units "-") && not (starts_with raw (units "---"))

-- `raw.startsWith(" ") ? raw.slice(1) : raw`
abbrev pub context_content : Text → Text
context_content raw = if starts_with raw (units " ") then drop 1 raw else raw

match_header_tests :
    (match_header (units "@@ -12,4 +15 @@ fn")
      ≡ some (record { old_start = 12; old_count = some 4; new_start = 15; new_count = none }))
    × (match_header (units "@@@ -1 +2,0@@")
        ≡ some (record { old_start = 1; old_count = none; new_start = 2; new_count = some 0 }))
    × (match_header (units "@@ -1,x +2 @@") ≡ none)
unfolding match_header
match_header_tests = (refl, refl, refl)
