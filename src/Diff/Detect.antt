-- ===== src/Diff/Detect.antt =====
-- `isDiffContent`: whether a text looks like a diff.
use open_pi.Prelude.{
  ℕ, ◌+◌, ◌≡◌, Bool, true, false, not, ◌&&◌, ◌||◌, List, [], ◌∷◌, foldl, arith, ltb, leb,
  if◌then◌else◌, length, any, count_if,
}
use open_pi.Text.{Text, units, is_empty, starts_with, trim, split}
use open_pi.Diff.{is_hunk_line, is_add_line, is_del_line}

record Seen : Type 0 where
  add_count : ℕ
  del_count : ℕ
  has_hunk : Bool
  has_diff_header : Bool

abbrev pub is_git_header : Text → Bool
is_git_header line =
    starts_with line (units "diff --git")
    || starts_with line (units "--- a/")
    || starts_with line (units "+++ b/")

-- one round of the loop
see : Seen → Text → Seen
see s line =
    if is_git_header line
    then record s { has_diff_header = true }
    else if is_hunk_line line
    then record s { has_hunk = true }
    else if is_add_line line
    then record s { add_count = s.add_count + 1 }
    else if is_del_line line
    then record s { del_count = s.del_count + 1 }
    else s

verdict : Seen → Bool
verdict s =
    s.has_diff_header
    || s.has_hunk
    || (ltb 0 s.add_count && ltb 0 s.del_count)
    || leb 3 s.add_count
    || leb 3 s.del_count

unfoldable pub is_diff_content : Text → Bool
unfolding see verdict
is_diff_content text =
    let lines = split b'\n' (trim text) in
    if is_empty text
    then false
    else if ltb (length lines) 2
    then false
    else verdict (
        foldl see
          (record { add_count = 0; del_count = 0; has_hunk = false; has_diff_header = false })
          lines)

-- An added or deleted line is no header of a file or of a hunk.
add-not-header :
    (line : Text)
    → is_add_line line ≡ true
    → (is_git_header line ≡ false) × (is_hunk_line line ≡ false) × (is_del_line line ≡ false)
unfolding starts_with
add-not-header [] h = cc
add-not-header (c ∷ line) h = ground arith

del-not-header :
    (line : Text)
    → is_del_line line ≡ true
    → (is_git_header line ≡ false) × (is_hunk_line line ≡ false) × (is_add_line line ≡ false)
unfolding starts_with
del-not-header [] h = cc
del-not-header (c ∷ line) h = ground arith

git-not-hunk : (line : Text) → is_git_header line ≡ true → is_hunk_line line ≡ false
unfolding starts_with
git-not-hunk [] h = cc
git-not-hunk (c ∷ line) h = ground arith

record Sees (s t : Seen) (lines : List Text) : Type 0 where
  adds : t.add_count ≡ s.add_count + count_if is_add_line lines
  dels : t.del_count ≡ s.del_count + count_if is_del_line lines
  hunk : t.has_hunk ≡ (s.has_hunk || any is_hunk_line lines)
  diff_header : t.has_diff_header ≡ (s.has_diff_header || any is_git_header lines)

see-Sees : (s : Seen) (line : Text) → Sees s (see s line) (line ∷ [])
unfolding see
see-Sees s line = record {
  adds = ground (arith, add-not-header line, del-not-header line, git-not-hunk line);
  dels = ground (arith, add-not-header line, del-not-header line, git-not-hunk line);
  hunk = ground (arith, add-not-header line, del-not-header line, git-not-hunk line);
  diff_header = ground (arith, add-not-header line, del-not-header line, git-not-hunk line);
}

foldl-Sees : (s : Seen) (lines : List Text) → Sees s (foldl see s lines) lines
foldl-Sees s [] = record {
  adds = omega arith;
  dels = omega arith;
  hunk = ground arith;
  diff_header = ground arith;
}
foldl-Sees s (line ∷ lines) =
    let a = see-Sees s line in
    let b = foldl-Sees (see s line) lines in
    record {
      adds = ground (arith, a.adds, b.adds);
      dels = ground (arith, a.dels, b.dels);
      hunk = ground (arith, a.hunk, b.hunk);
      diff_header = ground (arith, a.diff_header, b.diff_header);
    }

-- The loop decides by what the lines hold as a whole: at least two lines, and among them a git
-- header, or a hunk header, or both added and deleted lines, or three of one kind. An added or
-- deleted line counts wherever it stands.
pub is_diff_content_lem :
    (t : Text)
    → is_diff_content t ≡ (
        not (is_empty t)
        && leb 2 (length (split b'\n' (trim t)))
        && (any is_git_header (split b'\n' (trim t))
            || any is_hunk_line (split b'\n' (trim t))
            || (ltb 0 (count_if is_add_line (split b'\n' (trim t)))
                && ltb 0 (count_if is_del_line (split b'\n' (trim t))))
            || leb 3 (count_if is_add_line (split b'\n' (trim t)))
            || leb 3 (count_if is_del_line (split b'\n' (trim t)))))
unfolding is_diff_content
is_diff_content_lem t =
    let lines = split b'\n' (trim t) in
    let s =
      foldl-Sees
        (record { add_count = 0; del_count = 0; has_hunk = false; has_diff_header = false })
        lines in
    rw (s.adds, s.dels, s.hunk, s.diff_header) (ground arith)
