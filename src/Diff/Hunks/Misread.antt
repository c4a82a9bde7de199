-- ===== src/Diff/Hunks/Misread.antt =====
-- Lines that `parseDiffHunks` reads as context although a diff means something else by them.
use mathlib.Core.List.{foldl-append}
use open_pi.Prelude.{
  ℕ, ◌+◌, ◌≡◌, refl, ap, sym, ◌∙◌, inl, inr, true, Option, none, some, List, [], ◌∷◌, ◌++◌, foldl,
  map, arith, Bool-cases, ◌==◌, ==_refl,
}
use open_pi.Text.{Text, units, split, starts_with}
use open_pi.Text.Split.{Lacks, split_eq, split_part, split-cons, split_sep, split_other}
use open_pi.Diff.{LineKind, DiffLine, is_hunk_line}
use open_pi.Diff.Hunks.{
  DiffHunk, Parsing, hunk_line, closed, synthetic, push_body, push_ctx, open_hunk, body_line,
  parse_line, start, parse_diff_hunks,
}
use open_pi.Diff.Hunks.Kept.{all_lines, all_lines-concat, all_lines-open, closed-none}

-- a line break at the end of a text makes one more part, which is empty
split-end : (sep : ℕ) (s : Text) → split sep (s ++ sep ∷ []) ≡ split sep s ++ [] ∷ []
split-end sep [] =
    split_sep sep sep [] [] [] (unfold split in refl) (==_refl sep) ∙ (unfold split in refl)
split-end sep (c ∷ s) =
    let (p, ps, e) = split-cons sep s in
    let e' : split sep (s ++ sep ∷ []) ≡ p ∷ (ps ++ [] ∷ []) =
      split-end sep s ∙ ap (λ parts. parts ++ [] ∷ []) e in
    elim (Bool-cases (c == sep)) [
      | inl same ↦
          split_sep sep c (s ++ sep ∷ []) p (ps ++ [] ∷ []) e' same
          ∙ sym (ap (λ parts. parts ++ [] ∷ []) (split_sep sep c s p ps e same))
      | inr other ↦
          split_other sep c (s ++ sep ∷ []) p (ps ++ [] ∷ []) e' other
          ∙ sym (ap (λ parts. parts ++ [] ∷ []) (split_other sep c s p ps e other))
    ]

abbrev lines_of : Parsing → List DiffLine
lines_of p = all_lines p.headers (closed p.hunks p.current_hunk)

parse_line-nil : (p : Parsing) → parse_line p [] ≡ body_line p.current_hunk [] p
unfolding parse_line starts_with
parse_line-nil p = ground arith

-- the context line that an empty line gives
empty_line : Parsing → DiffLine
empty_line p = record {
  kind = LineKind.ctx;
  content = [];
  old_line_no = some p.old_cur;
  new_line_no = some p.new_cur;
}

-- an empty line becomes an empty context line behind all others
body_line-nil :
    (p : Parsing) (o : Option DiffHunk)
    → p.current_hunk ≡ o
    → (l : DiffLine) × (lines_of (body_line o [] p) ≡ lines_of p ++ l ∷ [])
      × (l.kind ≡ LineKind.ctx)
      × (l.content ≡ [])
unfolding body_line push_body push_ctx synthetic starts_with empty_line
body_line-nil p none e = (
  empty_line p,
  all_lines-open p.headers p.hunks
        (record (synthetic (p.hunk_counter + 1)) { lines = empty_line p ∷ [] }) (empty_line p) refl
      ∙ sym (
          ap (λ hs. all_lines p.headers hs ++ empty_line p ∷ [])
            (closed-none p.hunks p.current_hunk e)),
  refl,
  refl,
)
body_line-nil p (some h) e = (
  empty_line p,
  all_lines-concat p.headers p.hunks h (record h { lines = h.lines ++ empty_line p ∷ [] })
        (empty_line p) refl
      ∙ sym (ap (λ o. all_lines p.headers (closed p.hunks o) ++ empty_line p ∷ []) e),
  refl,
  refl,
)

-- A line break at the end of the diff, with which diffs end, adds an empty context line to the last
-- hunk, which the diff does not have.
pub parse_diff_hunks-end :
    (t : Text)
    → (l : DiffLine) × (all_lines
          (parse_diff_hunks (t ++ b'\n' ∷ [])).headers
          (parse_diff_hunks (t ++ b'\n' ∷ [])).hunks
        ≡ all_lines (parse_diff_hunks t).headers (parse_diff_hunks t).hunks ++ l ∷ [])
      × (l.kind ≡ LineKind.ctx)
      × (l.content ≡ [])
unfolding parse_diff_hunks
parse_diff_hunks-end t =
    let p = foldl parse_line start (split b'\n' t) in
    let (l, added, kind, content) = body_line-nil p p.current_hunk refl in
    let last : foldl parse_line start (split b'\n' (t ++ b'\n' ∷ []))
        ≡ body_line p.current_hunk [] p =
      ap (foldl parse_line start) (split-end b'\n' t)
      ∙ (foldl-append parse_line start (split b'\n' t) ([] ∷ []) ∙ parse_line-nil p) in
    (l, ap lines_of last ∙ added, kind, content)

-- A deleted line that begins with two hyphens stands in a diff with three; inside a hunk it is read
-- as context, hyphens included, and not as a deletion.
pub parse_diff_hunks-hyphens :
    (top s : Text)
    → is_hunk_line top ≡ true
    → Lacks b'\n' top
    → Lacks b'\n' s
    → (l : DiffLine) × (map
          (λ h. h.lines)
          (parse_diff_hunks (top ++ b'\n' ∷ (units "---" ++ s))).hunks
        ≡ (hunk_line top ∷ l ∷ []) ∷ [])
      × (l.kind ≡ LineKind.ctx)
      × (l.content ≡ units "---" ++ s)
      × ((parse_diff_hunks (top ++ b'\n' ∷ (units "---" ++ s))).total_dels ≡ 0)
unfolding parse_diff_hunks starts_with
parse_diff_hunks-hyphens top s h a b =
    let raw = units "---" ++ s in
    let parts : split b'\n' (top ++ b'\n' ∷ raw) ≡ top ∷ raw ∷ [] =
      split_part b'\n' top raw a ∙ ap (◌∷◌ top) (split_eq b'\n' raw (refl, (refl, (refl, b)))) in
    let opened : parse_line start top ≡ open_hunk top start = rw h refl in
    (
      record {
        kind = LineKind.ctx;
        content = raw;
        old_line_no = some (open_hunk top start).old_cur;
        new_line_no = some (open_hunk top start).new_cur;
      },
      rw (parts, opened) refl,
      refl,
      refl,
      rw (parts, opened) refl,
    )
