-- ===== src/Diff/Lines/Numbering.antt =====
-- What `parseDiffLines` returns: one diff line for each line of the text, in order, with the
-- line's text, its numbers on both sides, and the counts of added and deleted lines.
use open_pi.Prelude.{
  ℕ, ◌+◌, ◌≡◌, refl, sym, ap, ◌∙◌, inl, inr, true, none, some, List, [], ◌∷◌, ◌++◌, foldl,
  append_assoc, append-nil, arith, Bool-cases, drop, Pairs, count_if, count_if-append,
}
use open_pi.Text.{Text, split}
use open_pi.Diff.{
  add, del, hunk, header, ctx, DiffLine, match_header, is_hunk_line, is_header_line, is_add_line,
  is_del_line, context_content,
}
use open_pi.Diff.Shape.{Writes, HasNumbers, is_add, is_del, drop_of_starts_with, context-Writes}
use open_pi.Diff.Lines.{
  Parsing, plain, restart, push, push_add, push_del, push_ctx, parse_line, start, parse_diff_lines,
}

-- the next numbers behind a line: a readable hunk header sets them
abbrev pub next_old : ℕ → DiffLine → ℕ
next_old o l = elim l.kind [
  | add ↦ o
  | del ↦ o + 1
  | hunk ↦ elim (match_header l.content) [ none ↦ o | some h ↦ h.old_start ]
  | header ↦ o
  | ctx ↦ o + 1
]

abbrev pub next_new : ℕ → DiffLine → ℕ
next_new n l = elim l.kind [
  | add ↦ n + 1
  | del ↦ n
  | hunk ↦ elim (match_header l.content) [ none ↦ n | some h ↦ h.new_start ]
  | header ↦ n
  | ctx ↦ n + 1
]

abbrev pub Numbered : ℕ → ℕ → List DiffLine → Type 0
Numbered o n [] = Unit
Numbered o n (l ∷ ls) = HasNumbers o n l × Numbered (next_old o l) (next_new n l) ls

-- one round adds one line
record Round (p q : Parsing) (raw : Text) : Type 0 where
  line : DiffLine
  pushed : q.lines ≡ p.lines ++ line ∷ []
  writes : Writes line raw
  numbers : HasNumbers p.old_cur p.new_cur line
  old_next : q.old_cur ≡ next_old p.old_cur line
  new_next : q.new_cur ≡ next_new p.new_cur line
  adds_count : q.adds ≡ p.adds + count_if is_add (line ∷ [])
  dels_count : q.dels ≡ p.dels + count_if is_del (line ∷ [])

module _ (p : Parsing) (raw : Text) where
  Round-hunk : Round p (push (plain hunk raw) (restart (match_header raw) p)) raw
  unfolding push
  Round-hunk = record {
    line = plain hunk raw;
    pushed = ground arith;
    writes = refl;
    numbers = (refl, refl);
    old_next = ground arith;
    new_next = ground arith;
    adds_count = ground arith;
    dels_count = ground arith;
  }

  Round-header : Round p (push (plain header raw) p) raw
  unfolding push
  Round-header = record {
    line = plain header raw;
    pushed = refl;
    writes = refl;
    numbers = (refl, refl);
    old_next = refl;
    new_next = refl;
    adds_count = ground arith;
    dels_count = ground arith;
  }

  Round-add : is_add_line raw ≡ true → Round p (push_add raw p) raw
  unfolding push_add
  Round-add h = record {
    line = record {
      kind = add;
      content = drop 1 raw;
      old_line_no = none;
      new_line_no = some p.new_cur;
    };
    pushed = refl;
    writes = drop_of_starts_with b'+' raw (ground arith);
    numbers = (refl, refl);
    old_next = refl;
    new_next = refl;
    adds_count = refl;
    dels_count = ground arith;
  }

  Round-del : is_del_line raw ≡ true → Round p (push_del raw p) raw
  unfolding push_del
  Round-del h = record {
    line = record {
      kind = del;
      content = drop 1 raw;
      old_line_no = some p.old_cur;
      new_line_no = none;
    };
    pushed = refl;
    writes = drop_of_starts_with b'-' raw (ground arith);
    numbers = (refl, refl);
    old_next = refl;
    new_next = refl;
    adds_count = ground arith;
    dels_count = refl;
  }

  Round-ctx : Round p (push_ctx raw p) raw
  unfolding push_ctx
  Round-ctx = record {
    line = record {
      kind = ctx;
      content = context_content raw;
      old_line_no = some p.old_cur;
      new_line_no = some p.new_cur;
    };
    pushed = refl;
    writes = context-Writes raw;
    numbers = (refl, refl);
    old_next = refl;
    new_next = refl;
    adds_count = ground arith;
    dels_count = ground arith;
  }

  parse_line-Round : Round p (parse_line p raw) raw
  unfolding parse_line
  parse_line-Round = elim (Bool-cases (is_hunk_line raw)) [
    | inl a ↦ rw a Round-hunk
    | inr a ↦ elim (Bool-cases (is_header_line raw)) [
      | inl b ↦ rw (a, b) Round-header
      | inr b ↦ elim (Bool-cases (is_add_line raw)) [
        | inl c ↦ rw (a, b, c) (Round-add c)
        | inr c ↦ elim (Bool-cases (is_del_line raw)) [
          | inl d ↦ rw (a, b, c, d) (Round-del d)
          | inr d ↦ rw (a, b, c, d) Round-ctx
        ]
      ]
    ]
  ]

-- all rounds: the new lines stand behind the old ones
record Rounds (p q : Parsing) (raws : List Text) : Type 0 where
  new_lines : List DiffLine
  pushed : q.lines ≡ p.lines ++ new_lines
  writes : Pairs Writes new_lines raws
  numbers : Numbered p.old_cur p.new_cur new_lines
  adds_count : q.adds ≡ p.adds + count_if is_add new_lines
  dels_count : q.dels ≡ p.dels + count_if is_del new_lines

foldl-Rounds : (p : Parsing) (raws : List Text) → Rounds p (foldl parse_line p raws) raws
foldl-Rounds p [] = record {
  new_lines = [];
  pushed = sym (append-nil p.lines);
  writes = tt;
  numbers = tt;
  adds_count = omega arith;
  dels_count = omega arith;
}
foldl-Rounds p (raw ∷ raws) =
    let r = parse_line-Round p raw in
    let rest = foldl-Rounds (parse_line p raw) raws in
    record {
      new_lines = r.line ∷ rest.new_lines;
      pushed =
          rest.pushed
          ∙ (ap (λ ls. ls ++ rest.new_lines) r.pushed
              ∙ append_assoc p.lines (r.line ∷ []) rest.new_lines);
      writes = (r.writes, rest.writes);
      numbers = (r.numbers, rw (← r.old_next, ← r.new_next) rest.numbers);
      adds_count = omega (
        arith,
        rest.adds_count,
        r.adds_count,
        count_if-append is_add (r.line ∷ []) rest.new_lines,
      );
      dels_count = omega (
        arith,
        rest.dels_count,
        r.dels_count,
        count_if-append is_del (r.line ∷ []) rest.new_lines,
      );
    }

-- the loop starts with no lines, so its lines are the new ones
parsed : (t : Text) → Rounds start (parse_diff_lines t) (split b'\n' t)
unfolding parse_diff_lines
parsed t = foldl-Rounds start (split b'\n' t)

-- Each line of the text gives one diff line, in order, from which the line's text can be told.
pub parse_diff_lines-Writes : (t : Text) → Pairs Writes (parse_diff_lines t).lines (split b'\n' t)
parse_diff_lines-Writes t = let r = parsed t in rw r.pushed r.writes

-- The line numbers start at 1 on both sides; a readable hunk header sets them, and each later line
-- has the next number of the sides that it belongs to, and none on the other.
pub parse_diff_lines-Numbered : (t : Text) → Numbered 1 1 (parse_diff_lines t).lines
parse_diff_lines-Numbered t = let r = parsed t in rw r.pushed r.numbers

-- `adds` and `dels` count the added and the deleted lines among the diff lines.
pub parse_diff_lines-counts :
    (t : Text)
    → ((parse_diff_lines t).adds ≡ count_if is_add (parse_diff_lines t).lines)
      × ((parse_diff_lines t).dels ≡ count_if is_del (parse_diff_lines t).lines)
parse_diff_lines-counts t =
    let r = parsed t in
    (
      omega (arith, r.adds_count, ap (count_if is_add) r.pushed),
      omega (arith, r.dels_count, ap (count_if is_del) r.pushed),
    )
