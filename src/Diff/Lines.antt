-- ===== src/Diff/Lines.antt =====
-- `parseDiffLines`: the loop over the lines of a diff, with its variables as a record.
pub mod Numbering
use open_pi.Prelude.{
  ℕ, ◌+◌, Bool, Option, none, some, List, [], ◌∷◌, ◌++◌, foldl, if◌then◌else◌, drop,
}
use open_pi.Text.{Text, split}
use open_pi.Diff.{
  LineKind, add, del, hunk, header, ctx, DiffLine, HunkHeader, match_header, is_hunk_line,
  is_header_line, is_add_line, is_del_line, context_content,
}

pub record Parsing : Type 0 where
  pub lines : List DiffLine
  pub adds : ℕ
  pub dels : ℕ
  pub old_cur : ℕ
  pub new_cur : ℕ

abbrev pub plain : LineKind → Text → DiffLine
plain kind raw = record { kind = kind; content = raw; old_line_no = none; new_line_no = none }

-- a matching header sets both cursors
abbrev restart : Option HunkHeader → Parsing → Parsing
restart none p = p
restart (some h) p = record p { old_cur = h.old_start; new_cur = h.new_start }

push : DiffLine → Parsing → Parsing
push l p = record p { lines = p.lines ++ l ∷ [] }

push_add : Text → Parsing → Parsing
push_add raw p =
    let l : DiffLine = record {
      kind = add;
      content = drop 1 raw;
      old_line_no = none;
      new_line_no = some p.new_cur;
    } in
    record p { adds = p.adds + 1; lines = p.lines ++ l ∷ []; new_cur = p.new_cur + 1 }

push_del : Text → Parsing → Parsing
push_del raw p =
    let l : DiffLine = record {
      kind = del;
      content = drop 1 raw;
      old_line_no = some p.old_cur;
      new_line_no = none;
    } in
    record p { dels = p.dels + 1; lines = p.lines ++ l ∷ []; old_cur = p.old_cur + 1 }

push_ctx : Text → Parsing → Parsing
push_ctx raw p =
    let l : DiffLine = record {
      kind = ctx;
      content = context_content raw;
      old_line_no = some p.old_cur;
      new_line_no = some p.new_cur;
    } in
    record p { lines = p.lines ++ l ∷ []; old_cur = p.old_cur + 1; new_cur = p.new_cur + 1 }

-- one round of the loop
parse_line : Parsing → Text → Parsing
parse_line p raw =
    if is_hunk_line raw
    then push (plain hunk raw) (restart (match_header raw) p)
    else if is_header_line raw
    then push (plain header raw) p
    else if is_add_line raw
    then push_add raw p
    else if is_del_line raw
    then push_del raw p
    else push_ctx raw p

abbrev pub start : Parsing
start = record { lines = []; adds = 0; dels = 0; old_cur = 1; new_cur = 1 }

-- `{ lines, adds, dels }` are the fields that the function returns
unfoldable pub parse_diff_lines : Text → Parsing
unfolding parse_line push push_add push_del push_ctx
parse_diff_lines raw_text = foldl parse_line start (split b'\n' raw_text)
