-- ===== src/Diff/Hunks.antt =====
-- `DiffHunk`, `ParsedDiff` and `parseDiffHunks`: the loop that groups the lines of a diff into
-- hunks, with its variables as a record.
pub mod Loop
pub mod Kept
pub mod Stats
pub mod Ids
pub mod Misread
use open_pi.Prelude.{
  ℕ, ◌+◌, not, ◌&&◌, Option, none, some, List, [], ◌∷◌, ◌++◌, foldl, if◌then◌else◌, drop, or_else,
  is_some, ◌>>=◌,
}
use open_pi.Text.{Text, units, split}
use open_pi.Text.Decimal.{show}
use open_pi.Diff.{
  add, del, hunk, ctx, DiffLine, HunkHeader, match_header, is_hunk_line, is_header_line,
  is_add_line, is_del_line, context_content,
}

pub data HunkStatus : Type 0 where
  pending accepted rejected : HunkStatus

pub record DiffHunk : Type 0 where
  pub id : Text
  pub header : Text
  pub old_start : ℕ
  pub old_count : ℕ
  pub new_start : ℕ
  pub new_count : ℕ
  pub lines : List DiffLine
  pub adds : ℕ
  pub dels : ℕ
  pub status : HunkStatus
  pub edited_lines : Option (List Text)

pub record ParsedDiff : Type 0 where
  pub headers : List Text
  pub hunks : List DiffHunk
  pub total_adds : ℕ
  pub total_dels : ℕ

pub record Parsing : Type 0 where
  pub headers : List Text
  pub hunks : List DiffHunk
  pub current_hunk : Option DiffHunk
  pub total_adds : ℕ
  pub total_dels : ℕ
  pub hunk_counter : ℕ
  pub old_cur : ℕ
  pub new_cur : ℕ

-- `hunk-${hunkCounter}-${oldStart}-${newStart}`
unfoldable pub hunk_id : ℕ → ℕ → ℕ → Text
hunk_id counter old_start new_start =
    units "hunk-"
    ++ (show counter ++ (units "-" ++ (show old_start ++ (units "-" ++ show new_start))))

abbrev pub hunk_line : Text → DiffLine
hunk_line raw = record { kind = hunk; content = raw; old_line_no = none; new_line_no = none }

-- `if (currentHunk) hunks.push(currentHunk)`
abbrev pub closed : List DiffHunk → Option DiffHunk → List DiffHunk
closed hunks none = hunks
closed hunks (some h) = hunks ++ h ∷ []

-- `match?.[i] ? parseInt(match[i], 10) : 1`
abbrev pub group : Option HunkHeader → (HunkHeader → Option ℕ) → ℕ
group m field = or_else (m >>= field) 1

pub open_hunk : Text → Parsing → Parsing
unfolding match_header hunk_id
open_hunk raw p =
    let counter = p.hunk_counter + 1 in
    let m = match_header raw in
    let old_start = group m (λ h. some h.old_start) in
    let new_start = group m (λ h. some h.new_start) in
    let opened : DiffHunk = record {
      id = hunk_id counter old_start new_start;
      header = raw;
      old_start = old_start;
      old_count = group m (λ h. h.old_count);
      new_start = new_start;
      new_count = group m (λ h. h.new_count);
      lines = hunk_line raw ∷ [];
      adds = 0;
      dels = 0;
      status = pending;
      edited_lines = none;
    } in
    record p {
      hunks = closed p.hunks p.current_hunk;
      current_hunk = some opened;
      hunk_counter = counter;
      old_cur = old_start;
      new_cur = new_start;
    }

pub push_header : Text → Parsing → Parsing
push_header raw p = record p { headers = p.headers ++ raw ∷ [] }

-- a diff with no `@@` line gets a first hunk of its own
pub synthetic : ℕ → DiffHunk
unfolding hunk_id
synthetic counter = record {
  id = hunk_id counter 1 1;
  header = units "@@ -1,1 +1,1 @@";
  old_start = 1;
  old_count = 1;
  new_start = 1;
  new_count = 1;
  lines = [];
  adds = 0;
  dels = 0;
  status = pending;
  edited_lines = none;
}

pub push_add : Text → DiffHunk → Parsing → Parsing
push_add raw h p =
    let l : DiffLine = record {
      kind = add;
      content = drop 1 raw;
      old_line_no = none;
      new_line_no = some p.new_cur;
    } in
    record p {
      total_adds = p.total_adds + 1;
      current_hunk = some (record h { adds = h.adds + 1; lines = h.lines ++ l ∷ [] });
      new_cur = p.new_cur + 1;
    }

pub push_del : Text → DiffHunk → Parsing → Parsing
push_del raw h p =
    let l : DiffLine = record {
      kind = del;
      content = drop 1 raw;
      old_line_no = some p.old_cur;
      new_line_no = none;
    } in
    record p {
      total_dels = p.total_dels + 1;
      current_hunk = some (record h { dels = h.dels + 1; lines = h.lines ++ l ∷ [] });
      old_cur = p.old_cur + 1;
    }

pub push_ctx : Text → DiffHunk → Parsing → Parsing
push_ctx raw h p =
    let l : DiffLine = record {
      kind = ctx;
      content = context_content raw;
      old_line_no = some p.old_cur;
      new_line_no = some p.new_cur;
    } in
    record p {
      current_hunk = some (record h { lines = h.lines ++ l ∷ [] });
      old_cur = p.old_cur + 1;
      new_cur = p.new_cur + 1;
    }

push_body : Text → DiffHunk → Parsing → Parsing
push_body raw h p =
    if is_add_line raw
    then push_add raw h p
    else if is_del_line raw
    then push_del raw h p
    else push_ctx raw h p

-- a line that opens no hunk and is no file header goes into the current hunk
body_line : Option DiffHunk → Text → Parsing → Parsing
body_line (some h) raw p = push_body raw h p
body_line none raw p =
    let counter = p.hunk_counter + 1 in
    push_body raw (synthetic counter) (record p { hunk_counter = counter })

-- one round of the loop
pub parse_line : Parsing → Text → Parsing
parse_line p raw =
    if is_hunk_line raw
    then open_hunk raw p
    else if not (is_some p.current_hunk) && is_header_line raw
    then push_header raw p
    else body_line p.current_hunk raw p

abbrev pub start : Parsing
start = record {
  headers = [];
  hunks = [];
  current_hunk = none;
  total_adds = 0;
  total_dels = 0;
  hunk_counter = 0;
  old_cur = 1;
  new_cur = 1;
}

finish : Parsing → ParsedDiff
finish p = record {
  headers = p.headers;
  hunks = closed p.hunks p.current_hunk;
  total_adds = p.total_adds;
  total_dels = p.total_dels;
}

unfoldable pub parse_diff_hunks : Text → ParsedDiff
unfolding parse_line open_hunk push_header body_line synthetic push_body push_add push_del push_ctx
    finish
parse_diff_hunks raw_text = finish (foldl parse_line start (split b'\n' raw_text))
