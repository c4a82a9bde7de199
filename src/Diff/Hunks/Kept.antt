-- ===== src/Diff/Hunks/Kept.antt =====
-- `parseDiffHunks` keeps every line of the diff: the file headers and the hunks' lines, put one
-- behind the other, are the lines of the text.
use mathlib.Core.List.{map-append}
use open_pi.Prelude.{
  ◌+◌, ◌≡◌, refl, ap, sym, subst, ◌∙◌, true, Option, none, some, List, [], ◌∷◌, ◌++◌, map,
  append_assoc, append-nil, arith, Pairs, Pairs-concat, flat_map, flat_map-append,
}
use open_pi.Text.{Text, split}
use open_pi.Diff.{header, DiffLine, is_add_line, is_del_line}
use open_pi.Diff.Shape.{Writes, drop_of_starts_with, context-Writes}
use open_pi.Diff.Lines.{plain}
use open_pi.Diff.Hunks.{
  DiffHunk, Parsing, hunk_line, closed, open_hunk, push_header, synthetic, push_add, push_del,
  push_ctx, parse_diff_hunks,
}
use open_pi.Diff.Hunks.Loop.{with_synthetic, loop_inv}

-- all lines of a parsed diff, in order
abbrev pub all_lines : List Text → List DiffHunk → List DiffLine
all_lines headers hunks = map (plain header) headers ++ flat_map (λ h. h.lines) hunks

-- a line behind the last hunk's lines stands behind all lines
pub all_lines-concat :
    (hs : List Text) (hunks : List DiffHunk) (h h' : DiffHunk) (l : DiffLine)
    → h'.lines ≡ h.lines ++ l ∷ []
    → all_lines hs (hunks ++ h' ∷ []) ≡ all_lines hs (hunks ++ h ∷ []) ++ l ∷ []
all_lines-concat hs hunks h h' l e = simp (flat_map-append, e, append-nil, append_assoc)

pub all_lines-open :
    (hs : List Text) (hunks : List DiffHunk) (h : DiffHunk) (l : DiffLine)
    → h.lines ≡ l ∷ []
    → all_lines hs (hunks ++ h ∷ []) ≡ all_lines hs hunks ++ l ∷ []
all_lines-open hs hunks h l e = simp (flat_map-append, e, append-nil, append_assoc)

all_lines-empty :
    (hs : List Text) (hunks : List DiffHunk) (h : DiffHunk)
    → h.lines ≡ []
    → all_lines hs (hunks ++ h ∷ []) ≡ all_lines hs hunks
all_lines-empty hs hunks h e = simp (flat_map-append, e, append-nil)

all_lines-header :
    (hs : List Text) (raw : Text)
    → all_lines (hs ++ raw ∷ []) [] ≡ all_lines hs [] ++ plain header raw ∷ []
all_lines-header hs raw = simp (map-append, append-nil)

pub closed-none : (hunks : List DiffHunk) (o : Option DiffHunk) → o ≡ none → closed hunks o ≡ hunks
closed-none hunks none e = refl
closed-none hunks (some h) e = cc

record Keeps (p : Parsing) (done : List Text) : Type 0 where
  kept : Pairs Writes (all_lines p.headers (closed p.hunks p.current_hunk)) done
  headers_first : p.current_hunk ≡ none → p.hunks ≡ []

module _ (p : Parsing) (done : List Text) where
  Keeps-open : (raw : Text) → Keeps p done → Keeps (open_hunk raw p) (done ++ raw ∷ [])
  unfolding open_hunk
  Keeps-open raw k = record {
    kept =
        subst (λ ls. Pairs Writes ls (done ++ raw ∷ []))
          (sym (all_lines-open p.headers (closed p.hunks p.current_hunk) _ (hunk_line raw) refl))
          (Pairs-concat Writes _ done k.kept refl);
    headers_first = λ e. cc;
  }

  Keeps-header :
      (raw : Text)
      → Keeps p done
      → p.current_hunk ≡ none
      → Keeps (push_header raw p) (done ++ raw ∷ [])
  unfolding push_header
  Keeps-header raw k e = record {
    kept =
        let none_yet : closed p.hunks p.current_hunk ≡ [] =
          closed-none p.hunks p.current_hunk e ∙ k.headers_first e in
        subst (λ hs. Pairs Writes (all_lines (p.headers ++ raw ∷ []) hs) (done ++ raw ∷ []))
          (sym none_yet)
          (subst (λ ls. Pairs Writes ls (done ++ raw ∷ [])) (sym (all_lines-header p.headers raw))
            (Pairs-concat Writes _ done
              (subst (λ hs. Pairs Writes (all_lines p.headers hs) done) none_yet k.kept) refl));
    headers_first = k.headers_first;
  }

  Keeps-synthetic : Keeps p done → p.current_hunk ≡ none → Keeps (with_synthetic p) done
  unfolding synthetic
  Keeps-synthetic k e = record {
    kept =
        subst (λ ls. Pairs Writes ls done)
          (ap (all_lines p.headers) (closed-none p.hunks p.current_hunk e)
            ∙ sym (all_lines-empty p.headers p.hunks (synthetic (p.hunk_counter + 1)) refl))
          k.kept;
    headers_first = λ e. cc;
  }

  module _ (raw : Text) (h : DiffHunk) (k : Keeps p done) (e : p.current_hunk ≡ some h) where
    -- the lines before, with the current hunk named
    kept_before : Pairs Writes (all_lines p.headers (p.hunks ++ h ∷ [])) done
    kept_before = subst (λ o. Pairs Writes (all_lines p.headers (closed p.hunks o)) done) e k.kept

    kept_after :
        (h' : DiffHunk) (l : DiffLine)
        → h'.lines ≡ h.lines ++ l ∷ []
        → Writes l raw
        → Pairs Writes (all_lines p.headers (p.hunks ++ h' ∷ [])) (done ++ raw ∷ [])
    kept_after h' l same w =
        subst (λ ls. Pairs Writes ls (done ++ raw ∷ []))
          (sym (all_lines-concat p.headers p.hunks h h' l same))
          (Pairs-concat Writes (all_lines p.headers (p.hunks ++ h ∷ [])) done kept_before w)

    Keeps-add : is_add_line raw ≡ true → Keeps (push_add raw h p) (done ++ raw ∷ [])
    unfolding push_add
    Keeps-add a = record {
      kept = kept_after _ _ refl (drop_of_starts_with b'+' raw (ground arith));
      headers_first = λ e. cc;
    }

    Keeps-del : is_del_line raw ≡ true → Keeps (push_del raw h p) (done ++ raw ∷ [])
    unfolding push_del
    Keeps-del a = record {
      kept = kept_after _ _ refl (drop_of_starts_with b'-' raw (ground arith));
      headers_first = λ e. cc;
    }

    Keeps-ctx : Keeps (push_ctx raw h p) (done ++ raw ∷ [])
    unfolding push_ctx
    Keeps-ctx = record { kept = kept_after _ _ refl (context-Writes raw); headers_first = λ e. cc }

-- No line is lost, repeated or moved: the file headers, then the lines of the hunks in order,
-- stand one by one for the lines of the text, and each tells the text of its line.
pub parse_diff_hunks-Writes :
    (t : Text)
    → Pairs Writes
        (all_lines (parse_diff_hunks t).headers (parse_diff_hunks t).hunks)
        (split b'\n' t)
unfolding parse_diff_hunks
parse_diff_hunks-Writes t =
    (loop_inv Keeps (λ p d raw k. Keeps-open p d raw k) (λ p d raw k e. Keeps-header p d raw k e)
      (λ p d k e. Keeps-synthetic p d k e) (λ p d raw h k e a. Keeps-add p d raw h k e a)
      (λ p d raw h k e a. Keeps-del p d raw h k e a) (λ p d raw h k e. Keeps-ctx p d raw h k e) t
      (record { kept = tt; headers_first = λ e. refl })).kept
