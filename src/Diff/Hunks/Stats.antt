-- ===== src/Diff/Hunks/Stats.antt =====
-- The statistics and the line numbers of the hunks that `parseDiffHunks` returns.
use mathlib.Core.List.{foldl-append}
use open_pi.Prelude.{
  ℕ, ◌+◌, ◌≡◌, refl, ap, sym, subst, ◌∙◌, Option, none, some, List, [], ◌∷◌, ◌++◌, foldl, arith,
  All, All-append, sum_of, sum_of-append, count_if, count_if-append,
}
use open_pi.Text.{Text, split}
use open_pi.Diff.{add, del, ctx, DiffLine}
use open_pi.Diff.Shape.{HasNumbers, is_add, is_del}
use open_pi.Diff.Hunks.{
  pending, DiffHunk, Parsing, closed, open_hunk, push_header, synthetic, push_add, push_del,
  push_ctx, parse_line, start, parse_diff_hunks,
}
use open_pi.Diff.Hunks.Loop.{with_synthetic, loop_inv}

-- the next numbers behind a line of a hunk
abbrev pub step_old : ℕ → DiffLine → ℕ
step_old o l = elim l.kind [ del ↦ o + 1 | ctx ↦ o + 1 | _ ↦ o ]

abbrev pub step_new : ℕ → DiffLine → ℕ
step_new n l = elim l.kind [ add ↦ n + 1 | ctx ↦ n + 1 | _ ↦ n ]

abbrev pub NumberedFrom : ℕ → ℕ → List DiffLine → Type 0
NumberedFrom o n [] = Unit
NumberedFrom o n (l ∷ ls) = HasNumbers o n l × NumberedFrom (step_old o l) (step_new n l) ls

abbrev end_old : ℕ → List DiffLine → ℕ
end_old o ls = foldl step_old o ls

abbrev end_new : ℕ → List DiffLine → ℕ
end_new n ls = foldl step_new n ls

end_old-concat :
    (o : ℕ) (ls : List DiffLine) (l : DiffLine)
    → end_old o (ls ++ l ∷ []) ≡ step_old (end_old o ls) l
end_old-concat o ls l = foldl-append step_old o ls (l ∷ [])

end_new-concat :
    (n : ℕ) (ls : List DiffLine) (l : DiffLine)
    → end_new n (ls ++ l ∷ []) ≡ step_new (end_new n ls) l
end_new-concat n ls l = foldl-append step_new n ls (l ∷ [])

NumberedFrom-concat :
    (o n : ℕ) (ls : List DiffLine) (l : DiffLine)
    → NumberedFrom o n ls
    → HasNumbers (end_old o ls) (end_new n ls) l
    → NumberedFrom o n (ls ++ l ∷ [])
NumberedFrom-concat o n [] l _ h = (h, tt)
NumberedFrom-concat o n (m ∷ ls) l (k, ks) h =
    (k, NumberedFrom-concat (step_old o m) (step_new n m) ls l ks h)

-- What a hunk that was just read satisfies: its statistics count its lines, its line numbers run
-- from its start on both sides, and the user has not touched it.
pub record IsParsed (h : DiffHunk) : Type 0 where
  pub counts_adds : h.adds ≡ count_if is_add h.lines
  pub counts_dels : h.dels ≡ count_if is_del h.lines
  pub numbered : NumberedFrom h.old_start h.new_start h.lines
  pub is_pending : h.status ≡ pending
  pub is_unedited : h.edited_lines ≡ none

-- the state's cursors are those behind the current hunk's last line
abbrev AtEnd : Option DiffHunk → ℕ → ℕ → Type 0
AtEnd none o n = (o ≡ 1) × (n ≡ 1)
AtEnd (some h) o n = (o ≡ end_old h.old_start h.lines) × (n ≡ end_new h.new_start h.lines)

record Counts (p : Parsing) (done : List Text) : Type 0 where
  parsed : All IsParsed (closed p.hunks p.current_hunk)
  adds : p.total_adds ≡ sum_of (λ h. h.adds) (closed p.hunks p.current_hunk)
  dels : p.total_dels ≡ sum_of (λ h. h.dels) (closed p.hunks p.current_hunk)
  cursors : AtEnd p.current_hunk p.old_cur p.new_cur

All-init {ℓ} :
    {A : Type ℓ} (P : A → Type 0) (xs : List A) (x : A) → All P (xs ++ x ∷ []) → All P xs × P x
All-init P [] x (h, _) = (tt, h)
All-init P (y ∷ xs) x (h, hs) = let (a, b) = All-init P xs x hs in ((h, a), b)

module _ (p : Parsing) (done : List Text) where
  Counts-open : (raw : Text) → Counts p done → Counts (open_hunk raw p) (done ++ raw ∷ [])
  unfolding open_hunk
  Counts-open raw c = record {
    parsed = All-append IsParsed (closed p.hunks p.current_hunk) _ c.parsed (
      record {
        counts_adds = refl;
        counts_dels = refl;
        numbered = ((refl, refl), tt);
        is_pending = refl;
        is_unedited = refl;
      },
      tt,
    );
    adds =
        omega
          (arith, c.adds, sum_of-append (λ (h : DiffHunk). h.adds) (closed p.hunks p.current_hunk));
    dels =
        omega
          (arith, c.dels, sum_of-append (λ (h : DiffHunk). h.dels) (closed p.hunks p.current_hunk));
    cursors = (refl, refl);
  }

  Counts-header : (raw : Text) → Counts p done → Counts (push_header raw p) (done ++ raw ∷ [])
  unfolding push_header
  Counts-header raw c = record {
    parsed = c.parsed;
    adds = c.adds;
    dels = c.dels;
    cursors = c.cursors;
  }

-- `Counts` with the current hunk named
record CountsAt (p : Parsing) (h : DiffHunk) : Type 0 where
  before : All IsParsed p.hunks
  current : IsParsed h
  adds : p.total_adds ≡ sum_of (λ h. h.adds) p.hunks + h.adds
  dels : p.total_dels ≡ sum_of (λ h. h.dels) p.hunks + h.dels
  old_end : p.old_cur ≡ end_old h.old_start h.lines
  new_end : p.new_cur ≡ end_new h.new_start h.lines

Counts-CountsAt :
    (p : Parsing) (done : List Text) (h : DiffHunk)
    → p.current_hunk ≡ some h
    → CountsAt p h
    → Counts p done
Counts-CountsAt p done h e c = record {
  parsed =
      subst (λ o. All IsParsed (closed p.hunks o)) (sym e)
        (All-append IsParsed p.hunks _ c.before (c.current, tt));
  adds =
      subst (λ o. p.total_adds ≡ sum_of (λ h. h.adds) (closed p.hunks o)) (sym e)
        (omega (arith, c.adds, sum_of-append (λ (h : DiffHunk). h.adds) p.hunks));
  dels =
      subst (λ o. p.total_dels ≡ sum_of (λ h. h.dels) (closed p.hunks o)) (sym e)
        (omega (arith, c.dels, sum_of-append (λ (h : DiffHunk). h.dels) p.hunks));
  cursors = subst (λ o. AtEnd o p.old_cur p.new_cur) (sym e) (c.old_end, c.new_end);
}

CountsAt-Counts :
    (p : Parsing) (done : List Text) (h : DiffHunk)
    → Counts p done
    → p.current_hunk ≡ some h
    → CountsAt p h
CountsAt-Counts p done h c e =
    let parts =
      All-init IsParsed p.hunks h (subst (λ o. All IsParsed (closed p.hunks o)) e c.parsed) in
    let total_adds = subst (λ o. p.total_adds ≡ sum_of (λ h. h.adds) (closed p.hunks o)) e c.adds in
    let total_dels = subst (λ o. p.total_dels ≡ sum_of (λ h. h.dels) (closed p.hunks o)) e c.dels in
    let at_end = subst (λ o. AtEnd o p.old_cur p.new_cur) e c.cursors in
    record {
      before = parts.0;
      current = parts.1;
      adds = omega (arith, total_adds, sum_of-append (λ (h : DiffHunk). h.adds) p.hunks (h ∷ []));
      dels = omega (arith, total_dels, sum_of-append (λ (h : DiffHunk). h.dels) p.hunks (h ∷ []));
      old_end = at_end.0;
      new_end = at_end.1;
    }

module _ (p : Parsing) (done : List Text) where
  Counts-synthetic : Counts p done → p.current_hunk ≡ none → Counts (with_synthetic p) done
  unfolding synthetic
  Counts-synthetic c e =
      let at_end = subst (λ o. AtEnd o p.old_cur p.new_cur) e c.cursors in
      let total_adds =
        subst (λ o. p.total_adds ≡ sum_of (λ h. h.adds) (closed p.hunks o)) e c.adds in
      let total_dels =
        subst (λ o. p.total_dels ≡ sum_of (λ h. h.dels) (closed p.hunks o)) e c.dels in
      Counts-CountsAt (with_synthetic p) done _ refl (record {
        before = subst (λ o. All IsParsed (closed p.hunks o)) e c.parsed;
        current = record {
          counts_adds = refl;
          counts_dels = refl;
          numbered = tt;
          is_pending = refl;
          is_unedited = refl;
        };
        adds = omega (arith, total_adds);
        dels = omega (arith, total_dels);
        old_end = at_end.0;
        new_end = at_end.1;
      })

  module _ (raw : Text) (h : DiffHunk) (k : Counts p done) (e : p.current_hunk ≡ some h) where
    Counts-add : Counts (push_add raw h p) (done ++ raw ∷ [])
    unfolding push_add
    Counts-add =
        let c = CountsAt-Counts p done h k e in
        Counts-CountsAt (push_add raw h p) (done ++ raw ∷ []) _ refl (record {
          before = c.before;
          current = record {
            counts_adds = omega (arith, c.current.counts_adds, count_if-append is_add h.lines);
            counts_dels = omega (arith, c.current.counts_dels, count_if-append is_del h.lines);
            numbered =
                NumberedFrom-concat _ _ h.lines _ c.current.numbered (refl, ap some c.new_end);
            is_pending = c.current.is_pending;
            is_unedited = c.current.is_unedited;
          };
          adds = omega (arith, c.adds);
          dels = omega (arith, c.dels);
          old_end = c.old_end ∙ sym (end_old-concat _ h.lines _);
          new_end = ap (λ t. t + 1) c.new_end ∙ sym (end_new-concat _ h.lines _);
        })

    Counts-del : Counts (push_del raw h p) (done ++ raw ∷ [])
    unfolding push_del
    Counts-del =
        let c = CountsAt-Counts p done h k e in
        Counts-CountsAt (push_del raw h p) (done ++ raw ∷ []) _ refl (record {
          before = c.before;
          current = record {
            counts_adds = omega (arith, c.current.counts_adds, count_if-append is_add h.lines);
            counts_dels = omega (arith, c.current.counts_dels, count_if-append is_del h.lines);
            numbered =
                NumberedFrom-concat _ _ h.lines _ c.current.numbered (ap some c.old_end, refl);
            is_pending = c.current.is_pending;
            is_unedited = c.current.is_unedited;
          };
          adds = omega (arith, c.adds);
          dels = omega (arith, c.dels);
          old_end = ap (λ t. t + 1) c.old_end ∙ sym (end_old-concat _ h.lines _);
          new_end = c.new_end ∙ sym (end_new-concat _ h.lines _);
        })

    Counts-ctx : Counts (push_ctx raw h p) (done ++ raw ∷ [])
    unfolding push_ctx
    Counts-ctx =
        let c = CountsAt-Counts p done h k e in
        Counts-CountsAt (push_ctx raw h p) (done ++ raw ∷ []) _ refl (record {
          before = c.before;
          current = record {
            counts_adds = omega (arith, c.current.counts_adds, count_if-append is_add h.lines);
            counts_dels = omega (arith, c.current.counts_dels, count_if-append is_del h.lines);
            numbered =
                NumberedFrom-concat _ _ h.lines _ c.current.numbered
                  (ap some c.old_end, ap some c.new_end);
            is_pending = c.current.is_pending;
            is_unedited = c.current.is_unedited;
          };
          adds = omega (arith, c.adds);
          dels = omega (arith, c.dels);
          old_end = ap (λ t. t + 1) c.old_end ∙ sym (end_old-concat _ h.lines _);
          new_end = ap (λ t. t + 1) c.new_end ∙ sym (end_new-concat _ h.lines _);
        })

counted : (t : Text) → Counts (foldl parse_line start (split b'\n' t)) (split b'\n' t)
counted t =
    loop_inv Counts (λ p d raw c. Counts-open p d raw c) (λ p d raw c e. Counts-header p d raw c)
      (λ p d c e. Counts-synthetic p d c e) (λ p d raw h c e a. Counts-add p d raw h c e)
      (λ p d raw h c e a. Counts-del p d raw h c e) (λ p d raw h c e. Counts-ctx p d raw h c e) t
      (record { parsed = tt; adds = refl; dels = refl; cursors = (refl, refl) })

-- Every hunk counts its added and deleted lines, numbers its lines from its start on both sides,
-- and is pending and unedited.
pub parse_diff_hunks-IsParsed : (t : Text) → All IsParsed (parse_diff_hunks t).hunks
unfolding parse_diff_hunks
parse_diff_hunks-IsParsed t = (counted t).parsed

-- The totals of the diff are the sums of the hunks' statistics.
pub parse_diff_hunks-totals :
    (t : Text)
    → ((parse_diff_hunks t).total_adds ≡ sum_of (λ h. h.adds) (parse_diff_hunks t).hunks)
      × ((parse_diff_hunks t).total_dels ≡ sum_of (λ h. h.dels) (parse_diff_hunks t).hunks)
unfolding parse_diff_hunks
parse_diff_hunks-totals t = ((counted t).adds, (counted t).dels)
