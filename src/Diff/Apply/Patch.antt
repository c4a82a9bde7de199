-- ===== src/Diff/Apply/Patch.antt =====
-- Hunks that fit the source, in the order of the source: the result is the source with every hunk
-- that was not rejected replaced in its own place.
use open_pi.Prelude.{
  ℕ, ◌+◌, ◌-◌, ◌<◌, ◌≤◌, ◌≡◌, refl, ap, sym, subst, ◌∙◌, ◌≢◌, inl, inr, none, List, [], ◌∷◌, ◌++◌,
  map, foldl, append_assoc, arith, Bool-cases, if◌then◌else◌, length, length-append, take_append,
  drop_append, drop_append_self, get_elem?_append, All,
}
use mathlib.Core.List.{foldl-append}
use open_pi.Text.{Text, split, join}
use open_pi.Text.Laws.{text_eq_refl}
use open_pi.Diff.Hunks.{DiffHunk}
use open_pi.Diff.Apply.{
  insert, sort, before_lines, after_lines, fuzzy, find_target, Applying, put_change, is_rejected,
  apply_hunk, apply_hunks_to_source,
}
use open_pi.Diff.Apply.Counts.{All-sort}

-- an unchanged part of the source, and the hunk behind it
pub record Segment : Type 0 where
  pub gap : List Text
  pub hunk : DiffHunk

-- the source and the result, put together from the segments and the part behind the last one
abbrev pub original : List Segment → List Text → List Text
original [] tail = tail
original (s ∷ ss) tail = s.gap ++ (before_lines s.hunk.lines ++ original ss tail)

abbrev pub outcome : DiffHunk → List Text
outcome h = if is_rejected h.status then before_lines h.lines else after_lines h.lines

abbrev pub patched : List Segment → List Text → List Text
patched [] tail = tail
patched (s ∷ ss) tail = s.gap ++ (outcome s.hunk ++ patched ss tail)

-- Behind `pos` lines, each hunk starts where its header says, expects at least one line, and has
-- not been edited.
abbrev pub Fits : ℕ → List Segment → Type 0
Fits pos [] = Unit
Fits pos (s ∷ ss) =
    (s.hunk.old_start ≡ pos + length s.gap + 1)
    × (before_lines s.hunk.lines ≢ [])
    × (s.hunk.edited_lines ≡ none)
    × Fits (pos + length s.gap + length (before_lines s.hunk.lines)) ss

abbrev pub hunks_of : List Segment → List DiffHunk
hunks_of ss = map (λ s. s.hunk) ss

-- a hunk that starts first is put in last
insert-last :
    (h : DiffHunk) (gs : List DiffHunk)
    → All (λ g. h.old_start < g.old_start) gs
    → insert h gs ≡ gs ++ h ∷ []
unfolding insert
insert-last h [] _ = refl
insert-last h (g ∷ gs) (lt, lts) = ground (arith, insert-last h gs)

pos-of-cons : (xs : List Text) → xs ≢ [] → 0 < length xs
pos-of-cons [] h = absurd (h refl)
pos-of-cons (x ∷ xs) h = omega arith

Fits-after :
    (pos n : ℕ) (ss : List Segment)
    → Fits pos ss
    → n ≤ pos
    → All (λ h. n < h.old_start) (hunks_of ss)
Fits-after pos n [] _ _ = tt
Fits-after pos n (s ∷ ss) (at, _, _, fs) le = (
  omega arith,
  Fits-after (pos + length s.gap + length (before_lines s.hunk.lines)) n ss fs (omega arith),
)

sort-cons :
    (pos : ℕ) (s : Segment) (ss : List Segment)
    → Fits pos (s ∷ ss)
    → sort (hunks_of (s ∷ ss)) ≡ sort (hunks_of ss) ++ s.hunk ∷ []
unfolding sort
sort-cons pos s ss (at, some_line, _, fs) = insert-last s.hunk (sort (hunks_of ss)) (
    All-sort (λ h. s.hunk.old_start < h.old_start) (hunks_of ss)
      (Fits-after (pos + length s.gap + length (before_lines s.hunk.lines)) s.hunk.old_start ss fs
        (omega (arith, pos-of-cons (before_lines s.hunk.lines) some_line))))

-- at the place where it is expected, a line is found without a search
find_target_here :
    (pre : List Text) (first : Text) (rest : List Text) (more : List Text)
    → find_target (pre ++ first ∷ more) (first ∷ rest) (length pre) ≡ length pre
unfolding find_target fuzzy
find_target_here pre first rest more =
    ground
      (arith, text_eq_refl first, get_elem?_append pre first more, length-append pre (first ∷ more))

put_change_here :
    (pre before after more : List Text) (old_start : ℕ)
    → before ≢ []
    → old_start ≡ length pre + 1
    → put_change
        (record { original_expected = before; replacement_lines = after })
        old_start
        (pre ++ (before ++ more))
      ≡ pre ++ (after ++ more)
unfolding put_change
put_change_here pre [] after more old_start h e = absurd (h refl)
put_change_here pre (first ∷ rest) after more old_start h e =
    let at : old_start - 1 ≡ length pre = omega arith in
    rw (at, find_target_here, take_append, drop_append)
      (ap (λ ls. pre ++ (after ++ ls)) (drop_append_self (first ∷ rest) more))

-- the state behind a run over segments that stand behind `pre`
abbrev after_run : List Text → List Segment → List Text → ℕ → ℕ → Applying
after_run pre ss tail a r = record {
  lines = pre ++ patched ss tail;
  applied_count = a;
  rejected_count = r;
}

apply_hunk_here :
    (pre more : List Text) (s : Applying) (h : DiffHunk)
    → s.lines ≡ pre ++ (before_lines h.lines ++ more)
    → before_lines h.lines ≢ []
    → h.edited_lines ≡ none
    → h.old_start ≡ length pre + 1
    → (apply_hunk s h).lines ≡ pre ++ (outcome h ++ more)
unfolding apply_hunk
apply_hunk_here pre more s h e some_line unedited at = elim (Bool-cases (is_rejected h.status)) [
  | inl r ↦ rw (r) e
  | inr r ↦
      rw (r, unedited, e)
        (put_change_here pre (before_lines h.lines) (after_lines h.lines) more h.old_start some_line
          at)
]

foldl-patched :
    (pre : List Text) (ss : List Segment) (tail : List Text) (s : Applying)
    → s.lines ≡ pre ++ original ss tail
    → Fits (length pre) ss
    → (foldl apply_hunk s (sort (hunks_of ss))).lines ≡ pre ++ patched ss tail
foldl-patched pre [] tail s e _ = unfold sort in e
foldl-patched pre (g ∷ gs) tail s e f =
    let at_gap = pre ++ g.gap in
    let behind = at_gap ++ before_lines g.hunk.lines in
    let lines_before : s.lines ≡ behind ++ original gs tail =
      e
      ∙ sym (
          append_assoc at_gap (before_lines g.hunk.lines) (original gs tail)
          ∙ append_assoc pre g.gap (before_lines g.hunk.lines ++ original gs tail)) in
    let end_of_hunk : length pre + length g.gap + length (before_lines g.hunk.lines)
        ≡ length behind =
      omega (arith, length-append at_gap (before_lines g.hunk.lines), length-append pre g.gap) in
    let later =
      foldl-patched behind gs tail s lines_before (subst (λ n. Fits n gs) end_of_hunk f.3) in
    let last_step : foldl apply_hunk s (sort (hunks_of (g ∷ gs)))
        ≡ apply_hunk (foldl apply_hunk s (sort (hunks_of gs))) g.hunk =
      ap (foldl apply_hunk s) (sort-cons (length pre) g gs f)
      ∙ foldl-append apply_hunk s (sort (hunks_of gs)) (g.hunk ∷ []) in
    let put =
      apply_hunk_here at_gap (patched gs tail) (foldl apply_hunk s (sort (hunks_of gs))) g.hunk
        (later ∙ append_assoc at_gap (before_lines g.hunk.lines) (patched gs tail)) f.1 f.2
        (omega (arith, f.0, length-append pre g.gap)) in
    ap (λ (q : Applying). q.lines) last_step
    ∙ (put ∙ append_assoc pre g.gap (outcome g.hunk ++ patched gs tail))

-- If the hunks fit the source, whichever of them are rejected, the result is the source with the
-- lines of each hunk that is not rejected replaced in place, and all else as it was.
pub apply_hunks_to_source-patched :
    (t : Text) (ss : List Segment) (tail : List Text)
    → split b'\n' t ≡ original ss tail
    → Fits 0 ss
    → (apply_hunks_to_source t (hunks_of ss)).result ≡ join (b'\n' ∷ []) (patched ss tail)
unfolding apply_hunks_to_source
apply_hunks_to_source-patched t ss tail e f =
    ap (join (b'\n' ∷ [])) (foldl-patched [] ss tail _ e f)
