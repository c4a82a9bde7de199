-- ===== src/Diff/Apply/Edited.antt =====
-- Hunks whose lines the user has edited.
use open_pi.Prelude.{
  ℕ, zero, suc, ◌+◌, ◌-◌, ◌≡◌, refl, ◌⊎◌, inl, inr, true, Bool-cases, Option, none, some, List, [],
  ◌∷◌, ◌++◌, foldl, take, drop, length, leb, if◌then◌else◌, arith, All,
}
use mathlib.Core.List.Sublist
use mathlib.Core.List.{Sublist, sublist-append_right}
use native.Mathlib.Nat.{add-zero}
use open_pi.Text.{Text}
use open_pi.Diff.Hunks.{DiffHunk}
use open_pi.Diff.Apply.{
  insert, sort, find_target, Applying, put_change, is_rejected, apply_hunk, apply_all,
}
use open_pi.Diff.Apply.Counts.{All-sort}

-- a hunk that is rejected, or that has lines of the user
abbrev pub IsEdited : DiffHunk → Type 0
IsEdited h =
    (is_rejected h.status ≡ true)
    ⊎ ((e : Text) × (es : List Text) × (h.edited_lines ≡ some (e ∷ es)))

abbrev count_lines : Option (List Text) → ℕ
count_lines none = 0
count_lines (some es) = length es

-- how many lines of the user the hunks bring, rejected ones left out
abbrev pub edited_count : List DiffHunk → ℕ
edited_count [] = 0
edited_count (h ∷ hs) =
    (if is_rejected h.status then 0 else count_lines h.edited_lines) + edited_count hs

edited_count-insert :
    (h : DiffHunk) (hs : List DiffHunk) → edited_count (insert h hs) ≡ edited_count (h ∷ hs)
unfolding insert
edited_count-insert h [] = refl
edited_count-insert h (g ∷ gs) =
    let ih = edited_count-insert h gs in
    elim (Bool-cases (leb g.old_start h.old_start)) [
      | inl a ↦ rw a refl
      | inr a ↦ rw a (omega (arith, ih))
    ]

edited_count-sort : (hs : List DiffHunk) → edited_count (sort hs) ≡ edited_count hs
unfolding sort
edited_count-sort [] = refl
edited_count-sort (h ∷ hs) = omega (arith, edited_count-insert h (sort hs), edited_count-sort hs)

-- the second list has the lines of the first in their order, and `n` more
abbrev Extends : ℕ → List Text → List Text → Type 0
Extends n xs ys = Sublist xs ys × (length ys ≡ length xs + n)

Extends-append : (items xs : List Text) → Extends (length items) xs (items ++ xs)
Extends-append [] xs = (Sublist.refl xs, omega arith)
Extends-append (i ∷ items) xs =
    let (_, e) = Extends-append items xs in (sublist-append_right (i ∷ items) xs, omega arith)

-- lines put in at an index, with none taken out
Extends-splice :
    (n : ℕ) (items xs : List Text) → Extends (length items) xs (take n xs ++ (items ++ drop n xs))
Extends-splice zero items xs = Extends-append items xs
Extends-splice (suc n) items [] = Extends-append items []
Extends-splice (suc n) items (x ∷ xs) =
    let (s, e) = Extends-splice n items xs in (Sublist.cons-cons x s, omega arith)

put_change-Extends :
    (e : Text) (es : List Text) (old_start : ℕ) (xs : List Text)
    → Extends
        (suc (length es))
        xs
        (put_change (record { original_expected = []; replacement_lines = e ∷ es }) old_start xs)
unfolding put_change find_target
put_change-Extends e es old_start xs = rw (add-zero) (Extends-splice (old_start - 1) (e ∷ es) xs)

apply_hunk-Extends :
    (s : Applying) (h : DiffHunk)
    → IsEdited h
    → Extends (edited_count (h ∷ [])) s.lines (apply_hunk s h).lines
unfolding apply_hunk
apply_hunk-Extends s h (inl r) = rw r (Sublist.refl s.lines, omega arith)
apply_hunk-Extends s h (inr (e, es, edited)) = elim (Bool-cases (is_rejected h.status)) [
  | inl r ↦ rw r (Sublist.refl s.lines, omega arith)
  | inr r ↦
      let (sub, n) = put_change-Extends e es h.old_start s.lines in
      rw (r, edited) (sub, omega arith)
]

foldl-Extends :
    (s : Applying) (hs : List DiffHunk)
    → All IsEdited hs
    → Extends (edited_count hs) s.lines (foldl apply_hunk s hs).lines
foldl-Extends s [] _ = (Sublist.refl s.lines, omega arith)
foldl-Extends s (h ∷ hs) (e, es) =
    let (first, m) = apply_hunk-Extends s h e in
    let (others, n) = foldl-Extends (apply_hunk s h) hs es in
    (Sublist.trans first others, omega arith)

-- If each hunk is rejected or has lines of the user, then whatever the hunks' order and places, all
-- lines of the source are still there, in their order, and the lines of the user come on top of them:
-- none is replaced.
pub apply_all-Sublist :
    (lines : List Text) (hs : List DiffHunk)
    → All IsEdited hs
    → Sublist lines (apply_all lines hs).lines
      × (length (apply_all lines hs).lines ≡ length lines + edited_count hs)
unfolding apply_all
apply_all-Sublist lines hs edited =
    let start : Applying = record { lines = lines; applied_count = 0; rejected_count = 0 } in
    let (kept, n) = foldl-Extends start (sort hs) (All-sort IsEdited hs edited) in
    (kept, omega (arith, n, edited_count-sort hs))
