-- ===== src/Diff/Apply/Counts.antt =====
-- Counts of applied and rejected hunks, and what rejected hunks leave alone.
use open_pi.Prelude.{
  ◌+◌, ◌≡◌, refl, ap, ◌∙◌, inl, inr, Bool, not, List, [], ◌∷◌, foldl, arith, leb, Bool-cases,
  count_if, All,
}
use open_pi.Text.{Text, split, join}
use open_pi.Text.Split.{join-split}
use open_pi.Diff.Hunks.{rejected, DiffHunk}
use open_pi.Diff.Apply.{insert, sort, Applying, is_rejected, apply_hunk, apply_hunks_to_source}

module _ (p : DiffHunk → Bool) where
  count_if-insert :
      (h : DiffHunk) (hs : List DiffHunk) → count_if p (insert h hs) ≡ count_if p (h ∷ hs)
  unfolding insert
  count_if-insert h [] = refl
  count_if-insert h (g ∷ gs) = ground (arith, count_if-insert h gs)

  count_if-sort : (hs : List DiffHunk) → count_if p (sort hs) ≡ count_if p hs
  unfolding sort
  count_if-sort [] = refl
  count_if-sort (h ∷ hs) = ground (arith, count_if-insert h (sort hs), count_if-sort hs)

foldl-counts :
    (s : Applying) (hs : List DiffHunk)
    → ((foldl apply_hunk s hs).applied_count
        ≡ s.applied_count + count_if (λ h. not (is_rejected h.status)) hs)
      × ((foldl apply_hunk s hs).rejected_count
          ≡ s.rejected_count + count_if (λ h. is_rejected h.status) hs)
unfolding apply_hunk
foldl-counts s [] = omega arith
foldl-counts s (h ∷ hs) = ground (arith, foldl-counts (apply_hunk s h) hs)

-- `appliedCount` counts the hunks that are not rejected, pending ones included, and
-- `rejectedCount` the rejected ones, whatever the order and the fit of the hunks.
pub apply_hunks_to_source-counts :
    (t : Text) (hs : List DiffHunk)
    → ((apply_hunks_to_source t hs).applied_count ≡ count_if (λ h. not (is_rejected h.status)) hs)
      × ((apply_hunks_to_source t hs).rejected_count ≡ count_if (λ h. is_rejected h.status) hs)
unfolding apply_hunks_to_source
apply_hunks_to_source-counts t hs =
    let (a, r) =
      foldl-counts (record { lines = split b'\n' t; applied_count = 0; rejected_count = 0 })
        (sort hs) in
    (
      omega (arith, a, count_if-sort (λ (h : DiffHunk). not (is_rejected h.status)) hs),
      omega (arith, r, count_if-sort (λ (h : DiffHunk). is_rejected h.status) hs),
    )

abbrev pub IsRejected : DiffHunk → Type 0
IsRejected h = h.status ≡ rejected

module _ (P : DiffHunk → Type 0) where
  pub All-insert : (h : DiffHunk) (hs : List DiffHunk) → P h → All P hs → All P (insert h hs)
  unfolding insert
  All-insert h [] p _ = (p, tt)
  All-insert h (g ∷ gs) p (q, qs) = elim (Bool-cases (leb g.old_start h.old_start)) [
    | inl a ↦ rw a (p, (q, qs))
    | inr a ↦ rw a (q, All-insert h gs p qs)
  ]

  pub All-sort : (hs : List DiffHunk) → All P hs → All P (sort hs)
  unfolding sort
  All-sort [] _ = tt
  All-sort (h ∷ hs) (p, ps) = All-insert h (sort hs) p (All-sort hs ps)

foldl-rejected :
    (s : Applying) (hs : List DiffHunk)
    → All IsRejected hs
    → (foldl apply_hunk s hs).lines ≡ s.lines
foldl-rejected s [] _ = refl
foldl-rejected s (h ∷ hs) (r, rs) =
    foldl-rejected (apply_hunk s h) hs rs ∙ unfold apply_hunk in ground arith

-- If every hunk is rejected, the source comes back unchanged.
pub apply_hunks_to_source-rejected :
    (t : Text) (hs : List DiffHunk) → All IsRejected hs → (apply_hunks_to_source t hs).result ≡ t
unfolding apply_hunks_to_source
apply_hunks_to_source-rejected t hs r =
    ap (join (b'\n' ∷ [])) (foldl-rejected _ (sort hs) (All-sort IsRejected hs r))
    ∙ join-split b'\n' t
