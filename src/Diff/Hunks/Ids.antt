-- ===== src/Diff/Hunks/Ids.antt =====
-- The identifiers of the hunks that `parseDiffHunks` returns.
use open_pi.Prelude.{
  ℕ, suc, ◌+◌, ◌<◌, ◌≡◌, refl, ap, sym, subst, ◌∙◌, ◌≢◌, true, none, some, List, [], ◌∷◌, ◌++◌, map,
  arith, All, Distinct, span, drop, length, length-append,
}
use open_pi.Text.{Text}
use open_pi.Text.Decimal.{is_digit, show, show_injective, show-is_digit}
use open_pi.Diff.Hunks.{
  DiffHunk, Parsing, hunk_id, closed, open_hunk, push_header, synthetic, push_add, push_del,
  push_ctx, parse_diff_hunks,
}
use open_pi.Diff.Hunks.Loop.{with_synthetic, loop_inv}

-- digits before a hyphen are found again
span-digits :
    (ds rest : Text) → All (λ c. is_digit c ≡ true) ds → (span is_digit (ds ++ b'-' ∷ rest)).0 ≡ ds
span-digits [] rest _ = refl
span-digits (c ∷ ds) rest (h, hs) = ground (arith, span-digits ds rest hs)

-- the number that an identifier begins with
abbrev counter_of : Text → Text
counter_of id = (span is_digit (drop 5 id)).0

counter_of-hunk_id : (k o n : ℕ) → counter_of (hunk_id k o n) ≡ show k
unfolding hunk_id
counter_of-hunk_id k o n = span-digits (show k) _ (show-is_digit k)

hunk_id_injective : (j k o n o' n' : ℕ) → hunk_id j o n ≡ hunk_id k o' n' → j ≡ k
hunk_id_injective j k o n o' n' e =
    show_injective j k
      (sym (counter_of-hunk_id j o n) ∙ (ap counter_of e ∙ counter_of-hunk_id k o' n'))

-- the identifiers hold the positions of the hunks, from `k`
abbrev IdsFrom : ℕ → List DiffHunk → Type 0
IdsFrom k [] = Unit
IdsFrom k (h ∷ hs) = (h.id ≡ hunk_id k h.old_start h.new_start) × IdsFrom (suc k) hs

IdsFrom-concat :
    (k : ℕ) (hs : List DiffHunk) (h : DiffHunk) (j : ℕ)
    → IdsFrom k hs
    → j ≡ k + length hs
    → h.id ≡ hunk_id j h.old_start h.new_start
    → IdsFrom k (hs ++ h ∷ [])
IdsFrom-concat k [] h j _ e i =
    let same : j ≡ k = omega arith in
    (subst (λ m. h.id ≡ hunk_id m h.old_start h.new_start) same i, tt)
IdsFrom-concat k (g ∷ hs) h j (r, rs) e i = (r, IdsFrom-concat (suc k) hs h j rs (omega arith) i)

IdsFrom-init :
    (k : ℕ) (hs : List DiffHunk) (h : DiffHunk)
    → IdsFrom k (hs ++ h ∷ [])
    → IdsFrom k hs × (h.id ≡ hunk_id (k + length hs) h.old_start h.new_start)
IdsFrom-init k [] h (i, _) =
    let same : k ≡ k + 0 = omega arith in
    (tt, subst (λ m. h.id ≡ hunk_id m h.old_start h.new_start) same i)
IdsFrom-init k (g ∷ hs) h (r, rs) =
    let (before, i) = IdsFrom-init (suc k) hs h rs in
    let same : suc k + length hs ≡ k + suc (length hs) = omega arith in
    ((r, before), subst (λ m. h.id ≡ hunk_id m h.old_start h.new_start) same i)

record Ids (p : Parsing) (done : List Text) : Type 0 where
  ids : IdsFrom 1 (closed p.hunks p.current_hunk)
  counter : p.hunk_counter ≡ length (closed p.hunks p.current_hunk)

module _ (p : Parsing) (done : List Text) (i : Ids p done) where
  Ids-open : (raw : Text) → Ids (open_hunk raw p) (done ++ raw ∷ [])
  unfolding open_hunk
  Ids-open raw = record {
    ids =
        IdsFrom-concat 1 (closed p.hunks p.current_hunk) _ (p.hunk_counter + 1) i.ids
          (omega (arith, i.counter)) refl;
    counter = omega (arith, i.counter, length-append (closed p.hunks p.current_hunk));
  }

  Ids-header : (raw : Text) → Ids (push_header raw p) (done ++ raw ∷ [])
  unfolding push_header
  Ids-header raw = record { ids = i.ids; counter = i.counter }

  Ids-synthetic : p.current_hunk ≡ none → Ids (with_synthetic p) done
  unfolding synthetic
  Ids-synthetic e =
      let ids = subst (λ o. IdsFrom 1 (closed p.hunks o)) e i.ids in
      let counter = subst (λ o. p.hunk_counter ≡ length (closed p.hunks o)) e i.counter in
      record {
        ids = IdsFrom-concat 1 p.hunks _ (p.hunk_counter + 1) ids (omega (arith, counter)) refl;
        counter = omega (arith, counter, length-append p.hunks);
      }

  -- a line put into the current hunk changes no identifier
  Ids-push :
      (q : Parsing) (raw : Text) (h h' : DiffHunk)
      → p.current_hunk ≡ some h
      → q.current_hunk ≡ some h'
      → q.hunks ≡ p.hunks
      → q.hunk_counter ≡ p.hunk_counter
      → (h'.id ≡ h.id) × (h'.old_start ≡ h.old_start) × (h'.new_start ≡ h.new_start)
      → Ids q (done ++ raw ∷ [])
  Ids-push q raw h h' e e' same_hunks same_counter (same_id, same_old, same_new) =
      let ids = subst (λ o. IdsFrom 1 (closed p.hunks o)) e i.ids in
      let counter = subst (λ o. p.hunk_counter ≡ length (closed p.hunks o)) e i.counter in
      let (before, last) = IdsFrom-init 1 p.hunks h ids in
      record {
        ids =
            rw (e', same_hunks)
              (IdsFrom-concat 1 p.hunks h' (1 + length p.hunks) before refl
                (rw (same_id, same_old, same_new) last));
        counter = rw (e', same_hunks) (omega (arith, counter, same_counter, length-append p.hunks));
      }

IdsFrom-ne :
    (k : ℕ) (hs : List DiffHunk) (j o n : ℕ)
    → IdsFrom k hs
    → j < k
    → All (λ id. id ≢ hunk_id j o n) (map (λ h. h.id) hs)
IdsFrom-ne k [] j o n _ _ = tt
IdsFrom-ne k (h ∷ hs) j o n (i, is) lt = (
  λ e.
      let same : k ≡ j = hunk_id_injective k j h.old_start h.new_start o n (sym i ∙ e) in
      absurd (omega arith),
  IdsFrom-ne (suc k) hs j o n is (omega arith),
)

IdsFrom-Distinct : (k : ℕ) (hs : List DiffHunk) → IdsFrom k hs → Distinct (map (λ h. h.id) hs)
IdsFrom-Distinct k [] _ = tt
IdsFrom-Distinct k (h ∷ hs) (i, is) = (
  subst (λ id. All (λ other. other ≢ id) (map (λ h. h.id) hs)) (sym i)
      (IdsFrom-ne (suc k) hs k h.old_start h.new_start is (omega arith)),
  IdsFrom-Distinct (suc k) hs is,
)

-- No two hunks of a parsed diff have the same identifier.
pub parse_diff_hunks-Distinct : (t : Text) → Distinct (map (λ h. h.id) (parse_diff_hunks t).hunks)
unfolding parse_diff_hunks push_add push_del push_ctx
parse_diff_hunks-Distinct t =
    IdsFrom-Distinct 1 _
      (loop_inv Ids (λ p d raw i. Ids-open p d i raw) (λ p d raw i e. Ids-header p d i raw)
        (λ p d i e. Ids-synthetic p d i e)
        (λ p d raw h i e a.
          Ids-push p d i (push_add raw h p) raw h _ e refl refl refl (refl, refl, refl))
        (λ p d raw h i e a.
          Ids-push p d i (push_del raw h p) raw h _ e refl refl refl (refl, refl, refl))
        (λ p d raw h i e.
          Ids-push p d i (push_ctx raw h p) raw h _ e refl refl refl (refl, refl, refl))
        t (record { ids = tt; counter = refl })).ids
