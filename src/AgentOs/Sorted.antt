-- ===== src/AgentOs/Sorted.antt =====
-- The order of the rows of `buildAgentActivity` and `buildCausalChain`.
use open_pi.Prelude.{
  ℕ, zero, suc, ◌≤◌, ◌≡◌, refl, Bool, true, false, List, [], ◌∷◌, ◌++◌, map, take, All,
  if◌then◌else◌, leb, arith,
}
use open_pi.AgentOs.{
  Row, insert_row, sort_rows, latest, Dates, ActionCardRecord, TaskRun, card_activity, run_activity,
  build_agent_activity,
}
use mathlib.Core.List.{Perm}
use mathlib.Core.List.Perm

module _ {ℓ} {A : Type ℓ} where
  -- no row is later than the time
  abbrev pub NoneAfter : ℕ → List (Row A) → Type 0
  NoneAfter t rows = All (λ r. r.ts ≤ t) rows

  -- no row is later than one before it
  abbrev pub IsDescending : List (Row A) → Type 0
  IsDescending [] = Unit
  IsDescending (r ∷ rows) = NoneAfter r.ts rows × IsDescending rows

  NoneAfter-weaken : (s t : ℕ) (rows : List (Row A)) → s ≤ t → NoneAfter s rows → NoneAfter t rows
  NoneAfter-weaken s t [] le h = tt
  NoneAfter-weaken s t (r ∷ rows) le (h, hs) = (omega arith, NoneAfter-weaken s t rows le hs)

  insert_row-NoneAfter :
      (t : ℕ) (r : Row A) (rows : List (Row A))
      → r.ts ≤ t
      → NoneAfter t rows
      → NoneAfter t (insert_row r rows)
  unfolding insert_row
  insert_row-NoneAfter t r [] le h = (le, tt)
  insert_row-NoneAfter t r (q ∷ rows) le (h, hs) =
      elim (leb q.ts r.ts)
        as (λ b. NoneAfter t (if b then r ∷ q ∷ rows else q ∷ insert_row r rows)) [
          | true ↦ (le, (h, hs))
          | false ↦ (h, insert_row-NoneAfter t r rows le hs)
        ]

  insert_row-IsDescending :
      (r : Row A) (rows : List (Row A)) → IsDescending rows → IsDescending (insert_row r rows)
  unfolding insert_row
  insert_row-IsDescending r [] d = (tt, tt)
  insert_row-IsDescending r (q ∷ rows) (n, d) =
      go (leb q.ts r.ts) refl (insert_row-IsDescending r rows d)
    where
      go :
          (b : Bool)
          → leb q.ts r.ts ≡ b
          → IsDescending (insert_row r rows)
          → IsDescending (if b then r ∷ q ∷ rows else q ∷ insert_row r rows)
      go true e rest =
          let le : q.ts ≤ r.ts = ground arith in
          ((le, NoneAfter-weaken q.ts r.ts rows le n), (n, d))
      go false e rest = (insert_row-NoneAfter q.ts r rows (ground arith) n, rest)

  pub sort_rows-IsDescending : (rows : List (Row A)) → IsDescending (sort_rows rows)
  unfolding sort_rows
  sort_rows-IsDescending [] = tt
  sort_rows-IsDescending (r ∷ rows) =
      insert_row-IsDescending r (sort_rows rows) (sort_rows-IsDescending rows)

  NoneAfter-take : (n t : ℕ) (rows : List (Row A)) → NoneAfter t rows → NoneAfter t (take n rows)
  NoneAfter-take zero t rows h = tt
  NoneAfter-take (suc n) t [] h = tt
  NoneAfter-take (suc n) t (r ∷ rows) (h, hs) = (h, NoneAfter-take n t rows hs)

  pub IsDescending-take :
      (n : ℕ) (rows : List (Row A)) → IsDescending rows → IsDescending (take n rows)
  IsDescending-take zero rows d = tt
  IsDescending-take (suc n) [] d = tt
  IsDescending-take (suc n) (r ∷ rows) (h, d) =
      (NoneAfter-take n r.ts rows h, IsDescending-take n rows d)

  insert_row-Perm : (r : Row A) (rows : List (Row A)) → Perm (insert_row r rows) (r ∷ rows)
  unfolding insert_row
  insert_row-Perm r [] = Perm.refl (r ∷ [])
  insert_row-Perm r (q ∷ rows) =
      elim (leb q.ts r.ts)
        as (λ b. Perm (if b then r ∷ q ∷ rows else q ∷ insert_row r rows) (r ∷ q ∷ rows)) [
          | true ↦ Perm.refl (r ∷ q ∷ rows)
          | false ↦ Perm.trans (Perm.cons q (insert_row-Perm r rows)) (Perm.swap r q rows)
        ]

  pub sort_rows-Perm : (rows : List (Row A)) → Perm (sort_rows rows) rows
  unfolding sort_rows
  sort_rows-Perm [] = Perm.nil
  sort_rows-Perm (r ∷ rows) =
      Perm.trans (insert_row-Perm r (sort_rows rows)) (Perm.cons r (sort_rows-Perm rows))

  -- the items of the first rows, once all of them are put in order
  abbrev pub IsLatest : ℕ → List (Row A) → List A → Type ℓ
  IsLatest limit rows items =
      (ordered : List (Row A)) × Perm ordered rows
      × IsDescending ordered
      × (items ≡ map (λ r. r.item) (take limit ordered))

  latest-IsLatest : (limit : ℕ) (rows : List (Row A)) → IsLatest limit rows (latest limit rows)
  unfolding latest
  latest-IsLatest limit rows =
      (sort_rows rows, sort_rows-Perm rows, sort_rows-IsDescending rows, refl)

-- The activity is what the first `limit` rows hold when the rows of the cards and of the runs are put
-- in an order in which no row is later than one before it.
pub build_agent_activity-IsLatest :
    (dates : Dates) (action_cards : List ActionCardRecord) (task_runs : List TaskRun) (limit : ℕ)
    → IsLatest limit
        (map (card_activity dates) action_cards ++ map (run_activity dates) task_runs)
        (build_agent_activity dates action_cards task_runs limit)
unfolding build_agent_activity
build_agent_activity-IsLatest dates action_cards task_runs limit = latest-IsLatest limit _
