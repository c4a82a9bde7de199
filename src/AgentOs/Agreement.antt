-- ===== src/AgentOs/Agreement.antt =====
-- `buildAgentActivity` and `buildCausalChain`, one against the other.
use open_pi.Prelude.{
  ℕ, zero, suc, ◌≡◌, refl, Bool, true, false, List, [], ◌∷◌, ◌++◌, map, take, Pairs, if◌then◌else◌,
  leb,
}
use open_pi.AgentOs.{
  Row, insert_row, sort_rows, latest, Dates, ActionCardRecord, TaskRun, AgentActivityItem,
  CausalChainEntry, card_activity, run_activity, card_entry, run_entry, build_agent_activity,
  build_causal_chain,
}

-- the rows have the same time and the same id
SameEvent : Row AgentActivityItem → Row CausalChainEntry → Type 0
SameEvent r q = (r.ts ≡ q.ts) × (r.item.id ≡ q.item.id)

abbrev SameEvents : List (Row AgentActivityItem) → List (Row CausalChainEntry) → Type 0
SameEvents = Pairs SameEvent

either :
    (b : Bool) (rs rs' : List (Row AgentActivityItem)) (qs qs' : List (Row CausalChainEntry))
    → SameEvents rs qs
    → SameEvents rs' qs'
    → SameEvents (if b then rs else rs') (if b then qs else qs')
either true rs rs' qs qs' h h' = h
either false rs rs' qs qs' h h' = h'

insert_row-SameEvents :
    (r : Row AgentActivityItem) (q : Row CausalChainEntry) (rs : List (Row AgentActivityItem))
    (qs : List (Row CausalChainEntry))
    → SameEvent r q
    → SameEvents rs qs
    → SameEvents (insert_row r rs) (insert_row q qs)
unfolding insert_row SameEvent
insert_row-SameEvents r q [] [] e es = (e, tt)
insert_row-SameEvents r q [] (q' ∷ qs) e es = absurd es
insert_row-SameEvents r q (r' ∷ rs) [] e es = absurd es
insert_row-SameEvents r q (r' ∷ rs) (q' ∷ qs) e (e', es) =
    let same_test : leb r'.ts r.ts ≡ leb q'.ts q.ts = rw (e'.0, e.0) refl in
    rw same_test
      (either (leb q'.ts q.ts) _ _ _ _ (e, (e', es)) (e', insert_row-SameEvents r q rs qs e es))

sort_rows-SameEvents :
    (rs : List (Row AgentActivityItem)) (qs : List (Row CausalChainEntry))
    → SameEvents rs qs
    → SameEvents (sort_rows rs) (sort_rows qs)
unfolding sort_rows
sort_rows-SameEvents [] [] es = tt
sort_rows-SameEvents [] (q ∷ qs) es = absurd es
sort_rows-SameEvents (r ∷ rs) [] es = absurd es
sort_rows-SameEvents (r ∷ rs) (q ∷ qs) (e, es) =
    insert_row-SameEvents r q (sort_rows rs) (sort_rows qs) e (sort_rows-SameEvents rs qs es)

ids_of_latest :
    (n : ℕ) (rs : List (Row AgentActivityItem)) (qs : List (Row CausalChainEntry))
    → SameEvents rs qs
    → map (λ i. i.id) (map (λ r. r.item) (take n rs))
      ≡ map (λ i. i.id) (map (λ q. q.item) (take n qs))
unfolding SameEvent
ids_of_latest zero rs qs es = refl
ids_of_latest (suc n) [] [] es = refl
ids_of_latest (suc n) [] (q ∷ qs) es = absurd es
ids_of_latest (suc n) (r ∷ rs) [] es = absurd es
ids_of_latest (suc n) (r ∷ rs) (q ∷ qs) (e, es) =
    let rest : map (λ i. i.id) (map (λ r. r.item) (take n rs))
        ≡ map (λ i. i.id) (map (λ q. q.item) (take n qs)) =
      ids_of_latest n rs qs es in
    let head : r.item.id ≡ q.item.id = e.1 in cc

runs-SameEvents :
    (dates : Dates) (task_runs : List TaskRun)
    → SameEvents (map (run_activity dates) task_runs) (map (run_entry dates) task_runs)
unfolding SameEvent
runs-SameEvents dates [] = tt
runs-SameEvents dates (run ∷ runs) = ((refl, refl), runs-SameEvents dates runs)

events-SameEvents :
    (dates : Dates) (action_cards : List ActionCardRecord) (task_runs : List TaskRun)
    → SameEvents
        (map (card_activity dates) action_cards ++ map (run_activity dates) task_runs)
        (map (card_entry dates) action_cards ++ map (run_entry dates) task_runs)
unfolding SameEvent
events-SameEvents dates [] task_runs = runs-SameEvents dates task_runs
events-SameEvents dates (card ∷ cards) task_runs =
    ((refl, refl), events-SameEvents dates cards task_runs)

-- For the same cards, runs and limit, the activity and the causal chains name the same events in the
-- same order.
pub activity_ids :
    (dates : Dates) (action_cards : List ActionCardRecord) (task_runs : List TaskRun) (limit : ℕ)
    → map (λ i. i.id) (build_agent_activity dates action_cards task_runs limit)
      ≡ map (λ i. i.id) (build_causal_chain dates action_cards task_runs limit)
unfolding build_agent_activity build_causal_chain latest
activity_ids dates action_cards task_runs limit =
    ids_of_latest limit _ _
      (sort_rows-SameEvents _ _ (events-SameEvents dates action_cards task_runs))
