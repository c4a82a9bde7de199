-- ===== src/DateGroups.antt =====
-- apps/desktop/web/lib/helpers.ts: `groupConversationsByDate`, the groups of the list of
-- conversations. The times of texts and the start of the day are parameters.
pub mod Filtered
mod Tests
use Prim.Native.String.{String}
use open_pi.Prelude.{
  ℕ, ◌-◌, ◌*◌, Bool, true, false, Option, none, some, List, [], ◌∷◌, ◌++◌, if◌then◌else◌, leb,
}
use open_pi.Text.{Text, units, is_empty}

pub data DateGroupKey : Type 0 where
  today yesterday week earlier : DateGroupKey

-- the fields of a conversation that are read, and of a type of its own, the rest
pub record AgentInstance (R : Type 0) : Type 0 where
  pub created_at : Option Text
  pub last_seen_at : Option Text
  pub rest : R

pub record DateGroup (R : Type 0) : Type 0 where
  pub key : DateGroupKey
  pub title : Text
  pub items : List (AgentInstance R)

-- the four arrays that the loop fills
pub record Groups (R : Type 0) : Type 0 where
  pub today_items : List (AgentInstance R)
  pub yesterday_items : List (AgentInstance R)
  pub week_items : List (AgentInstance R)
  pub earlier_items : List (AgentInstance R)

-- 86400000, the milliseconds of a day
abbrev pub day : ℕ
day = 24 * 60 * 60 * 1000

abbrev pub title_of : DateGroupKey → Text
title_of today = units "今天"
title_of yesterday = units "昨天"
title_of week = units "近7天"
title_of earlier = units "更早"

-- the text of a date, where it is given and not empty
abbrev pub given_date : Option Text → Option Text
given_date none = none
given_date (some s) = if is_empty s then none else some s

-- `a || b`
abbrev pub or_date : Option Text → Option Text → Option Text
or_date none b = b
or_date (some a) b = some a

-- when a conversation was seen or made; `none` for a text that is no date
unfoldable pub time_of : {R : Type 0} → (Text → Option ℕ) → AgentInstance R → Option ℕ
time_of get_time inst = elim (or_date (given_date inst.last_seen_at) (given_date inst.created_at)) [
  | none ↦ some 0
  | some ts ↦ get_time ts
]

-- the group of a time; the start of a day less some days is compared with times that are not
-- negative, so that it may stop at zero
unfoldable pub key_of_time : ℕ → Option ℕ → DateGroupKey
key_of_time today_start none = earlier
key_of_time today_start (some time) =
    if leb today_start time
    then today
    else if leb (today_start - day) time
    then yesterday
    else if leb (today_start - 6 * day) time
    then week
    else earlier

abbrev pub push_to : {R : Type 0} → DateGroupKey → AgentInstance R → Groups R → Groups R
push_to today inst g = record g { today_items = g.today_items ++ inst ∷ [] }
push_to yesterday inst g = record g { yesterday_items = g.yesterday_items ++ inst ∷ [] }
push_to week inst g = record g { week_items = g.week_items ++ inst ∷ [] }
push_to earlier inst g = record g { earlier_items = g.earlier_items ++ inst ∷ [] }

-- a group, unless it is empty
abbrev pub group_of : {R : Type 0} → DateGroupKey → List (AgentInstance R) → List (DateGroup R)
group_of key [] = []
group_of key (inst ∷ items) = record { key = key; title = title_of key; items = inst ∷ items } ∷ []

module _ (get_time : Text → Option ℕ) (today_start : ℕ) {R : Type 0} where
  -- the loop
  unfoldable pub fill_groups : Groups R → List (AgentInstance R) → Groups R
  fill_groups g [] = g
  fill_groups g (inst ∷ instances) =
      fill_groups (push_to (key_of_time today_start (time_of get_time inst)) inst g) instances

  unfoldable pub group_conversations_by_date : List (AgentInstance R) → List (DateGroup R)
  group_conversations_by_date instances =
      let g =
        fill_groups
          (record { today_items = []; yesterday_items = []; week_items = []; earlier_items = [] })
          instances in
      group_of today g.today_items
      ++ (group_of yesterday g.yesterday_items
          ++ (group_of week g.week_items ++ group_of earlier g.earlier_items))
