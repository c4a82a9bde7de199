-- ===== src/DateGroups/Tests.antt =====
-- A conversation of today and one without a date.
use open_pi.Prelude.{ℕ, ◌*◌, ◌≡◌, Option, none, some, List, [], ◌∷◌, flat_map, keep_if}
use open_pi.Text.{Text, units}
use open_pi.DateGroups.{AgentInstance, day, group_of, group_conversations_by_date}
use open_pi.DateGroups.Filtered.{all_keys, falls_into, group_conversations_by_date_lem}

-- every date is the thousandth day
abbrev thousandth : Text → Option ℕ
thousandth s = some (1000 * day)

abbrev conversations : List (AgentInstance ℕ)
conversations =
    record { created_at = some (units "2026"); last_seen_at = none; rest = 1 }
    ∷ record { created_at = none; last_seen_at = none; rest = 2 }
    ∷ []

group_conversations_by_date_lem_example :
    group_conversations_by_date thousandth (1000 * day) conversations
    ≡ flat_map
        (λ key. group_of key (keep_if (falls_into thousandth (1000 * day) key) conversations))
        all_keys
group_conversations_by_date_lem_example =
    group_conversations_by_date_lem thousandth (1000 * day) conversations
