-- ===== src/AgentOs/Tests.antt =====
-- A card and a run, and a back end that does what it is asked.
use open_pi.Prelude.{
  ◌+◌, ℕ, ◌≡◌, true, Option, none, some, List, [], ◌∷◌, ◌++◌, map, length, if◌then◌else◌,
}
use open_pi.Text.{Text, units}
use open_pi.JsValue.{JsValue, string}
use open_pi.AgentOs.{
  ActionCardRecord, open', TaskRun, manual, Dates, card_activity, run_activity,
  build_agent_activity,
}
use open_pi.AgentOs.Sorted.{IsLatest, build_agent_activity-IsLatest}
use open_pi.AgentOs.Api.{DesktopApi, AgentState, fulfilled, execute_card}
use open_pi.AgentOs.Archived.{logged, execute_card-log}

abbrev card : ActionCardRecord
card = record {
  id = units "1";
  title = units "Commit";
  summary = units "Files are not committed";
  action_type = units "git";
  payload = string (units "{}");
  status = open';
  created_at = units "2026";
}

abbrev run : TaskRun
run = record {
  id = units "2";
  task_id = units "7";
  status = units "succeeded";
  trigger = manual;
  created_at = units "2026-01";
  started_at = none;
  finished_at = some (units "2026-01-02");
  pid = none;
  result = none;
  error = none;
}

-- dates that are as late as their texts are long
abbrev dates : Dates
dates = record { get_time = λ s. some (length s); get_hours = λ t. t; get_minutes = λ t. t }

-- a back end that counts the calls of its gateway, which all succeed
abbrev counting : DesktopApi ℕ ℕ ℕ
counting = record {
  list_personal_goals = λ n. (n, fulfilled (some []));
  list_personal_memories = λ n. (n, fulfilled none);
  list_action_cards = λ n. (n, fulfilled (some []));
  execute_through_gateway =
      λ n prompt source. (n + 1, fulfilled (some (record { success = true; message = none })));
  dismiss_action_card = λ n id. (n, fulfilled tt);
}

abbrev shown : AgentState (ℕ × List Text) ℕ ℕ
shown = record { backend = (0, []); goals = []; memories = []; action_cards = card ∷ [] }

abbrev no_parse : Text → Option JsValue
no_parse s = none

build_agent_activity-IsLatest_example :
    IsLatest 1
      (map (card_activity dates) (card ∷ []) ++ map (run_activity dates) (run ∷ []))
      (build_agent_activity dates (card ∷ []) (run ∷ []) 1)
build_agent_activity-IsLatest_example = build_agent_activity-IsLatest dates (card ∷ []) (run ∷ []) 1

execute_card-log_example : (execute_card (logged counting) true no_parse card shown).0.backend.1 ≡ (
    if (execute_card (logged counting) true no_parse card shown).1.success
    then card.id ∷ shown.backend.1
    else shown.backend.1)
execute_card-log_example = execute_card-log counting true no_parse card shown
