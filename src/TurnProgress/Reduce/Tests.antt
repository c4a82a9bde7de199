-- ===== src/TurnProgress/Reduce/Tests.antt =====
-- Tests of the progress of a turn, and the properties at concrete inputs.
use open_pi.Prelude.{
  ℕ, ◌≡◌, refl, false, not, Option, none, some, List, [], ◌∷◌, any, keep_if, is_some,
}
use mathlib.Core.Option
use open_pi.Text.{Text, units, text_eq, to_lower, lower_unit, is_space}
use open_pi.ToolLabel.{tool_label, find_label}
use open_pi.TurnProgress.{
  thinking, TurnProgress, TurnProgressEvent, Value, string, undefined, kind_of, event_kind,
}
use open_pi.TurnProgress.Reduce.{
  on_tool_execution, on_tool_execution_end, reduce_kind, reduce_turn_progress_inner,
  reduce_turn_progress,
}
use open_pi.TurnProgress.Reduce.Trace.{run, is_for}
use open_pi.TurnProgress.Reduce.Interleaved.{ends_turn, run-keep_if, run-is_terminal}
use open_pi.TurnProgress.Reduce.Counted.{sets_count, has_kind}

abbrev event : Text → Text → Value → TurnProgressEvent
event id type name = record {
  instance_id = id;
  type = some type;
  message_type = none;
  tool_name = name;
  step = undefined;
  max_steps = undefined;
  model = undefined;
  reviewer = undefined;
  status = undefined;
  attempt = undefined;
  mode = undefined;
  tool_calls = undefined;
  message = undefined;
}

abbrev begun : TurnProgress
begun = record {
  instance_id = units "a";
  stage = thinking;
  label = [];
  started_at = 100;
  step = none;
  max_steps = none;
  model = none;
  tool_name = none;
  tool_count = some 2;
  last_tool_name = none;
  last_event_at = none;
  guard_message = none;
}

-- a tool of the turn ends, and another instance settles
abbrev tool_events : List (TurnProgressEvent × ℕ)
tool_events =
    (event (units "a") (units "tool_execution_start") (string (units "bash")), 110)
    ∷ (event (units "b") (units "agent_settled") undefined, 120)
    ∷ (event (units "a") (units "tool_execution_end") undefined, 130)
    ∷ []

known_label : tool_label (units "Web-Search") ≡ units "网络搜索"
unfolding tool_label find_label to_lower lower_unit is_space text_eq
known_label = refl

unknown_label : tool_label (units "Foo") ≡ units "使用 Foo"
unfolding tool_label find_label to_lower lower_unit is_space text_eq
unknown_label = refl

tool_events-last_event_at :
    Option.map {B = Option ℕ × Option ℕ}
      (λ q. (q.last_event_at, q.tool_count))
      (run (some begun) tool_events)
    ≡ some (some 130, some 3)
unfolding run reduce_turn_progress reduce_turn_progress_inner reduce_kind event_kind kind_of text_eq
    on_tool_execution on_tool_execution_end
tool_events-last_event_at = refl

run-keep_if_example :
    run (some begun) tool_events ≡ run (some begun) (keep_if (is_for (units "a")) tool_events)
run-keep_if_example = run-keep_if begun tool_events

run-is_terminal_example :
    is_some (run (some begun) tool_events) ≡ not (any (ends_turn (units "a")) tool_events)
run-is_terminal_example = run-is_terminal begun tool_events

tool_events-sets_count : any (has_kind sets_count (units "a")) tool_events ≡ false
unfolding event_kind kind_of text_eq
tool_events-sets_count = refl
