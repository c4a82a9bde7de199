-- ===== src/TurnProgress.antt =====
-- apps/desktop/web/lib/turn-progress.ts: the progress of a turn as a state machine over the events
-- of the agent. Milliseconds and counters are natural numbers; a field that can be `undefined` is an
-- `Option`, and one of type `unknown` a `Value`.
pub mod Reduce
use Prim.Native.String.{String}
use open_pi.Prelude.{ℕ, Bool, true, false, ◌||◌, Option, none, some, if◌then◌else◌, ◌>>=◌}
use open_pi.Text.{Text, units, text_eq}

pub data Stage : Type 0 where
  submitted starting thinking responding tool reviewing settled error : Stage

pub record TurnProgress : Type 0 where
  pub instance_id : Text
  pub stage : Stage
  pub label : Text
  pub started_at : ℕ
  pub step : Option ℕ
  pub max_steps : Option ℕ
  pub model : Option Text
  pub tool_name : Option Text
  pub tool_count : Option ℕ
  pub last_tool_name : Option Text
  pub last_event_at : Option ℕ
  pub guard_message : Option Text

-- a value of unknown type: `typeof` tells numbers and strings from the others
pub data Value : Type 0 where
  number : ℕ → Value
  string : Text → Value
  undefined other_value : Value

abbrev pub as_number : Value → Option ℕ
as_number (number n) = some n
as_number (string s) = none
as_number undefined = none
as_number other_value = none

abbrev pub as_string : Value → Option Text
as_string (number n) = none
as_string (string s) = some s
as_string undefined = none
as_string other_value = none

pub record TurnProgressEvent : Type 0 where
  pub instance_id : Text
  pub type : Option Text
  -- `assistantMessageEvent?.type`
  pub message_type : Option Text
  pub tool_name : Value
  pub step : Value
  pub max_steps : Value
  pub model : Value
  pub reviewer : Value
  pub status : Value
  pub attempt : Value
  pub mode : Value
  pub tool_calls : Value
  pub message : Value

-- what the tests on `event.type` tell apart
pub data EventKind : Type 0 where
  turn_guard agent_start turn_start message_start tool_execution tool_execution_end : EventKind
  message_update review_start review_result agent_settled stream_end other_event : EventKind

unfoldable pub kind_of : Text → EventKind
kind_of type =
    if text_eq type (units "turn_guard")
    then turn_guard
    else if text_eq type (units "agent_start")
    then agent_start
    else if text_eq type (units "turn_start")
    then turn_start
    else if text_eq type (units "message_start")
    then message_start
    else if text_eq type (units "tool_execution_start")
        || text_eq type (units "tool_execution_update")
    then tool_execution
    else if text_eq type (units "tool_execution_end")
    then tool_execution_end
    else if text_eq type (units "message_update")
    then message_update
    else if text_eq type (units "review_start")
    then review_start
    else if text_eq type (units "review_result")
    then review_result
    else if text_eq type (units "agent_settled")
    then agent_settled
    else if text_eq type (units "stream_error")
        || text_eq type (units "stream_closed")
        || text_eq type (units "abort")
        || text_eq type (units "send_error")
    then stream_end
    else other_event

-- an event without a type is none of these
unfoldable pub event_kind : TurnProgressEvent → EventKind
event_kind e = elim (e.type) [ none ↦ other_event | some type ↦ kind_of type ]

-- what the tests on `event.assistantMessageEvent?.type` tell apart
pub data DeltaKind : Type 0 where
  thinking_delta text_delta toolcall_delta other_delta : DeltaKind

unfoldable pub delta_of : Text → DeltaKind
delta_of type =
    if text_eq type (units "thinking_delta")
      || text_eq type (units "thinking_start")
      || text_eq type (units "reasoning_delta")
      || text_eq type (units "reasoning_start")
    then thinking_delta
    else if text_eq type (units "text_delta")
    then text_delta
    else if text_eq type (units "toolcall_delta")
    then toolcall_delta
    else other_delta

unfoldable pub delta_kind : TurnProgressEvent → DeltaKind
delta_kind e = elim (e.message_type) [ none ↦ other_delta | some type ↦ delta_of type ]

-- `status === "rejected"` and the like
abbrev pub is_string : Value → Text → Bool
is_string (number n) t = false
is_string (string s) t = text_eq s t
is_string undefined t = false
is_string other_value t = false

unfoldable pub initial_turn_progress : Text → ℕ → TurnProgress
initial_turn_progress instance_id now = record {
  instance_id = instance_id;
  stage = submitted;
  label = units "已提交，正在连接代理…";
  started_at = now;
  step = none;
  max_steps = none;
  model = none;
  tool_name = none;
  tool_count = some 0;
  last_tool_name = none;
  last_event_at = none;
  guard_message = none;
}
