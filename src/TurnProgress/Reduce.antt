-- ===== src/TurnProgress/Reduce.antt =====
-- `reduceTurnProgressInner` and `reduceTurnProgress`: the step of the machine, a function for each
-- kind of event.
pub mod Ending
pub mod Trace
pub mod Interleaved
pub mod Counted
pub mod Verb
mod Tests
use Prim.Native.String.{String}
use open_pi.Prelude.{
  ℕ, ◌+◌, Bool, true, false, ◌||◌, Option, none, some, ◌++◌, ltb, leb, ◌==◌, if◌then◌else◌, or_else,
  List, [], ◌∷◌,
}
use open_pi.Text.{Text, units, text_eq, is_empty}
use open_pi.Text.Decimal.{show}
use open_pi.ToolLabel.{tool_label}
use open_pi.TurnProgress.{
  Stage, submitted, starting, thinking, responding, tool, reviewing, TurnProgress, as_number,
  as_string, is_string, TurnProgressEvent, EventKind, turn_guard, agent_start, turn_start,
  message_start, tool_execution, tool_execution_end, message_update, review_start, review_result,
  agent_settled, stream_end, other_event, event_kind, DeltaKind, thinking_delta, text_delta,
  toolcall_delta, other_delta, delta_kind,
}

-- `a ?? b`, where `b` can be `undefined` too
abbrev pub or_option {ℓ} : {A : Type ℓ} → Option A → Option A → Option A
or_option none b = b
or_option (some a) b = some a

-- `s && s !== ""`, the truth of an optional string
abbrev pub has_text : Option Text → Bool
has_text none = false
has_text (some []) = false
has_text (some (c ∷ s)) = true

unfoldable pub on_turn_guard : TurnProgress → TurnProgressEvent → TurnProgress
on_turn_guard p e =
    let tool_calls = or_option (as_number e.tool_calls) p.tool_count in
    record p {
      tool_count = or_option tool_calls p.tool_count;
      guard_message = or_option (as_string e.message) p.guard_message;
    }

unfoldable pub on_agent_start : TurnProgress → TurnProgress
on_agent_start p = record p { stage = starting; label = units "代理已启动，准备处理中…" }

-- `!step || step <= 1`
abbrev pub is_initial : Option ℕ → Bool
is_initial none = true
is_initial (some n) = leb n 1

unfoldable pub on_turn_start : TurnProgress → TurnProgressEvent → TurnProgress
on_turn_start p e =
    let new_step = or_option (as_number e.step) p.step in
    record p {
      stage = thinking;
      label =
          if is_initial new_step
          then units "正在思考…"
          else units "第 " ++ (show (or_else new_step 0) ++ units " 步思考与规划中…");
      step = new_step;
      max_steps = or_option (as_number e.max_steps) p.max_steps;
      model = or_option (as_string e.model) p.model;
      tool_count = if is_initial new_step then some 0 else p.tool_count;
    }

-- `(current.toolCount ?? 0) > 0`
abbrev pub has_executed_tools : TurnProgress → Bool
has_executed_tools p = ltb 0 (or_else p.tool_count 0)

unfoldable pub on_message_start : TurnProgress → TurnProgress
on_message_start p = record p {
  stage = thinking;
  label =
      if has_executed_tools p
      then units "已完成工具调用，正在分析结果并规划下一步…"
      else if text_eq p.label (units "代理已启动，准备处理中…") || is_empty p.label
      then units "正在思考…"
      else p.label;
}

unfoldable pub on_tool_execution : TurnProgress → TurnProgressEvent → TurnProgress
on_tool_execution p e =
    let name = as_string e.tool_name in
    record p {
      stage = tool;
      label =
          if is_string e.tool_name (units "subagent")
          then units "🤖 正在执行独立子任务…"
          else if has_text name
          then tool_label (or_else name [])
          else units "正在执行工具…";
      tool_name = name;
      last_tool_name = or_option name p.last_tool_name;
    }

abbrev pub last_label : TurnProgress → Option Text
last_label p =
    if has_text p.tool_name
    then some (tool_label (or_else p.tool_name []))
    else if has_text p.last_tool_name
    then some (tool_label (or_else p.last_tool_name []))
    else none

unfoldable pub on_tool_execution_end : TurnProgress → TurnProgress
on_tool_execution_end p = record p {
  stage = thinking;
  label =
      if has_text (last_label p)
      then units "已完成" ++ (or_else (last_label p) [] ++ units "，分析结果中…")
      else units "继续处理中…";
  tool_name = none;
  tool_count = some (or_else p.tool_count 0 + 1);
}

-- the final return: `{ ...current, startedAt: current.startedAt || now }`
unfoldable pub on_other : TurnProgress → ℕ → TurnProgress
on_other p now = record p { started_at = if p.started_at == 0 then now else p.started_at }

unfoldable pub on_message_update : DeltaKind → TurnProgress → ℕ → TurnProgress
on_message_update thinking_delta p now = record p {
  stage = thinking;
  label = if has_executed_tools p then units "结合执行结果深入思考中…" else units "正在思考…";
}
on_message_update text_delta p now = record p { stage = responding; label = units "正在组织回复…" }
on_message_update toolcall_delta p now = record p { stage = tool; label = units "正在准备下一步操作…" }
on_message_update other_delta p now = on_other p now

-- the words for the round of a review
abbrev pub attempt_text : Option ℕ → Text
attempt_text none = []
attempt_text (some n) = units " (第 " ++ (show n ++ units " 轮)")

unfoldable pub on_review_start : TurnProgress → TurnProgressEvent → TurnProgress
on_review_start p e =
    let reviewer = or_else (as_string e.reviewer) (units "第三方独立模型") in
    record p {
      stage = reviewing;
      label =
          if is_string e.mode (units "async")
          then units "🧐 " ++ (reviewer ++ units " 正在后台质检… (不阻塞交互)")
          else units "🧐 "
            ++ (reviewer
                ++ (units " 正在对方案与修改进行双盲质检" ++ (attempt_text (as_number e.attempt) ++ units "…")));
    }

-- the warning sign in its emoji form, and a blank
abbrev pub warning_sign : Text
warning_sign = 0x26a0 ∷ 0xfe0f ∷ 32 ∷ []

unfoldable pub on_review_result : TurnProgress → TurnProgressEvent → ℕ → TurnProgress
on_review_result p e now =
    let reviewer = or_else (as_string e.reviewer) (units "评审模型") in
    let is_async = is_string e.mode (units "async") in
    if is_string e.status (units "rejected")
    then record p {
      stage = reviewing;
      label =
          if is_async
          then warning_sign ++ (reviewer ++ units " 质检提示已记录至对话")
          else warning_sign ++ (reviewer ++ units " 质检驳回，主模型正在重新修正缺陷…");
    }
    else if is_string e.status (units "approved")
    then record p {
      stage = responding;
      label =
          if is_async
          then units "✅ " ++ (reviewer ++ units " 质检通过")
          else units "✅ " ++ (reviewer ++ units " 质检通过，正在完成本轮交付…");
    }
    else on_other p now

-- the new progress of the event's own instance, `none` when the turn is over
unfoldable pub reduce_kind : EventKind → TurnProgress → TurnProgressEvent → ℕ → Option TurnProgress
reduce_kind turn_guard p e now = some (on_turn_guard p e)
reduce_kind agent_start p e now = some (on_agent_start p)
reduce_kind turn_start p e now = some (on_turn_start p e)
reduce_kind message_start p e now = some (on_message_start p)
reduce_kind tool_execution p e now = some (on_tool_execution p e)
reduce_kind tool_execution_end p e now = some (on_tool_execution_end p)
reduce_kind message_update p e now = some (on_message_update (delta_kind e) p now)
reduce_kind review_start p e now = some (on_review_start p e)
reduce_kind review_result p e now = some (on_review_result p e now)
reduce_kind agent_settled p e now = none
reduce_kind stream_end p e now = none
reduce_kind other_event p e now = some (on_other p now)

-- `reduceTurnProgressInner` returns the very object it got, a new one, or `undefined`
pub data Reduced : Type 0 where
  same_object : Reduced
  new_object : Option TurnProgress → Reduced

unfoldable pub reduce_turn_progress_inner : Option TurnProgress → TurnProgressEvent → ℕ → Reduced
reduce_turn_progress_inner none e now = same_object
reduce_turn_progress_inner (some p) e now =
    if text_eq p.instance_id e.instance_id
    then new_object (reduce_kind (event_kind e) p e now)
    else same_object

-- `{ ...next, lastEventAt: now }`, if there is a next
abbrev pub stamped : ℕ → Option TurnProgress → Option TurnProgress
stamped now none = none
stamped now (some q) = some (record q { last_event_at = some now })

abbrev pub next_of : Reduced → Option TurnProgress → ℕ → Option TurnProgress
next_of same_object current now = current
next_of (new_object next) current now = stamped now next

unfoldable pub reduce_turn_progress :
    Option TurnProgress → TurnProgressEvent → ℕ → Option TurnProgress
reduce_turn_progress current e now = next_of (reduce_turn_progress_inner current e now) current now
