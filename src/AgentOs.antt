-- ===== src/AgentOs.antt =====
-- apps/desktop/web/lib/agent-os.ts: the suggestions (action cards) and the runs of tasks, as one
-- stream of activity and as causal chains. Dates and `JSON.parse` are parameters.
pub mod Sorted
pub mod Agreement
pub mod Api
pub mod Archived
mod Tests
use Prim.Native.String.{String}
use open_pi.Prelude.{
  ℕ, ◌+◌, ◌/◌, ◌%◌, Bool, true, false, ◌&&◌, Option, none, some, List, [], ◌∷◌, ◌++◌, map, take,
  or_else, if◌then◌else◌, leb, ltb, ◌==◌,
}
use open_pi.Text.{Text, units, text_eq, is_empty, trim}
use open_pi.Text.Decimal.{show}
use open_pi.JsValue.{JsValue, string, get, as_string}

pub data CardStatus : Type 0 where
  open' dismissed acted : CardStatus

pub record ActionCardRecord : Type 0 where
  pub id : Text
  pub title : Text
  pub summary : Text
  pub action_type : Text
  pub payload : JsValue
  pub status : CardStatus
  pub created_at : Text

pub data Trigger : Type 0 where
  manual scheduled : Trigger

-- the fields of a run that are shown
pub record TaskRun : Type 0 where
  pub id : Text
  pub task_id : Text
  pub status : Text
  pub trigger : Trigger
  pub created_at : Text
  pub started_at : Option Text
  pub finished_at : Option Text
  pub pid : Option ℕ
  pub result : Option Text
  pub error : Option Text

pub data ActivityKind : Type 0 where
  of_card of_run of_goal : ActivityKind

pub data EntrySource : Type 0 where
  from_card from_run : EntrySource

pub record AgentActivityItem : Type 0 where
  pub id : Text
  pub time : Text
  pub label : Text
  pub detail : Option Text
  pub kind : ActivityKind

pub record CausalChainEntry : Type 0 where
  pub id : Text
  pub time : Text
  pub observed : Text
  pub understood : Text
  pub decision : Text
  pub action : Text
  pub result : Text
  pub source : EntrySource
  pub pending : Option Bool

-- `a || b` at texts
unfoldable pub or_text : Text → Text → Text
or_text a b = if is_empty a then b else a

-- `a || b` at an optional text
unfoldable pub given_or : Option Text → Text → Text
given_or none b = b
given_or (some a) b = or_text a b

-- `a || undefined` at an optional text
unfoldable pub given : Option Text → Option Text
given none = none
given (some a) = if is_empty a then none else some a

-- `String(n).padStart(2, "0")`
unfoldable pub pad_2 : ℕ → Text
pad_2 n = if ltb n 10 then b'0' ∷ show n else show n

-- the JavaScript Date: the time of a text, `none` for an invalid one, and the local hours and
-- minutes of a time
pub record Dates : Type 0 where
  pub get_time : Text → Option ℕ
  pub get_hours : ℕ → ℕ
  pub get_minutes : ℕ → ℕ

-- a row to be sorted: `ts` and `item`
pub record Row {ℓ} (A : Type ℓ) : Type ℓ where
  pub ts : ℕ
  pub item : A

module _ {ℓ} {A : Type ℓ} where
  -- before the first row that is not later
  unfoldable pub insert_row : Row A → List (Row A) → List (Row A)
  insert_row r [] = r ∷ []
  insert_row r (q ∷ rows) =
      let rest = insert_row r rows in if leb q.ts r.ts then r ∷ q ∷ rows else q ∷ rest

  -- `rows.sort((a, b) => b.ts - a.ts)`, which keeps the order of rows of the same time
  unfoldable pub sort_rows : List (Row A) → List (Row A)
  sort_rows [] = []
  sort_rows (r ∷ rows) = insert_row r (sort_rows rows)

  unfoldable pub latest : ℕ → List (Row A) → List A
  latest limit rows = map (λ r. r.item) (take limit (sort_rows rows))

-- `run.finishedAt || run.startedAt || run.createdAt`
unfoldable pub run_time : TaskRun → Text
run_time run = given_or run.finished_at (given_or run.started_at run.created_at)

unfoldable pub card_decision : ActionCardRecord → Text
card_decision card = elim card.status [
  | acted ↦ units "已通过统一网关执行该建议"
  | dismissed ↦ units "用户已忽略，归档不再提醒"
  | open' ↦ units "等待用户裁决（尚未执行）"
]

unfoldable pub card_action : ActionCardRecord → Text
card_action card = elim card.status [
  | acted ↦ units "执行动作：" ++ card.action_type
  | dismissed ↦ units "未执行任何动作"
  | open' ↦ units "建议动作：" ++ (card.action_type ++ units "（未执行）")
]

unfoldable pub card_result : ActionCardRecord → Text
card_result card = elim card.status [
  | acted ↦ units "已提交执行（网关回执未单独回写到卡片）"
  | dismissed ↦ units "已忽略，无执行结果"
  | open' ↦ units "尚无结果"
]

-- `card.status === "open"`
unfoldable pub is_open : ActionCardRecord → Bool
is_open card = elim card.status [ open' ↦ true | _ ↦ false ]

-- `run.pid ? ... : ...`
unfoldable pub run_action : Option ℕ → Text
run_action none = units "启动执行进程（未记录 PID）"
run_action (some pid) = if pid == 0 then units "启动执行进程（未记录 PID）" else units "启动子进程 PID " ++ show pid

unfoldable pub run_result : TaskRun → Text
run_result run = elim (given run.error) [
  | none ↦ given_or run.result (units "状态：" ++ run.status)
  | some e ↦ units "失败：" ++ e
]

abbrev pub trigger_text : Trigger → Text
trigger_text scheduled = units "计划调度"
trigger_text manual = units "用户手动"

abbrev pub run_decision : Trigger → Text
run_decision scheduled = units "按既定计划放行执行"
run_decision manual = units "响应用户手动触发"

module _ (dates : Dates) where
  unfoldable pub format_clock : Text → Text
  format_clock iso = elim (dates.get_time iso) [
    | none ↦ []
    | some t ↦
        if is_empty iso
        then []
        else pad_2 (dates.get_hours t) ++ (b':' ∷ pad_2 (dates.get_minutes t))
  ]

  -- `new Date(iso).getTime() || 0`; `clockOf` gives the same, since an empty text is no date
  unfoldable pub time_or_zero : Text → ℕ
  time_or_zero iso = if is_empty iso then 0 else or_else (dates.get_time iso) 0

  abbrev pub card_activity : ActionCardRecord → Row AgentActivityItem
  card_activity card = record {
    ts = time_or_zero card.created_at;
    item = record {
      id = units "card-" ++ card.id;
      time = format_clock card.created_at;
      label = card.title;
      detail = some card.summary;
      kind = of_card;
    };
  }

  abbrev pub run_activity : TaskRun → Row AgentActivityItem
  run_activity run = record {
    ts = time_or_zero (run_time run);
    item = record {
      id = units "run-" ++ run.id;
      time = format_clock (run_time run);
      label = units "任务运行 · " ++ run.status;
      detail = given (some (given_or run.result (or_else run.error [])));
      kind = of_run;
    };
  }

  unfoldable pub build_agent_activity :
      List ActionCardRecord → List TaskRun → ℕ → List AgentActivityItem
  build_agent_activity action_cards task_runs limit =
      latest limit (map card_activity action_cards ++ map run_activity task_runs)

  abbrev pub card_entry : ActionCardRecord → Row CausalChainEntry
  card_entry card = record {
    ts = time_or_zero card.created_at;
    item = record {
      id = units "card-" ++ card.id;
      time = format_clock card.created_at;
      observed = card.title;
      understood = or_text card.summary (units "（后端未附说明）");
      decision = card_decision card;
      action = card_action card;
      result = card_result card;
      source = from_card;
      pending = some (is_open card);
    };
  }

  abbrev pub run_entry : TaskRun → Row CausalChainEntry
  run_entry run = record {
    ts = time_or_zero (run_time run);
    item = record {
      id = units "run-" ++ run.id;
      time = format_clock (run_time run);
      observed = units "任务运行 · " ++ run.status;
      understood = units "任务 " ++ (run.task_id ++ (units "，触发方式：" ++ trigger_text run.trigger));
      decision = run_decision run.trigger;
      action = run_action run.pid;
      result = run_result run;
      source = from_run;
      pending = none;
    };
  }

  unfoldable pub build_causal_chain :
      List ActionCardRecord → List TaskRun → ℕ → List CausalChainEntry
  build_causal_chain action_cards task_runs limit =
      latest limit (map card_entry action_cards ++ map run_entry task_runs)

-- what the payload of a card says; `parse` is `JSON.parse`, `none` where it throws
unfoldable pub parsed_payload : (Text → Option JsValue) → JsValue → Option JsValue
parsed_payload parse (string s) = parse s
parsed_payload parse payload = some payload

unfoldable pub action_card_prompt : (Text → Option JsValue) → ActionCardRecord → Text
action_card_prompt parse card = elim (parsed_payload parse card.payload) [
  | none ↦ or_text card.summary card.title
  | some parsed ↦
      or_text (trim (or_else (as_string (get parsed (units "prompt"))) []))
        (or_text card.summary card.title)
]
