-- ===== src/Swarm.antt =====
-- apps/desktop/web/lib/swarm-types.ts: the messages of a conversation, told as the work of four
-- agents. The messages are modelled by the fields that the function reads; a missing message, which
-- the loop skips, is `none`.
pub mod Credit
pub mod Numbered
mod Tests
use Prim.Native.String.{String}
use open_pi.Prelude.{
  ℕ, ◌+◌, Bool, true, false, ◌||◌, Option, none, some, List, [], ◌∷◌, ◌++◌, any, take, or_else,
  if◌then◌else◌,
}
use open_pi.Text.{Text, units, text_eq, includes, to_lower, is_empty}
use open_pi.Text.Decimal.{show}
use open_pi.JsValue.{JsValue, string}

pub data SwarmRole : Type 0 where
  lead coder tester auditor researcher custom : SwarmRole

pub data MemberStatus : Type 0 where
  idle running completed error waiting : MemberStatus

pub data StepStatus : Type 0 where
  step_pending step_running step_completed step_failed : StepStatus

pub record SwarmMember : Type 0 where
  pub id : Text
  pub name : Text
  pub role : SwarmRole
  pub avatar : Text
  pub status : MemberStatus
  pub current_task : Option Text
  pub model : Option Text
  pub completed_tasks_count : ℕ

pub record SwarmTaskStep : Type 0 where
  pub id : Text
  pub member_id : Text
  pub role : SwarmRole
  pub title : Text
  pub description : Option Text
  pub status : StepStatus
  pub tool_calls : List (Text × Option Text)

pub record SwarmWorkflow : Type 0 where
  pub members : List SwarmMember
  pub steps : List SwarmTaskStep
  pub active_member_id : Option Text

-- a tool call of a message: its name and its result
pub record ToolCallStatus : Type 0 where
  pub name : Text
  pub result : Option Text

pub record ConversationMessage : Type 0 where
  pub role : Text
  pub content : JsValue
  pub tool_calls : List ToolCallStatus
  pub is_error : Bool

abbrev pub lead_id : Text
lead_id = units "agent-lead"

abbrev pub coder_id : Text
coder_id = units "agent-coder"

abbrev pub tester_id : Text
tester_id = units "agent-tester"

abbrev pub auditor_id : Text
auditor_id = units "agent-auditor"

abbrev pub idle_member : Text → Text → SwarmRole → Text → Option Text → SwarmMember
idle_member id name role avatar model = record {
  id = id;
  name = name;
  role = role;
  avatar = avatar;
  status = idle;
  current_task = none;
  model = model;
  completed_tasks_count = 0;
}

-- `currentModel || "Default Model"`
unfoldable pub lead_model : Option Text → Text
lead_model none = units "Default Model"
lead_model (some model) = if is_empty model then units "Default Model" else model

unfoldable pub lead_member : Option Text → Bool → SwarmMember
lead_member model is_working =
    let member =
      idle_member lead_id (units "Lead Architect") lead (units "🧠") (some (lead_model model)) in
    record member {
      status = if is_working then running else idle;
      current_task = if is_working then some (units "统筹分析与协调") else none;
    }

unfoldable pub default_members : Option Text → Bool → List SwarmMember
default_members model is_working =
    lead_member model is_working
    ∷ idle_member coder_id (units "Core Coder") coder (units "💻") model
    ∷ idle_member tester_id (units "QA Tester") tester (units "🧪") model
    ∷ idle_member auditor_id (units "Security Auditor") auditor (units "🛡" ++ 65039 ∷ []) model
    ∷ []

-- the variables of the loop
pub record Extraction : Type 0 where
  pub members : List SwarmMember
  pub steps : List SwarmTaskStep
  pub step_counter : ℕ

-- `step-${stepCounter}`
abbrev pub step_id : ℕ → Text
step_id n = units "step-" ++ show n

abbrev pub names_any : Text → List Text → Bool
names_any tool_name words = any (λ w. includes tool_name w) words

-- the role that a tool's name, in lower case, stands for
unfoldable pub assigned_role : Text → SwarmRole
assigned_role tool_name =
    if names_any tool_name (units "test" ∷ units "assert" ∷ units "verify" ∷ [])
    then tester
    else if names_any tool_name (units "edit" ∷ units "write" ∷ units "replace" ∷ units "diff" ∷ [])
    then coder
    else if names_any tool_name
        (units "guard" ∷ units "risk" ∷ units "audit" ∷ units "rollback" ∷ [])
    then auditor
    else if names_any tool_name (units "search" ∷ units "find" ∷ units "grep" ∷ units "symbol" ∷ [])
    then researcher
    else lead

-- the member that takes on the role
unfoldable pub assigned_member_id : SwarmRole → Text
assigned_member_id tester = tester_id
assigned_member_id coder = coder_id
assigned_member_id auditor = auditor_id
assigned_member_id researcher = lead_id
assigned_member_id lead = lead_id
assigned_member_id custom = lead_id

-- `find` by id, and the change of the member that it finds
unfoldable pub update_member :
    (SwarmMember → SwarmMember) → Text → List SwarmMember → List SwarmMember
update_member change id [] = []
update_member change id (m ∷ members) =
    let later = update_member change id members in
    if text_eq m.id id then change m ∷ members else m ∷ later

abbrev pub credit : SwarmMember → SwarmMember
credit m = record m { completed_tasks_count = m.completed_tasks_count + 1 }

-- `call.result || undefined`
unfoldable pub described : Option Text → Option Text
described none = none
described (some result) = if is_empty result then none else some result

abbrev pub tool_step : ℕ → SwarmRole → Bool → ToolCallStatus → SwarmTaskStep
tool_step n role is_error call = record {
  id = step_id n;
  member_id = assigned_member_id role;
  role = role;
  title = units "执行工具: " ++ call.name;
  description = described call.result;
  status = if is_error then step_failed else step_completed;
  tool_calls = (call.name, call.result) ∷ [];
}

-- one round of the loop over the tool calls of a message
unfoldable pub extract_call : Bool → Extraction → ToolCallStatus → Extraction
extract_call is_error x call =
    let role = assigned_role (to_lower call.name) in
    record {
      members = update_member credit (assigned_member_id role) x.members;
      steps = x.steps ++ tool_step x.step_counter role is_error call ∷ [];
      step_counter = x.step_counter + 1;
    }

unfoldable pub extract_calls : Bool → Extraction → List ToolCallStatus → Extraction
extract_calls is_error x [] = x
extract_calls is_error x (call ∷ calls) =
    extract_calls is_error (extract_call is_error x call) calls

-- the text of a user's message, when it is a string
unfoldable pub user_text : JsValue → Text
user_text (string s) = s
user_text _ = []

abbrev pub user_step : ℕ → JsValue → SwarmTaskStep
user_step n content = record {
  id = step_id n;
  member_id = lead_id;
  role = lead;
  title = units "需求分解与架构规划";
  description = some (take 120 (user_text content));
  status = step_completed;
  tool_calls = [];
}

-- one round of the loop over the messages
unfoldable pub extract_message : Extraction → Option ConversationMessage → Extraction
extract_message x none = x
extract_message x (some msg) =
    if text_eq msg.role (units "user")
    then record x {
      steps = x.steps ++ user_step x.step_counter msg.content ∷ [];
      step_counter = x.step_counter + 1;
    }
    else if text_eq msg.role (units "assistant")
    then extract_calls msg.is_error x msg.tool_calls
    else x

unfoldable pub extract_messages : Extraction → List (Option ConversationMessage) → Extraction
extract_messages x [] = x
extract_messages x (msg ∷ messages) = extract_messages (extract_message x msg) messages

-- the last step runs, and so does its member
unfoldable pub run_last : List SwarmTaskStep → List SwarmTaskStep
run_last [] = []
run_last (s ∷ []) = record s { status = step_running } ∷ []
run_last (s ∷ t ∷ steps) = s ∷ run_last (t ∷ steps)

unfoldable pub last_step : List SwarmTaskStep → Option SwarmTaskStep
last_step [] = none
last_step (s ∷ []) = some s
last_step (s ∷ t ∷ steps) = last_step (t ∷ steps)

abbrev pub run_member : Text → SwarmMember → SwarmMember
run_member title m = record m { status = running; current_task = some title }

unfoldable pub run_extraction : Extraction → Extraction
run_extraction x = elim (last_step x.steps) [
  | none ↦ x
  | some s ↦ record x {
    steps = run_last x.steps;
    members = update_member (run_member s.title) s.member_id x.members;
  }
]

abbrev pub initial_extraction : Option Text → Bool → Extraction
initial_extraction model is_working = record {
  members = default_members model is_working;
  steps = [];
  step_counter = 1;
}

unfoldable pub extract_swarm_from_messages :
    List (Option ConversationMessage) → Option Text → Bool → SwarmWorkflow
extract_swarm_from_messages messages model is_working =
    let x = extract_messages (initial_extraction model is_working) messages in
    let y = if is_working then run_extraction x else x in
    record {
      members = y.members;
      steps = y.steps;
      active_member_id = if is_working then some coder_id else none;
    }
