-- ===== src/AgentOs/Api.antt =====
-- `useAgentOS`: the state of the hook, and how it is reloaded and changed. The back end is a
-- parameter, as a state of its own that each call changes.
use open_pi.Prelude.{
  Bool, true, false, Option, none, some, List, [], ◌++◌, keep_if, or_else, if◌then◌else◌,
}
use open_pi.Text.{Text, units}
use open_pi.JsValue.{JsValue}
use open_pi.AgentOs.{
  ActionCardRecord, Dates, TaskRun, AgentActivityItem, action_card_prompt, is_open,
  build_agent_activity,
}

-- a promise that is settled; a rejection carries the message of the error
pub data Settled (A : Type 0) : Type 0 where
  fulfilled : A → Settled A
  rejected : Text → Settled A

pub record GatewayReply : Type 0 where
  pub success : Bool
  pub message : Option Text

-- the calls of the back end. A list is `none` where the reply holds no array.
pub record DesktopApi (B G M : Type 0) : Type 0 where
  pub list_personal_goals : B → B × Settled (Option (List G))
  pub list_personal_memories : B → B × Settled (Option (List M))
  pub list_action_cards : B → B × Settled (Option (List ActionCardRecord))
  pub execute_through_gateway : B → Text → Text → B × Settled (Option GatewayReply)
  pub dismiss_action_card : B → Text → B × Settled Unit

pub record AgentState (B G M : Type 0) : Type 0 where
  pub backend : B
  pub goals : List G
  pub memories : List M
  pub action_cards : List ActionCardRecord

-- what `executeCard` returns
pub record Execution : Type 0 where
  pub success : Bool
  pub message : Text

-- the list that a settled promise brings, or else the one there was
unfoldable pub settled_or : {A : Type 0} → Settled (Option (List A)) → List A → List A
settled_or (fulfilled reply) old = or_else reply old
settled_or (rejected message) old = old

abbrev pub reply_success : Option GatewayReply → Bool
reply_success none = false
reply_success (some reply) = reply.success

abbrev pub reply_message : Option GatewayReply → Text
reply_message none = []
reply_message (some reply) = or_else reply.message []

module _ {B G M : Type 0} (api : DesktopApi B G M) (enabled : Bool) where
  unfoldable pub reload : AgentState B G M → AgentState B G M
  reload st =
      let goals = api.list_personal_goals st.backend in
      let memories = api.list_personal_memories goals.0 in
      let cards = api.list_action_cards memories.0 in
      if enabled
      then record {
        backend = cards.0;
        goals = settled_or goals.1 st.goals;
        memories = settled_or memories.1 st.memories;
        action_cards = settled_or cards.1 st.action_cards;
      }
      else st

  -- `dismissActionCard(card.id).catch(() => {})`, after a success only
  unfoldable pub archive : Bool → ActionCardRecord → AgentState B G M → AgentState B G M
  archive success card st =
      if success then record st { backend = (api.dismiss_action_card st.backend card.id).0 } else st

  -- what is done once the gateway has answered
  unfoldable pub after_gateway :
      ActionCardRecord
      → AgentState B G M
      → Settled (Option GatewayReply)
      → AgentState B G M × Execution
  after_gateway card st (rejected message) = (st, record { success = false; message = message })
  after_gateway card st (fulfilled reply) = (
    reload (archive (reply_success reply) card st),
    record { success = reply_success reply; message = reply_message reply },
  )

  unfoldable pub execute_card :
      (Text → Option JsValue) → ActionCardRecord → AgentState B G M → AgentState B G M × Execution
  execute_card parse card st =
      let answer =
        api.execute_through_gateway st.backend (action_card_prompt parse card)
          (units "proactive:" ++ card.action_type) in
      after_gateway card (record st { backend = answer.0 }) answer.1

  -- what is done once the back end has dismissed the card
  unfoldable pub after_dismissal : AgentState B G M → Settled Unit → AgentState B G M × Bool
  after_dismissal st (rejected message) = (st, false)
  after_dismissal st (fulfilled u) = (reload st, true)

  unfoldable pub dismiss_card : ActionCardRecord → AgentState B G M → AgentState B G M × Bool
  dismiss_card card st =
      let answer = api.dismiss_action_card st.backend card.id in
      after_dismissal (record st { backend = answer.0 }) answer.1

abbrev pub open_cards : {B G M : Type 0} → AgentState B G M → List ActionCardRecord
open_cards st = keep_if is_open st.action_cards

abbrev pub activity :
    {B G M : Type 0} → Dates → List TaskRun → AgentState B G M → List AgentActivityItem
activity dates task_runs st = build_agent_activity dates st.action_cards task_runs 6
