-- ===== src/AgentOs/Archived.antt =====
-- When a suggestion is dismissed at the back end.
use open_pi.Prelude.{Bool, true, false, Option, List, ◌∷◌, ◌≡◌, refl, ◌∙◌, if◌then◌else◌}
use open_pi.Text.{Text}
use open_pi.JsValue.{JsValue}
use open_pi.AgentOs.{ActionCardRecord}
use open_pi.AgentOs.Api.{
  DesktopApi, AgentState, Settled, fulfilled, rejected, GatewayReply, reload, archive,
  after_gateway, execute_card, reply_success,
}

-- a back end that also keeps the ids that it was asked to dismiss, the last one first
abbrev pub logged : {B G M : Type 0} → DesktopApi B G M → DesktopApi (B × List Text) G M
logged api = record {
  list_personal_goals = λ b. let r = api.list_personal_goals b.0 in ((r.0, b.1), r.1);
  list_personal_memories = λ b. let r = api.list_personal_memories b.0 in ((r.0, b.1), r.1);
  list_action_cards = λ b. let r = api.list_action_cards b.0 in ((r.0, b.1), r.1);
  execute_through_gateway =
      λ b prompt source. let r = api.execute_through_gateway b.0 prompt source in ((r.0, b.1), r.1);
  dismiss_action_card = λ b id. let r = api.dismiss_action_card b.0 id in ((r.0, id ∷ b.1), r.1);
}

module _ {B G M : Type 0} (api : DesktopApi B G M) (enabled : Bool) where
  reload-log :
      (st : AgentState (B × List Text) G M)
      → (reload (logged api) enabled st).backend.1 ≡ st.backend.1
  unfolding reload
  reload-log st = elim enabled as (λ e. (reload (logged api) e st).backend.1 ≡ st.backend.1) [
    | true ↦ refl
    | false ↦ refl
  ]

  archive-log :
      (success : Bool) (card : ActionCardRecord) (st : AgentState (B × List Text) G M)
      → (archive (logged api) enabled success card st).backend.1
        ≡ (if success then card.id ∷ st.backend.1 else st.backend.1)
  unfolding archive
  archive-log true card st = refl
  archive-log false card st = refl

  after_gateway-log :
      (card : ActionCardRecord) (st : AgentState (B × List Text) G M)
      (answer : Settled (Option GatewayReply))
      → (after_gateway (logged api) enabled card st answer).0.backend.1 ≡ (
          if (after_gateway (logged api) enabled card st answer).1.success
          then card.id ∷ st.backend.1
          else st.backend.1)
  unfolding after_gateway
  after_gateway-log card st (rejected message) = refl
  after_gateway-log card st (fulfilled reply) =
      reload-log (archive (logged api) enabled (reply_success reply) card st)
      ∙ archive-log (reply_success reply) card st

  -- Executing a card has it dismissed, once, if it returns success, and asks to dismiss nothing
  -- otherwise, whatever the back end answers.
  pub execute_card-log :
      (parse : Text → Option JsValue) (card : ActionCardRecord)
      (st : AgentState (B × List Text) G M)
      → (execute_card (logged api) enabled parse card st).0.backend.1 ≡ (
          if (execute_card (logged api) enabled parse card st).1.success
          then card.id ∷ st.backend.1
          else st.backend.1)
  unfolding execute_card
  execute_card-log parse card st = after_gateway-log card _ _
