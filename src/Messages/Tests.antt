-- ===== src/Messages/Tests.antt =====
-- Tests of merging messages, and the properties at concrete inputs.
use open_pi.Prelude.{ℕ, ◌≡◌, refl, true, false, none, some, [], ◌∷◌, get_elem?}
use open_pi.Text.{units, text_eq}
use open_pi.Messages.{
  ConversationMessage, stamped_index, message_index, merge_conversation_message, results_follow,
  assistant_tools_have_results,
}
use open_pi.Messages.Merge.{is_replaceable, merge_conversation_message_keeps}

abbrev question : ConversationMessage ℕ
question = record { role = units "user"; timestamp = some 1; rest = 0 }

abbrev draft_answer : ConversationMessage ℕ
draft_answer = record { role = units "assistant"; timestamp = none; rest = 1 }

abbrev answer : ConversationMessage ℕ
answer = record { role = units "assistant"; timestamp = some 2; rest = 2 }

abbrev tool_result : ConversationMessage ℕ
tool_result = record { role = units "toolResult"; timestamp = some 3; rest = 3 }

answer_replaces :
    merge_conversation_message (question ∷ draft_answer ∷ []) answer ≡ question ∷ answer ∷ []
unfolding merge_conversation_message message_index stamped_index text_eq
answer_replaces = refl

results_found : assistant_tools_have_results (question ∷ answer ∷ tool_result ∷ []) 1 ≡ true
unfolding assistant_tools_have_results results_follow text_eq
results_found = refl

question-is_replaceable : is_replaceable answer question ≡ false
unfolding text_eq
question-is_replaceable = refl

merge_conversation_message_keeps_example :
    get_elem? (merge_conversation_message (question ∷ draft_answer ∷ []) answer) 0 ≡ some question
merge_conversation_message_keeps_example =
    merge_conversation_message_keeps answer (question ∷ draft_answer ∷ []) 0 question refl
      question-is_replaceable
