-- ===== src/Swarm/Tests.antt =====
-- A conversation with a question and two calls, told as a workflow.
use open_pi.Prelude.{true, false, Option, none, some, List, [], ◌∷◌, All}
use open_pi.Text.{units}
use open_pi.JsValue.{string, undefined}
use open_pi.Swarm.{ConversationMessage, extract_swarm_from_messages}
use open_pi.Swarm.Credit.{IsCredited, extract_swarm_from_messages-IsCredited}
use open_pi.Swarm.Numbered.{IsNumberedTo, extract_swarm_from_messages-IsNumberedTo}

abbrev question : ConversationMessage
question = record {
  role = units "user";
  content = string (units "fix it");
  tool_calls = [];
  is_error = false;
}

abbrev answer : ConversationMessage
answer = record {
  role = units "assistant";
  content = undefined;
  tool_calls =
      record { name = units "edit_file"; result = some (units "done") }
      ∷ record { name = units "run_test"; result = none }
      ∷ [];
  is_error = false;
}

abbrev conversation : List (Option ConversationMessage)
conversation = some question ∷ none ∷ some answer ∷ []

extract_swarm_from_messages-IsCredited_example :
    All
      (IsCredited (extract_swarm_from_messages conversation none true).steps)
      (extract_swarm_from_messages conversation none true).members
extract_swarm_from_messages-IsCredited_example =
    extract_swarm_from_messages-IsCredited conversation none true

extract_swarm_from_messages-IsNumberedTo_example :
    IsNumberedTo true (extract_swarm_from_messages conversation none true).steps
extract_swarm_from_messages-IsNumberedTo_example =
    extract_swarm_from_messages-IsNumberedTo conversation none true
