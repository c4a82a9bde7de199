-- ===== src/Messages.antt =====
-- apps/desktop/web/lib/helpers.ts: how a message that arrives is merged into the conversation, and
-- which messages answer the tools of another. A message is its role, its time and, of a type of
-- its own, the rest.
pub mod Search
pub mod Merge
mod Tests
use Prim.Native.String.{String}
use open_pi.Prelude.{
  ℕ, zero, suc, ◌+◌, ◌==◌, Bool, true, false, not, ◌&&◌, ◌||◌, Option, none, some, List, [], ◌∷◌,
  ◌++◌, if◌then◌else◌, is_some, drop, get_elem?,
}
use open_pi.Text.{Text, units, text_eq}

module _ {ℓ} (R : Type ℓ) where
  pub record ConversationMessage : Type ℓ where
    pub role : Text
    pub timestamp : Option ℕ
    pub rest : R

-- `a === b` at optional times
abbrev pub same_time : Option ℕ → Option ℕ → Bool
same_time none none = true
same_time none (some b) = false
same_time (some a) none = false
same_time (some a) (some b) = a == b

module _ {ℓ} {A : Type ℓ} where
  -- `xs.findIndex(f)`, `none` for -1
  abbrev pub find_index : (A → Bool) → List A → Option ℕ
  find_index f [] = none
  find_index f (x ∷ xs) =
      let later = find_index f xs in
      if f x then some 0 else elim later [ none ↦ none | some i ↦ some (suc i) ]

  -- the loop from the last index down: the last element that passes the test
  abbrev pub find_last_index : (A → Bool) → List A → Option ℕ
  find_last_index f [] = none
  find_last_index f (x ∷ xs) = elim (find_last_index f xs) [
    | none ↦ if f x then some 0 else none
    | some i ↦ some (suc i)
  ]

  -- `xs[index] = value`
  abbrev pub set_elem : List A → ℕ → A → List A
  set_elem [] i value = []
  set_elem (x ∷ xs) zero value = value ∷ xs
  set_elem (x ∷ xs) (suc i) value = x ∷ set_elem xs i value

module _ {ℓ} {R : Type ℓ} where
  abbrev pub same_message : ConversationMessage R → ConversationMessage R → Bool
  same_message incoming message =
      text_eq message.role incoming.role && same_time message.timestamp incoming.timestamp

  abbrev pub is_unstamped_of : ConversationMessage R → ConversationMessage R → Bool
  is_unstamped_of incoming message =
      text_eq message.role incoming.role && not (is_some message.timestamp)

  -- the first search, for a message with the same role and time
  unfoldable pub stamped_index : List (ConversationMessage R) → ConversationMessage R → Option ℕ
  stamped_index messages incoming =
      if is_some incoming.timestamp then find_index (same_message incoming) messages else none

  -- both searches
  unfoldable pub message_index : List (ConversationMessage R) → ConversationMessage R → Option ℕ
  message_index messages incoming = elim (stamped_index messages incoming) [
    | none ↦
        if text_eq incoming.role (units "user")
        then none
        else find_last_index (is_unstamped_of incoming) messages
    | some i ↦ some i
  ]

  unfoldable pub merge_conversation_message :
      List (ConversationMessage R) → ConversationMessage R → List (ConversationMessage R)
  merge_conversation_message messages incoming = elim (message_index messages incoming) [
    | none ↦ messages ++ incoming ∷ []
    | some i ↦ set_elem messages i incoming
  ]

  -- the loop over the messages behind the assistant's
  unfoldable pub results_follow : List (ConversationMessage R) → Bool
  results_follow [] = false
  results_follow (next ∷ messages) =
      if text_eq next.role (units "toolResult")
      then true
      else if text_eq next.role (units "user") || text_eq next.role (units "assistant")
      then false
      else results_follow messages

  unfoldable pub assistant_tools_have_results : List (ConversationMessage R) → ℕ → Bool
  assistant_tools_have_results messages index = elim (get_elem? messages index) [
    | none ↦ false
    | some message ↦
        text_eq message.role (units "assistant") && results_follow (drop (index + 1) messages)
  ]
