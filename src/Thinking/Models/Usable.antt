-- ===== src/Thinking/Models/Usable.antt =====
-- The models that are offered can be chosen.
use open_pi.Prelude.{
  ◌≤◌, ◌≡◌, refl, Bool, true, false, ◌||◌, List, [], ◌∷◌, ◌++◌, All, All-append, flat_map, any,
  length, length-append, if◌then◌else◌, arith, Bool-cases, inl, inr, or_else,
}
use open_pi.Text.{Text, units, is_empty, trim, trim_start}
use open_pi.JsValue.{
  JsValue, undefined, null, boolean, number, string, array, object, Fields, items_of, property,
  as_string, is_text,
}
use open_pi.Thinking.{ThinkingLevel, xhigh, max}
use open_pi.Thinking.Models.{
  ConversationModelOption, model_option, offered_model, model_id, model_provider, model_name,
  name_or_id, normalize_conversation_models, extended_level, declared_level, base_level_texts,
  level_text,
}

-- it has an identifier, a provider and a name, and the five base levels before at most two more
abbrev pub IsUsable : ConversationModelOption → Type 0
IsUsable m =
    (is_empty m.id ≡ false)
    × (is_empty m.provider ≡ false)
    × (is_empty m.name ≡ false)
    × ((more : List Text) × (m.thinking_levels ≡ base_level_texts ++ more) × (length more ≤ 2))

declared_level-length :
    (declared : JsValue) (level : ThinkingLevel) → length (declared_level declared level) ≤ 1
declared_level-length (array vs) level =
    at_most (any (λ v. is_text v (level_text level)) (items_of vs))
  where
    at_most : (b : Bool) → length (if b then level_text level ∷ [] else []) ≤ 1
    at_most true = omega arith
    at_most false = omega arith
declared_level-length undefined level = omega arith
declared_level-length null level = omega arith
declared_level-length (boolean b) level = omega arith
declared_level-length (number n) level = omega arith
declared_level-length (string s) level = omega arith
declared_level-length (object fs) level = omega arith

length-extended_level :
    (level_map declared : JsValue) (level : ThinkingLevel)
    → length (extended_level level_map declared level) ≤ 1
unfolding extended_level
length-extended_level (object fs) declared level =
    ground (arith, declared_level-length declared level)
length-extended_level (array vs) declared level = declared_level-length declared level
length-extended_level undefined declared level = declared_level-length declared level
length-extended_level null declared level = declared_level-length declared level
length-extended_level (boolean b) declared level = declared_level-length declared level
length-extended_level (number n) declared level = declared_level-length declared level
length-extended_level (string s) declared level = declared_level-length declared level

-- a name that is blank is replaced by the identifier
name_not_empty : (name id : Text) → is_empty id ≡ false → is_empty (name_or_id name id) ≡ false
unfolding trim trim_start
name_not_empty [] id h = h
name_not_empty (c ∷ s) id h = either_not_empty (is_empty (trim (c ∷ s))) id (c ∷ s) h refl
  where
    either_not_empty :
        (b : Bool) (s t : Text)
        → is_empty s ≡ false
        → is_empty t ≡ false
        → is_empty (if b then s else t) ≡ false
    either_not_empty true s t hs ht = hs
    either_not_empty false s t hs ht = ht

offered_model-IsUsable :
    (row : Fields)
    → is_empty (model_id row) ≡ false
    → is_empty (model_provider row) ≡ false
    → IsUsable (offered_model row)
unfolding offered_model model_name
offered_model-IsUsable row id provider =
    let level_map : JsValue = property row (units "thinkingLevelMap") in
    let declared : JsValue = property row (units "thinkingLevels") in
    let highs : List Text = extended_level level_map declared xhigh in
    let maxes : List Text = extended_level level_map declared max in
    (
      id,
      provider,
      name_not_empty (or_else (as_string (property row (units "name"))) []) (model_id row) id,
      (
        highs ++ maxes,
        refl,
        omega (
          arith,
          length-append highs maxes,
          length-extended_level level_map declared xhigh,
          length-extended_level level_map declared max,
        ),
      ),
    )

model_option-IsUsable : (v : JsValue) → All IsUsable (model_option v)
unfolding model_option
model_option-IsUsable (object row) =
    elim (Bool-cases (is_empty (model_id row) || is_empty (model_provider row))) [
      | inl missing ↦ rw missing tt
      | inr complete ↦ rw complete (offered_model-IsUsable row (ground arith) (ground arith), tt)
    ]
model_option-IsUsable undefined = tt
model_option-IsUsable null = tt
model_option-IsUsable (boolean b) = tt
model_option-IsUsable (number n) = tt
model_option-IsUsable (string s) = tt
model_option-IsUsable (array vs) = tt

options-IsUsable : (vs : List JsValue) → All IsUsable (flat_map model_option vs)
options-IsUsable [] = tt
options-IsUsable (v ∷ vs) =
    All-append IsUsable (model_option v) (flat_map model_option vs) (model_option-IsUsable v)
      (options-IsUsable vs)

-- Whatever the agent reports, each model that is offered has an identifier, a provider and a name, and
-- its levels of thinking are the five base levels and at most two more behind them.
pub normalize_conversation_models-IsUsable :
    (value : JsValue) → All IsUsable (normalize_conversation_models value)
unfolding normalize_conversation_models
normalize_conversation_models-IsUsable (array vs) = options-IsUsable (items_of vs)
normalize_conversation_models-IsUsable undefined = tt
normalize_conversation_models-IsUsable null = tt
normalize_conversation_models-IsUsable (boolean b) = tt
normalize_conversation_models-IsUsable (number n) = tt
normalize_conversation_models-IsUsable (string s) = tt
normalize_conversation_models-IsUsable (object fs) = tt
