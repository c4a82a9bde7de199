-- ===== src/Thinking/Models.antt =====
-- `modelSupportsReasoning` and `normalizeConversationModels`: the models that the agent reports,
-- read from values of no declared type.
pub mod Usable
use Prim.Native.String.{String}
use open_pi.Prelude.{
  ℕ, Bool, true, false, not, ◌||◌, ◌&&◌, Option, none, some, List, [], ◌∷◌, ◌++◌, any, flat_map,
  if◌then◌else◌, or_else, is_some,
}
use open_pi.Text.{Text, units, text_eq, includes, starts_with, is_empty, to_lower, trim}
use open_pi.JsValue.{
  JsValue, Items, Fields, undefined, null, boolean, number, string, array, object, nil, cons, end,
  field, property, as_string, as_number, as_boolean, items_of, truthy, is_text,
}
use open_pi.Thinking.{ThinkingLevel, off, minimal, low, medium, high, xhigh, max, same_level}

abbrev pub includes_one : Text → List Text → Bool
includes_one text words = any (includes text) words

-- the fields that tell whether a model reasons
pub record ReasoningFields : Type 0 where
  pub id : Text
  pub name : Text
  pub provider : Text
  pub reasoning : Option Bool
  -- the map of levels is there and has a key
  pub has_level_map : Bool

-- the providers whose models all reason
unfoldable pub is_reasoning_provider : Text → Text → Text → Bool
is_reasoning_provider id name provider =
    includes provider (units "agnes")
    || includes id (units "agnes")
    || includes name (units "agnes")
    || includes provider (units "sensenova")
    || includes provider (units "商汤")
    || includes id (units "sensenova")
    || includes name (units "sensenova")

unfoldable pub is_reasoning_name : Text → Text → Bool
is_reasoning_name id name =
    includes_one id (units "thinking" ∷ units "reason" ∷ units "r1" ∷ units "qwq" ∷ [])
    || starts_with id (units "o1")
    || starts_with id (units "o3")
    || includes_one id (
        units "claude-3-7"
        ∷ units "claude-opus-5"
        ∷ units "claude-opus-4"
        ∷ units "deepseek"
        ∷ units "kimi"
        ∷ units "minimax"
        ∷ units "glm-5"
        ∷ units "qwen3"
        ∷ units "mimo"
        ∷ units "seed"
        ∷ [])
    || includes_one name (units "thinking" ∷ units "reason" ∷ [])

-- the identifiers that outweigh a model's own `reasoning: false`
unfoldable pub is_surely_reasoning : Text → Bool
is_surely_reasoning id =
    includes_one id (units "r1" ∷ units "thinking" ∷ units "reason" ∷ units "qwq" ∷ [])

-- the answer for a model of no special provider, by what it says of itself
unfoldable pub reasoning_by_name : Option Bool → Text → Text → Bool → Bool
reasoning_by_name (some true) id name has_level_map = true
reasoning_by_name (some false) id name has_level_map =
    is_reasoning_name id name && is_surely_reasoning id
reasoning_by_name none id name has_level_map = is_reasoning_name id name || has_level_map

unfoldable pub model_supports_reasoning : Option ReasoningFields → Bool
model_supports_reasoning none = false
model_supports_reasoning (some model) =
    let id = to_lower model.id in
    let name = to_lower model.name in
    is_reasoning_provider id name (to_lower model.provider)
    || reasoning_by_name model.reasoning id name model.has_level_map

pub record ConversationModelOption : Type 0 where
  pub provider : Text
  pub id : Text
  pub name : Text
  pub reasoning : Bool
  pub supports_images : Bool
  pub thinking_levels : List Text
  pub context_window : Option ℕ
  pub max_tokens : Option ℕ

abbrev pub level_text : ThinkingLevel → Text
level_text off = units "off"
level_text minimal = units "minimal"
level_text low = units "low"
level_text medium = units "medium"
level_text high = units "high"
level_text xhigh = units "xhigh"
level_text max = units "max"

-- `Object.keys(map).length > 0`, for a map that is there
abbrev pub has_any_key : JsValue → Bool
has_any_key (object (field k v fs)) = true
has_any_key (array (cons v vs)) = true
has_any_key (string s) = not (is_empty s)
has_any_key _ = false

-- `Array.isArray(input) ? input.includes("image") : Boolean(row.supportsImages)`
abbrev pub images_supported : JsValue → JsValue → Bool
images_supported (array vs) flag = any (λ v. is_text v (units "image")) (items_of vs)
images_supported _ flag = truthy flag

-- `declaredLevels.has(level)`, for the levels of the row that are strings
abbrev pub declared_level : JsValue → ThinkingLevel → List Text
declared_level (array vs) level =
    if any (λ v. is_text v (level_text level)) (items_of vs) then level_text level ∷ [] else []
declared_level _ level = []

-- one of the two extended levels: what the map says of it, or else the declared levels
unfoldable pub extended_level : JsValue → JsValue → ThinkingLevel → List Text
extended_level (object fs) declared level = elim (property fs (level_text level)) [
  | undefined ↦ declared_level declared level
  | null ↦ []
  | other ↦ level_text level ∷ []
]
extended_level _ declared level = declared_level declared level

abbrev pub base_level_texts : List Text
base_level_texts = units "off" ∷ units "minimal" ∷ units "low" ∷ units "medium" ∷ units "high" ∷ []

unfoldable pub model_id : Fields → Text
model_id row = or_else (as_string (property row (units "id"))) []

unfoldable pub model_provider : Fields → Text
model_provider row = or_else (as_string (property row (units "provider"))) []

-- `typeof row.name === "string" && row.name.trim() ? row.name : id`
abbrev pub name_or_id : Text → Text → Text
name_or_id name id = if is_empty (trim name) then id else name

unfoldable pub model_name : Fields → Text
model_name row = name_or_id (or_else (as_string (property row (units "name"))) []) (model_id row)

-- what the name of a model tells, where its row does not say whether it reasons
unfoldable pub inferred_reasoning : Fields → Bool
inferred_reasoning row = model_supports_reasoning (
    some (record {
      id = model_id row;
      name = model_name row;
      provider = [];
      reasoning = none;
      has_level_map = has_any_key (property row (units "thinkingLevelMap"));
    }))

unfoldable pub offered_model : Fields → ConversationModelOption
offered_model row =
    let level_map = property row (units "thinkingLevelMap") in
    let declared = property row (units "thinkingLevels") in
    record {
      provider = model_provider row;
      id = model_id row;
      name = model_name row;
      reasoning = or_else (as_boolean (property row (units "reasoning"))) (inferred_reasoning row);
      supports_images =
          images_supported (property row (units "input")) (property row (units "supportsImages"));
      thinking_levels =
          base_level_texts
          ++ (extended_level level_map declared xhigh ++ extended_level level_map declared max);
      context_window = as_number (property row (units "contextWindow"));
      max_tokens = as_number (property row (units "maxTokens"));
    }

-- the option for one entry, none for an entry without an identifier or a provider
unfoldable pub model_option : JsValue → List ConversationModelOption
model_option (object row) =
    if is_empty (model_id row) || is_empty (model_provider row) then [] else offered_model row ∷ []
model_option _ = []

unfoldable pub normalize_conversation_models : JsValue → List ConversationModelOption
normalize_conversation_models (array vs) = flat_map model_option (items_of vs)
normalize_conversation_models _ = []
