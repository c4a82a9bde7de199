-- ===== src/Thinking.antt =====
-- apps/desktop/web/lib/helpers.ts: the levels of thinking that a model offers, and the one to
-- recommend. A model is the fields that these functions read; its map of levels is an association
-- list, in which a level can stand with a text or with `null`.
pub mod Recommended
pub mod Models
mod Tests
use Prim.Native.String.{String}
use open_pi.Prelude.{
  ℕ, Bool, true, false, not, ◌||◌, Option, none, some, List, [], ◌∷◌, ◌++◌, ◌==◌, if◌then◌else◌,
  or_else, any, keep_if, is_some, ◌>>=◌,
}
use open_pi.Text.{Text, units, includes, is_empty, to_lower}

pub data ThinkingLevel : Type 0 where
  off minimal low medium high xhigh max : ThinkingLevel

abbrev pub level_no : ThinkingLevel → ℕ
level_no off = 0
level_no minimal = 1
level_no low = 2
level_no medium = 3
level_no high = 4
level_no xhigh = 5
level_no max = 6

-- `a === b`
abbrev pub same_level : ThinkingLevel → ThinkingLevel → Bool
same_level a b = level_no a == level_no b

-- `levels.includes(level)`
abbrev pub has_level : List ThinkingLevel → ThinkingLevel → Bool
has_level levels level = any (same_level level) levels

pub record Model : Type 0 where
  pub id : Option Text
  pub name : Option Text
  pub thinking_levels : Option (List ThinkingLevel)
  pub thinking_level_map : Option (List (ThinkingLevel × Option Text))

abbrev pub base_thinking_levels : List ThinkingLevel
base_thinking_levels = off ∷ minimal ∷ low ∷ medium ∷ high ∷ []

-- `map[level]`: `none` for `undefined`, and `some none` for `null`
abbrev pub mapped_level : List (ThinkingLevel × Option Text) → ThinkingLevel → Option (Option Text)
mapped_level [] level = none
mapped_level ((l, text) ∷ m) level = if same_level l level then some text else mapped_level m level

unfoldable pub is_available : Model → ThinkingLevel → Bool
is_available model level = elim (model.thinking_level_map >>= (λ m. mapped_level m level)) [
  | none ↦ has_level (or_else model.thinking_levels []) level
  | some mapped ↦ is_some mapped
]

unfoldable pub thinking_levels_for_model : Model → List ThinkingLevel
thinking_levels_for_model model =
    base_thinking_levels ++ keep_if (is_available model) (xhigh ∷ max ∷ [])

abbrev pub flash_words : List Text
flash_words =
    units "flash"
    ∷ units "lite"
    ∷ units "mini"
    ∷ units "small"
    ∷ units "turbo"
    ∷ units "instant"
    ∷ units "haiku"
    ∷ units "nano"
    ∷ []

unfoldable pub is_flash_tier_model : Text → Bool
is_flash_tier_model model_id_or_name =
    if is_empty model_id_or_name
    then false
    else any (includes (to_lower model_id_or_name)) flash_words

-- `model?.name || model?.id || ""`
abbrev pub model_name : Option Model → Text
model_name none = []
model_name (some model) =
    if is_empty (or_else model.name []) then or_else model.id [] else or_else model.name []

-- `levels.filter((l) => l !== "off")`
abbrev pub active_levels : Option Model → List ThinkingLevel
active_levels none = []
active_levels (some model) =
    keep_if (λ l. not (same_level l off)) (or_else model.thinking_levels [])

abbrev pub first_or : List ThinkingLevel → ThinkingLevel → ThinkingLevel
first_or [] d = d
first_or (l ∷ ls) d = l

abbrev pub last_or : List ThinkingLevel → ThinkingLevel → ThinkingLevel
last_or [] d = d
last_or (l ∷ ls) d = last_or ls l

-- the level for a model of the flash tier, and for another one
unfoldable pub flash_level : List ThinkingLevel → ThinkingLevel
flash_level active =
    if has_level active medium
    then medium
    else if has_level active low
    then low
    else if has_level active minimal
    then minimal
    else first_or active medium

unfoldable pub top_level : List ThinkingLevel → ThinkingLevel
top_level active =
    if has_level active max
    then max
    else if has_level active xhigh
    then xhigh
    else if has_level active high
    then high
    else last_or active high

unfoldable pub get_highest_thinking_level : Option Model → ThinkingLevel
get_highest_thinking_level model =
    if is_flash_tier_model (model_name model)
    then flash_level (active_levels model)
    else top_level (active_levels model)
