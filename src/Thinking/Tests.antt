-- ===== src/Thinking/Tests.antt =====
-- Tests of the levels of thinking, and the property at a concrete input.
use open_pi.Prelude.{◌≡◌, refl, none, some, [], ◌∷◌}
use open_pi.Text.{units, includes, starts_with, to_lower, lower_unit}
use open_pi.Thinking.{
  off, minimal, low, medium, high, xhigh, max, Model, is_available, thinking_levels_for_model,
  is_flash_tier_model, flash_level, get_highest_thinking_level,
}

abbrev small_model : Model
small_model = record {
  id = some (units "x-mini");
  name = none;
  thinking_levels = some (off ∷ high ∷ max ∷ []);
  thinking_level_map = some ((xhigh, some (units "x")) ∷ (max, none) ∷ []);
}

levels_test :
    thinking_levels_for_model small_model ≡ off ∷ minimal ∷ low ∷ medium ∷ high ∷ xhigh ∷ []
unfolding thinking_levels_for_model is_available
levels_test = refl

first_level : get_highest_thinking_level (some small_model) ≡ high
unfolding get_highest_thinking_level is_flash_tier_model flash_level includes starts_with to_lower
    lower_unit
first_level = refl
