-- ===== src/ToolAction/Badges.antt =====
-- The badges of items.
use open_pi.Prelude.{◌≡◌, refl, true, false, Option, none, some, is_some, or_else, arith}
use open_pi.Text.{Text, units, to_lower}
use open_pi.JsValue.{Fields, end}
use open_pi.ToolAction.{
  ActionType, read, write, edit, bash, search', other, action_item, action_type_of,
  format_action_item, result_badge,
}

result_badge-is_some : (text : Text) → is_some (result_badge (some text) false) ≡ true
unfolding result_badge
result_badge-is_some text = ground arith

action_item-badge :
    (t : ActionType) (name : Text) (args : Fields) (output : Option Text) (text : Text)
    → ((action_item t name args output true).badge ≡ some (units "failed"))
      × ((action_item t name args none false).badge ≡ none)
      × (is_some (action_item t name args (some text) false).badge ≡ true)
unfolding action_item result_badge
action_item-badge read name args output text = (refl, refl, refl)
action_item-badge write name args output text = (refl, refl, refl)
action_item-badge edit name args output text = (refl, refl, refl)
action_item-badge bash name args output text = (refl, refl, refl)
action_item-badge search' name args output text = (refl, refl, result_badge-is_some text)
action_item-badge other name args output text = (refl, refl, refl)

-- Whatever the tool is called and given: where it failed, the badge of its item says so, with or
-- without output; where it did not, there is a badge exactly if there is output.
pub format_action_item-badge :
    (name : Text) (args : Option Fields) (output : Option Text) (text : Text)
    → ((format_action_item name args output true).badge ≡ some (units "failed"))
      × ((format_action_item name args none false).badge ≡ none)
      × (is_some (format_action_item name args (some text) false).badge ≡ true)
unfolding format_action_item
format_action_item-badge name args =
    action_item-badge (action_type_of (to_lower name)) name (or_else args end)
