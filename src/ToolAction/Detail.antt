-- ===== src/ToolAction/Detail.antt =====
-- The targets of items.
use open_pi.Prelude.{
  ℕ, zero, suc, ◌≤◌, ◌≡◌, refl, Bool, true, false, Option, List, [], ◌∷◌, ◌++◌, or_else,
  if◌then◌else◌, ltb, length, length-append, take, arith,
}
use open_pi.Text.{Text, units, to_lower, is_empty}
use open_pi.JsValue.{Fields, end}
use open_pi.ToolAction.{
  ActionType, read, write, edit, bash, search', other, action_item, action_type_of,
  format_action_item, text_or, get_path, command_text, shown_command, search_query, read_target,
  search_target,
}

either-not_empty :
    (b : Bool) (s t : Text)
    → is_empty s ≡ false
    → is_empty t ≡ false
    → is_empty (if b then s else t) ≡ false
either-not_empty true s t hs ht = hs
either-not_empty false s t hs ht = ht

text_or-not_empty : (s t : Text) → is_empty t ≡ false → is_empty (text_or s t) ≡ false
text_or-not_empty [] t h = h
text_or-not_empty (c ∷ s) t h = refl

append-not_empty : (s t : Text) → is_empty s ≡ false → is_empty (s ++ t) ≡ false
append-not_empty [] t h = ground arith
append-not_empty (c ∷ s) t h = refl

-- a text, or a name where the text is empty
named-not_empty :
    (s t u : Text)
    → is_empty t ≡ false
    → (is_empty s ≡ false → is_empty u ≡ false)
    → is_empty (if is_empty s then t else u) ≡ false
named-not_empty [] t u h k = h
named-not_empty (c ∷ s) t u h k = k refl

shown_command-not_empty : (s : Text) → is_empty (shown_command s) ≡ false
unfolding shown_command
shown_command-not_empty [] = refl
shown_command-not_empty (c ∷ s) = either-not_empty (ltb 70 (length (c ∷ s))) _ _ refl refl

length-take : {A : Type 0} (n : ℕ) (xs : List A) → length (take n xs) ≤ n
length-take zero xs = omega arith
length-take (suc n) [] = omega arith
length-take (suc n) (x ∷ xs) = omega (arith, length-take n xs)

length-shown_command : (s : Text) → length (shown_command s) ≤ 70
unfolding shown_command
length-shown_command s =
    let cut : length (take 67 s ++ units "...") ≤ 70 =
      omega (arith, length-append (take 67 s) (units "..."), length-take 67 s) in
    ground arith

-- what the target of an item of a kind is like
abbrev pub TargetFits : ActionType → Text → Type 0
TargetFits other target = Unit
TargetFits bash target = (is_empty target ≡ false) × (length target ≤ 70)
TargetFits _ target = is_empty target ≡ false

action_item-TargetFits :
    (t : ActionType) (name : Text) (args : Fields) (output : Option Text) (is_error : Bool)
    → let item = action_item t name args output is_error in TargetFits item.action_type item.target
unfolding action_item read_target search_target
action_item-TargetFits read name args output is_error =
    named-not_empty (get_path args) _ _ refl (append-not_empty (get_path args) _)
action_item-TargetFits write name args output is_error = text_or-not_empty (get_path args) _ refl
action_item-TargetFits edit name args output is_error = text_or-not_empty (get_path args) _ refl
action_item-TargetFits bash name args output is_error =
    (shown_command-not_empty (command_text args), length-shown_command (command_text args))
action_item-TargetFits search' name args output is_error =
    named-not_empty (search_query args) _ (b'"' ∷ (search_query args ++ b'"' ∷ []))
      (text_or-not_empty (get_path args) (units "codebase") refl) (λ h. refl)
action_item-TargetFits other name args output is_error = tt

-- The target of an item is not empty, unless the tool is of no known kind; that of a command has at
-- most 70 units.
pub format_action_item-TargetFits :
    (name : Text) (args : Option Fields) (output : Option Text) (is_error : Bool)
    → let item = format_action_item name args output is_error in
      TargetFits item.action_type item.target
unfolding format_action_item
format_action_item-TargetFits name args output is_error =
    action_item-TargetFits (action_type_of (to_lower name)) name (or_else args end) output is_error
