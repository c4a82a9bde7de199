-- ===== src/Thinking/Recommended.antt =====
-- The level that is recommended.
use open_pi.Prelude.{
  ◌≡◌, refl, Bool, true, false, ◌||◌, Option, List, [], ◌∷◌, if-then_else_lem, arith, ==_refl, ◌⊎◌,
  inl, inr,
}
use open_pi.Thinking.{
  ThinkingLevel, minimal, low, medium, high, xhigh, max, level_no, same_level, has_level, Model,
  is_flash_tier_model, model_name, active_levels, last_or, flash_level, top_level,
  get_highest_thinking_level,
}

-- one of the levels, or, where there is none, the default
pub IsChoice : List ThinkingLevel → ThinkingLevel → Type 0
IsChoice levels level =
    (has_level levels level ≡ true)
    ⊎ ((levels ≡ []) × (has_level (medium ∷ high ∷ []) level ≡ true))

or_right : (a : Bool) {b : Bool} → b ≡ true → (a || b) ≡ true
or_right true h = refl
or_right false h = h

or_left : {a : Bool} (b : Bool) → a ≡ true → (a || b) ≡ true
or_left b h = ground arith

same_level_refl : (l : ThinkingLevel) → same_level l l ≡ true
same_level_refl l = ==_refl (level_no l)

-- the level of a non-empty list that `at(-1)` gives
last_or-has_level :
    (l d : ThinkingLevel) (ls : List ThinkingLevel) → has_level (l ∷ ls) (last_or (l ∷ ls) d) ≡ true
last_or-has_level l d [] = let r = same_level_refl l in ground arith
last_or-has_level l d (k ∷ ls) =
    let ih = last_or-has_level k l ls in or_right (same_level (last_or ls k) l) ih

flash_level-IsChoice : (ls : List ThinkingLevel) → IsChoice ls (flash_level ls)
unfolding flash_level IsChoice
flash_level-IsChoice [] = inr (refl, refl)
flash_level-IsChoice (l ∷ ls) =
    let Choice : ThinkingLevel → Type 0 = IsChoice (l ∷ ls) in
    let r = same_level_refl l in
    if-then_else_lem Choice (has_level (l ∷ ls) medium) _ _ (λ h. inl h)
      (λ _.
        if-then_else_lem Choice (has_level (l ∷ ls) low) _ _ (λ h. inl h)
          (λ _.
            if-then_else_lem Choice (has_level (l ∷ ls) minimal) minimal l (λ h. inl h)
              (λ _. inl (or_left _ r))))

top_level-IsChoice : (ls : List ThinkingLevel) → IsChoice ls (top_level ls)
unfolding top_level IsChoice
top_level-IsChoice [] = inr (refl, refl)
top_level-IsChoice (l ∷ ls) =
    let Choice : ThinkingLevel → Type 0 = IsChoice (l ∷ ls) in
    if-then_else_lem Choice (has_level (l ∷ ls) max) _ _ (λ h. inl h)
      (λ _.
        if-then_else_lem Choice (has_level (l ∷ ls) xhigh) _ _ (λ h. inl h)
          (λ _.
            if-then_else_lem Choice (has_level (l ∷ ls) high) high (last_or ls l) (λ h. inl h)
              (λ _. inl (last_or-has_level l high ls))))

-- The recommended level is one of the active levels that the model declares, or, if it declares
-- none, the medium or the high one.
pub get_highest_thinking_level-IsChoice :
    (model : Option Model) → IsChoice (active_levels model) (get_highest_thinking_level model)
unfolding get_highest_thinking_level
get_highest_thinking_level-IsChoice model =
    if-then_else_lem (IsChoice (active_levels model)) (is_flash_tier_model (model_name model))
      (flash_level (active_levels model)) (top_level (active_levels model))
      (λ _. flash_level-IsChoice (active_levels model))
      (λ _. top_level-IsChoice (active_levels model))
