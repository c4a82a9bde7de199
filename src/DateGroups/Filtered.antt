-- ===== src/DateGroups/Filtered.antt =====
-- The groups of `groupConversationsByDate` against the filtered list.
use open_pi.Prelude.{
  ℕ, ◌≡◌, refl, ap, sym, ◌∙◌, Bool, true, false, Option, List, [], ◌∷◌, ◌++◌, append_assoc, keep_if,
  flat_map, if◌then◌else◌, append-nil,
}
use open_pi.Text.{Text}
use open_pi.DateGroups.{
  DateGroupKey, today, yesterday, week, earlier, AgentInstance, Groups, time_of, key_of_time,
  push_to, fill_groups, group_of, group_conversations_by_date,
}

abbrev pub same_key : DateGroupKey → DateGroupKey → Bool
same_key today today = true
same_key yesterday yesterday = true
same_key week week = true
same_key earlier earlier = true
same_key _ _ = false

abbrev pub all_keys : List DateGroupKey
all_keys = today ∷ yesterday ∷ week ∷ earlier ∷ []

-- the array of a key
abbrev pub items_at : {R : Type 0} → DateGroupKey → Groups R → List (AgentInstance R)
items_at today g = g.today_items
items_at yesterday g = g.yesterday_items
items_at week g = g.week_items
items_at earlier g = g.earlier_items

items_at-push_to :
    {R : Type 0} (key k : DateGroupKey) (inst : AgentInstance R) (g : Groups R)
    → items_at key (push_to k inst g) ≡ items_at key g ++ (if same_key key k then inst ∷ [] else [])
items_at-push_to today today inst g = refl
items_at-push_to today yesterday inst g = sym (append-nil g.today_items)
items_at-push_to today week inst g = sym (append-nil g.today_items)
items_at-push_to today earlier inst g = sym (append-nil g.today_items)
items_at-push_to yesterday yesterday inst g = refl
items_at-push_to yesterday today inst g = sym (append-nil g.yesterday_items)
items_at-push_to yesterday week inst g = sym (append-nil g.yesterday_items)
items_at-push_to yesterday earlier inst g = sym (append-nil g.yesterday_items)
items_at-push_to week week inst g = refl
items_at-push_to week today inst g = sym (append-nil g.week_items)
items_at-push_to week yesterday inst g = sym (append-nil g.week_items)
items_at-push_to week earlier inst g = sym (append-nil g.week_items)
items_at-push_to earlier earlier inst g = refl
items_at-push_to earlier today inst g = sym (append-nil g.earlier_items)
items_at-push_to earlier yesterday inst g = sym (append-nil g.earlier_items)
items_at-push_to earlier week inst g = sym (append-nil g.earlier_items)

keep_if-cons {ℓ} :
    {A : Type ℓ} (p : A → Bool) (x : A) (xs : List A)
    → (if p x then x ∷ [] else []) ++ keep_if p xs ≡ keep_if p (x ∷ xs)
keep_if-cons {A = A} p x xs =
    elim (p x)
      as (λ b.
        (if b then x ∷ [] else []) ++ keep_if p xs
        ≡ elim b as (λ c. List A) [ true ↦ x ∷ keep_if p xs | false ↦ keep_if p xs ]) [
          | true ↦ refl
          | false ↦ refl
        ]

module _ (get_time : Text → Option ℕ) (today_start : ℕ) {R : Type 0} where
  abbrev pub falls_into : DateGroupKey → AgentInstance R → Bool
  falls_into key inst = same_key key (key_of_time today_start (time_of get_time inst))

  items_at-fill_groups :
      (key : DateGroupKey) (g : Groups R) (instances : List (AgentInstance R))
      → items_at key (fill_groups get_time today_start g instances)
        ≡ items_at key g ++ keep_if (falls_into key) instances
  unfolding fill_groups
  items_at-fill_groups key g [] = sym (append-nil (items_at key g))
  items_at-fill_groups key g (inst ∷ instances) =
      let k : DateGroupKey = key_of_time today_start (time_of get_time inst) in
      items_at-fill_groups key (push_to k inst g) instances
      ∙ ap (λ is. is ++ keep_if (falls_into key) instances) (items_at-push_to key k inst g)
      ∙ append_assoc (items_at key g) _ (keep_if (falls_into key) instances)
      ∙ ap (λ is. items_at key g ++ is) (keep_if-cons (falls_into key) inst instances)

  -- The list has a group for each span of time that a conversation falls into, from today to earlier,
  -- with these conversations in the order they were given.
  pub group_conversations_by_date_lem :
      (instances : List (AgentInstance R))
      → group_conversations_by_date get_time today_start instances
        ≡ flat_map (λ key. group_of key (keep_if (falls_into key) instances)) all_keys
  unfolding group_conversations_by_date
  group_conversations_by_date_lem instances =
      let g : Groups R = record {
        today_items = [];
        yesterday_items = [];
        week_items = [];
        earlier_items = [];
      } in
      rw
        (
          items_at-fill_groups today g instances,
          items_at-fill_groups yesterday g instances,
          items_at-fill_groups week g instances,
          items_at-fill_groups earlier g instances,
          append-nil (group_of earlier (keep_if (falls_into earlier) instances)),
        )
        refl
