-- ===== src/Messages/Merge.antt =====
-- What merging a message into a conversation does.
use open_pi.Prelude.{
  ℕ, ◌<◌, ◌≡◌, refl, ◌≢◌, ap, sym, ◌∙◌, subst, Bool, true, false, not, ◌&&◌, ◌||◌, Option, none,
  some, List, [], ◌∷◌, ◌++◌, inl, inr, Bool-cases, Option-cases, is_some, length, get_elem?, arith,
  ==_refl,
}
use open_pi.Text.{units, text_eq}
use open_pi.Text.Laws.{text_eq_refl}
use open_pi.Messages.{
  ConversationMessage, same_time, find_index, find_last_index, set_elem, same_message,
  is_unstamped_of, stamped_index, message_index, merge_conversation_message,
}
use open_pi.Messages.Search.{
  set_elem-set_elem, set_elem_end, find_index_end, find_index-set_elem, find_index_only,
  find_last_index_end, find_last_index-set_elem, find_last_index-length, find_index-passes,
  find_last_index-passes, get_elem?-set_elem, get_elem?_before,
}

same_time_refl : (o : Option ℕ) → same_time o o ≡ true
same_time_refl none = refl
same_time_refl (some t) = ==_refl t

module _ {ℓ} {R : Type ℓ} (m : ConversationMessage R) where
  -- the message has a time, or is not the user's
  abbrev pub is_known : Bool
  is_known = is_some m.timestamp || not (text_eq m.role (units "user"))

  same_message_refl : same_message m m ≡ true
  same_message_refl =
      let a = text_eq_refl m.role in let b = same_time_refl m.timestamp in ground arith

  -- where the message is after it was merged
  Placed : List (ConversationMessage R) → Type ℓ
  Placed ms = (i : ℕ) × ((message_index ms m ≡ some i) × (set_elem ms i m ≡ ms))

  message_index_stamped :
      (ms : List (ConversationMessage R)) (i : ℕ)
      → is_some m.timestamp ≡ true
      → find_index (same_message m) ms ≡ some i
      → message_index ms m ≡ some i
  unfolding message_index stamped_index
  message_index_stamped ms i s e = ground arith

  message_index_unstamped :
      (ms : List (ConversationMessage R)) (o : Option ℕ)
      → text_eq m.role (units "user") ≡ false
      → stamped_index ms m ≡ none
      → find_last_index (is_unstamped_of m) ms ≡ o
      → message_index ms m ≡ o
  unfolding message_index
  message_index_unstamped ms o r s e = ground arith

  merge_at :
      (ms : List (ConversationMessage R)) (i : ℕ)
      → message_index ms m ≡ some i
      → merge_conversation_message ms m ≡ set_elem ms i m
  unfolding merge_conversation_message
  merge_at ms i e = ap (λ o. elim o [ none ↦ ms ++ m ∷ [] | some j ↦ set_elem ms j m ]) e

  merge_end :
      (ms : List (ConversationMessage R))
      → message_index ms m ≡ none
      → merge_conversation_message ms m ≡ ms ++ m ∷ []
  unfolding merge_conversation_message
  merge_end ms e = ap (λ o. elim o [ none ↦ ms ++ m ∷ [] | some j ↦ set_elem ms j m ]) e

  Placed-at :
      (ms : List (ConversationMessage R)) (i : ℕ)
      → message_index ms m ≡ some i
      → message_index (set_elem ms i m) m ≡ some i
      → Placed (merge_conversation_message ms m)
  Placed-at ms i e again =
      let here : Placed (set_elem ms i m) =
        unfold Placed in (i, (again, set_elem-set_elem ms i m)) in
      subst Placed (sym (merge_at ms i e)) here

  Placed-end :
      (ms : List (ConversationMessage R))
      → message_index ms m ≡ none
      → message_index (ms ++ m ∷ []) m ≡ some (length ms)
      → Placed (merge_conversation_message ms m)
  Placed-end ms e again =
      let here : Placed (ms ++ m ∷ []) = unfold Placed in (length ms, (again, set_elem_end ms m)) in
      subst Placed (sym (merge_end ms e)) here

  stamped_index_nowhere :
      (ms : List (ConversationMessage R))
      → find_index (same_message m) ms ≡ none
      → stamped_index ms m ≡ none
  unfolding stamped_index
  stamped_index_nowhere ms e = ground arith

  stamped_index_unstamped :
      (ms : List (ConversationMessage R)) → is_some m.timestamp ≡ false → stamped_index ms m ≡ none
  unfolding stamped_index
  stamped_index_unstamped ms s = ground arith

  message_index-length :
      (ms : List (ConversationMessage R)) (i : ℕ)
      → stamped_index ms m ≡ none
      → message_index ms m ≡ some i
      → i < length ms
  unfolding message_index
  message_index-length ms i s e = find_last_index-length (is_unstamped_of m) ms i (ground arith)

  Placed-stamped :
      (ms : List (ConversationMessage R))
      → is_some m.timestamp ≡ true
      → Placed (merge_conversation_message ms m)
  Placed-stamped ms s = elim (Option-cases (find_index (same_message m) ms)) [
    | inr (i, here) ↦ Placed-at ms i (message_index_stamped ms i s here) (
        message_index_stamped (set_elem ms i m) i s
          (find_index-set_elem (same_message m) ms i m here same_message_refl))
    | inl nowhere ↦ elim (Option-cases (message_index ms m)) [
      | inl new ↦ Placed-end ms new (
          message_index_stamped (ms ++ m ∷ []) (length ms) s
            (find_index_end (same_message m) ms m nowhere same_message_refl))
      | inr (i, here) ↦
          let inside = message_index-length ms i (stamped_index_nowhere ms nowhere) here in
          Placed-at ms i here (
            message_index_stamped (set_elem ms i m) i s
              (find_index_only (same_message m) ms i m nowhere inside same_message_refl))
    ]
  ]

  Placed-unstamped :
      (ms : List (ConversationMessage R))
      → is_some m.timestamp ≡ false
      → text_eq m.role (units "user") ≡ false
      → Placed (merge_conversation_message ms m)
  Placed-unstamped ms s r =
      let role : text_eq m.role m.role ≡ true = text_eq_refl m.role in
      let passes : is_unstamped_of m m ≡ true = ground arith in
      elim (Option-cases (find_last_index (is_unstamped_of m) ms)) [
        | inr (i, here) ↦
            Placed-at ms i
              (message_index_unstamped ms (some i) r (stamped_index_unstamped ms s) here)
              (message_index_unstamped (set_elem ms i m) (some i) r
                (stamped_index_unstamped (set_elem ms i m) s)
                (find_last_index-set_elem (is_unstamped_of m) ms i m here passes))
        | inl nowhere ↦
            Placed-end ms (message_index_unstamped ms none r (stamped_index_unstamped ms s) nowhere)
              (message_index_unstamped (ms ++ m ∷ []) (some (length ms)) r
                (stamped_index_unstamped (ms ++ m ∷ []) s)
                (find_last_index_end (is_unstamped_of m) ms m passes))
      ]

  Placed-merge :
      (ms : List (ConversationMessage R))
      → is_known ≡ true
      → Placed (merge_conversation_message ms m)
  Placed-merge ms k = elim (Bool-cases (is_some m.timestamp)) [
    | inl s ↦ Placed-stamped ms s
    | inr s ↦ Placed-unstamped ms s (ground arith)
  ]

  -- Merging a message a second time changes nothing, if it has a time or is not the user's.
  pub merge_conversation_message_twice :
      (ms : List (ConversationMessage R))
      → is_known ≡ true
      → merge_conversation_message (merge_conversation_message ms m) m
        ≡ merge_conversation_message ms m
  unfolding Placed
  merge_conversation_message_twice ms k =
      let (i, (found, same)) = Placed-merge ms k in
      merge_at (merge_conversation_message ms m) i found ∙ same

  -- a message that `m` can take the place of: of its role, and without a time or with its time
  abbrev pub is_replaceable : ConversationMessage R → Bool
  is_replaceable old =
      text_eq old.role m.role
      && (not (is_some old.timestamp) || same_time old.timestamp m.timestamp)

  message_index-is_replaceable :
      (ms : List (ConversationMessage R)) (i : ℕ) (old : ConversationMessage R)
      → message_index ms m ≡ some i
      → get_elem? ms i ≡ some old
      → is_replaceable old ≡ true
  unfolding message_index stamped_index
  message_index-is_replaceable ms i old e g = elim (Option-cases (stamped_index ms m)) [
    | inr (j, s) ↦
        let same : j ≡ i = ground arith in
        let here : find_index (same_message m) ms ≡ some i = ground arith in
        let passes = find_index-passes (same_message m) ms i old here g in ground arith
    | inl s ↦
        let here : find_last_index (is_unstamped_of m) ms ≡ some i = ground arith in
        let passes = find_last_index-passes (is_unstamped_of m) ms i old here g in ground arith
  ]

  -- Merging keeps every message of another role, and every message with a time other than that
  -- of the new one, at its place.
  pub merge_conversation_message_keeps :
      (ms : List (ConversationMessage R)) (j : ℕ) (old : ConversationMessage R)
      → get_elem? ms j ≡ some old
      → is_replaceable old ≡ false
      → get_elem? (merge_conversation_message ms m) j ≡ some old
  merge_conversation_message_keeps ms j old g k = elim (Option-cases (message_index ms m)) [
    | inl new ↦ ap (λ l. get_elem? l j) (merge_end ms new) ∙ get_elem?_before ms (m ∷ []) j old g
    | inr (i, here) ↦
        let apart : j ≢ i = λ e.
          let hit =
            message_index-is_replaceable ms i old here
              (subst (λ n. get_elem? ms n ≡ some old) e g) in
          cc in
        ap (λ l. get_elem? l j) (merge_at ms i here) ∙ (get_elem?-set_elem ms i j m apart ∙ g)
  ]
