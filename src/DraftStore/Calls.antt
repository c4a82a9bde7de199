-- ===== src/DraftStore/Calls.antt =====
-- Stores that calls of the operations make.
use open_pi.Prelude.{
  ◌≡◌, refl, ap, false, not, ◌||◌, Option, none, some, List, [], ◌∷◌, or_else, is_some, All,
  if-then_else_lem, arith,
}
use open_pi.Text.{Text, is_empty, trim, text_eq}
use open_pi.Text.Laws.{eq_of_text_eq}
use open_pi.TextMap.{TextMap, lookup, put, delete, put-All, delete-All}
use open_pi.DraftStore.{
  SessionDraft, stored, given, has_items, is_blank, get_draft, set_draft, clear_draft, has_draft,
  clear_all_drafts,
}

module _ {ℓ} (A D : Type ℓ) where
  -- a call that changes the store
  pub data Call : Type ℓ where
    setting : Text → SessionDraft A D → Call
    clearing : Text → Call
    clearing_all : Call

module _ {ℓ} {A D : Type ℓ} where
  unfoldable pub call : Call A D → TextMap (SessionDraft A D) → TextMap (SessionDraft A D)
  call (setting id d) s = set_draft s id d
  call (clearing id) s = clear_draft s id
  call clearing_all s = clear_all_drafts s

  -- the store after the calls, from an empty one
  unfoldable pub after : List (Call A D) → TextMap (SessionDraft A D)
  after [] = []
  after (c ∷ cs) = call c (after cs)

  -- an entry as `setDraft` makes it: for a session, not blank, and complete
  IsEntry : Text × SessionDraft A D → Type ℓ
  IsEntry (id, d) = (is_empty id ≡ false) × (is_blank d ≡ false) × (given d ≡ d)

  stored-IsEntry :
      (id : Text) (d : SessionDraft A D)
      → is_empty id ≡ false
      → is_blank d ≡ false
      → IsEntry (id, stored d)
  unfolding IsEntry is_blank
  stored-IsEntry id d i b = (i, b, refl)

  after-IsEntry : (cs : List (Call A D)) → All IsEntry (after cs)
  unfolding after call set_draft clear_draft is_blank
  after-IsEntry [] = tt
  after-IsEntry (setting [] d ∷ cs) = after-IsEntry cs
  after-IsEntry (setting (c ∷ id) d ∷ cs) =
      if-then_else_lem (All IsEntry) (is_blank d) (delete (after cs) (c ∷ id))
        (put (after cs) (c ∷ id) (stored d))
        (λ _. delete-All IsEntry (after cs) (c ∷ id) (after-IsEntry cs))
        (λ filled.
          put-All IsEntry (after cs) (c ∷ id) (stored d) (after-IsEntry cs) (λ k same.
            unfold IsEntry in (ap is_empty (eq_of_text_eq k (c ∷ id) same), filled, refl)))
  after-IsEntry (clearing [] ∷ cs) = after-IsEntry cs
  after-IsEntry (clearing (c ∷ id) ∷ cs) = delete-All IsEntry (after cs) (c ∷ id) (after-IsEntry cs)
  after-IsEntry (clearing_all ∷ cs) = tt

  -- nothing, or a draft that is not blank
  IsFilled : Option (SessionDraft A D) → Type 0
  IsFilled none = Unit
  IsFilled (some d) = is_blank d ≡ false

  lookup-IsFilled :
      (s : TextMap (SessionDraft A D)) (id : Text) → All IsEntry s → IsFilled (lookup s id)
  unfolding IsFilled IsEntry
  lookup-IsFilled [] id h = tt
  lookup-IsFilled ((k, v) ∷ s) id (h, hs) =
      if-then_else_lem IsFilled (text_eq k id) (some v) (lookup s id) (λ _. h.1)
        (λ _. lookup-IsFilled s id hs)

  has_draft-get_draft :
      (s : TextMap (SessionDraft A D)) (id : Text)
      → All IsEntry s
      → has_draft s id ≡ is_some (get_draft s id)
  unfolding has_draft get_draft IsFilled is_blank
  has_draft-get_draft s [] h = refl
  has_draft-get_draft s (c ∷ id) h = go (lookup s (c ∷ id)) (lookup-IsFilled s (c ∷ id) h)
    where
      go :
          (o : Option (SessionDraft A D))
          → IsFilled o
          → (elim o [
            | none ↦ false
            | some d ↦
                not (is_empty (trim (or_else d.text [])))
                || has_items (or_else d.attachments [])
                || has_items (or_else d.documents [])
          ])
            ≡ is_some (elim o [ none ↦ none | some d ↦ some (given d) ])
      go none f = refl
      go (some d) f = ground arith

  -- In every store that calls make from an empty one, there is a draft for a session exactly if
  -- one is given.
  pub has_draft-after :
      (cs : List (Call A D)) (id : Text)
      → has_draft (after cs) id ≡ is_some (get_draft (after cs) id)
  has_draft-after cs id = has_draft-get_draft (after cs) id (after-IsEntry cs)
