-- ===== src/DraftStore/View.antt =====
-- The store as a function from sessions to drafts, and what holds of every store that the
-- operations make.
use open_pi.Prelude.{
  ◌≡◌, refl, ap, sym, ◌∙◌, Bool, true, false, Option, none, some, [], ◌∷◌, inl, inr, if◌then◌else◌,
  Bool-cases,
}
use open_pi.Text.{Text, is_empty, text_eq}
use open_pi.TextMap.{TextMap, lookup, put, delete, lookup-put, lookup-delete}
use open_pi.DraftStore.{SessionDraft, stored, given, is_blank, get_draft, set_draft, clear_draft}

module _ {ℓ} {A D : Type ℓ} where
  -- what `getDraft` makes of what it finds
  abbrev found : Option (SessionDraft A D) → Option (SessionDraft A D)
  found o = elim o [ none ↦ none | some d ↦ some (given d) ]

  found-if :
      (b : Bool) (x y : Option (SessionDraft A D))
      → found (if b then x else y) ≡ (if b then found x else found y)
  found-if true x y = refl
  found-if false x y = refl

  -- The store is a function from the sessions: setting the draft of a session changes what is
  -- given for this session alone, to the draft with its missing parts filled in, or to none if
  -- the draft is blank.
  pub get_draft-set_draft :
      (s : TextMap (SessionDraft A D)) (id other : Text) (d : SessionDraft A D)
      → is_empty id ≡ false
      → get_draft (set_draft s id d) other ≡ (
          if text_eq id other
          then if is_blank d then none else some (stored d)
          else get_draft s other)
  unfolding get_draft set_draft
  get_draft-set_draft s [] other d h = absurd (cc)
  get_draft-set_draft s (c ∷ id) [] d h = unfold text_eq in refl
  get_draft-set_draft s (c ∷ id) (k ∷ other) d h = elim (Bool-cases (is_blank d)) [
    | inl blank ↦
        ap
          (λ b.
            found (lookup (if b then delete s (c ∷ id) else put s (c ∷ id) (stored d)) (k ∷ other)))
          blank
        ∙ (ap found (lookup-delete s (c ∷ id) (k ∷ other))
            ∙ (found-if (text_eq (c ∷ id) (k ∷ other)) none (lookup s (k ∷ other))
                ∙ ap
                    (λ b.
                      if text_eq (c ∷ id) (k ∷ other)
                      then if b then none else some (stored d)
                      else get_draft s (k ∷ other))
                    (sym blank)))
    | inr filled ↦
        ap
          (λ b.
            found (lookup (if b then delete s (c ∷ id) else put s (c ∷ id) (stored d)) (k ∷ other)))
          filled
        ∙ (ap found (lookup-put s (c ∷ id) (k ∷ other) (stored d))
            ∙ (found-if (text_eq (c ∷ id) (k ∷ other)) (some (stored d)) (lookup s (k ∷ other))
                ∙ ap
                    (λ b.
                      if text_eq (c ∷ id) (k ∷ other)
                      then if b then none else some (stored d)
                      else get_draft s (k ∷ other))
                    (sym filled)))
  ]

  -- Clearing the draft of a session changes what is given for this session alone, to none.
  pub get_draft-clear_draft :
      (s : TextMap (SessionDraft A D)) (id other : Text)
      → is_empty id ≡ false
      → get_draft (clear_draft s id) other ≡ (if text_eq id other then none else get_draft s other)
  unfolding get_draft clear_draft
  get_draft-clear_draft s [] other h = absurd (cc)
  get_draft-clear_draft s (c ∷ id) [] h = unfold text_eq in refl
  get_draft-clear_draft s (c ∷ id) (k ∷ other) h =
      ap found (lookup-delete s (c ∷ id) (k ∷ other))
      ∙ found-if (text_eq (c ∷ id) (k ∷ other)) none (lookup s (k ∷ other))
