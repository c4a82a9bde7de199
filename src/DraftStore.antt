-- ===== src/DraftStore.antt =====
-- apps/desktop/web/lib/draft-store.ts: the drafts of the sessions. Attachments and documents are
-- values of any type, which are copied whole; `text ?? ""` is for a draft without a text.
pub mod View
pub mod Calls
mod Tests
use open_pi.Prelude.{
  Bool, true, false, not, ◌||◌, ◌&&◌, Option, none, some, List, [], ◌∷◌, if◌then◌else◌, or_else,
  is_some,
}
use open_pi.Text.{Text, is_empty, trim}
use open_pi.TextMap.{TextMap, lookup, put, delete}

module _ {ℓ} (A D : Type ℓ) where
  pub record SessionDraft : Type ℓ where
    pub text : Option Text
    pub attachments : Option (List A)
    pub documents : Option (List D)

-- `items ? items.map((item) => ({ ...item })) : []`
abbrev pub copied {ℓ} : {B : Type ℓ} → Option (List B) → List B
copied items = or_else items []

abbrev pub has_items {ℓ} : {B : Type ℓ} → List B → Bool
has_items [] = false
has_items (x ∷ xs) = true

module _ {ℓ} {A D : Type ℓ} where
  -- the draft as it is stored and given back
  abbrev pub stored : SessionDraft A D → SessionDraft A D
  stored d = record {
    text = some (or_else d.text []);
    attachments = some (copied d.attachments);
    documents = some (copied d.documents);
  }

  -- `!text.trim() && attachments.length === 0 && documents.length === 0`
  unfoldable pub is_blank : SessionDraft A D → Bool
  is_blank d =
      is_empty (trim (or_else d.text []))
      && not (has_items (copied d.attachments))
      && not (has_items (copied d.documents))

  -- the copy of a stored draft that `getDraft` gives
  abbrev pub given : SessionDraft A D → SessionDraft A D
  given d = record {
    text = d.text;
    attachments = some (copied d.attachments);
    documents = some (copied d.documents);
  }

  unfoldable pub get_draft : TextMap (SessionDraft A D) → Text → Option (SessionDraft A D)
  get_draft drafts [] = none
  get_draft drafts (c ∷ id) = elim (lookup drafts (c ∷ id)) [
    | none ↦ none
    | some d ↦ some (given d)
  ]

  unfoldable pub set_draft :
      TextMap (SessionDraft A D) → Text → SessionDraft A D → TextMap (SessionDraft A D)
  set_draft drafts [] d = drafts
  set_draft drafts (c ∷ id) d =
      if is_blank d then delete drafts (c ∷ id) else put drafts (c ∷ id) (stored d)

  unfoldable pub clear_draft : TextMap (SessionDraft A D) → Text → TextMap (SessionDraft A D)
  clear_draft drafts [] = drafts
  clear_draft drafts (c ∷ id) = delete drafts (c ∷ id)

  -- `draft.text.trim() || draft.attachments?.length || draft.documents?.length`
  unfoldable pub has_draft : TextMap (SessionDraft A D) → Text → Bool
  has_draft drafts [] = false
  has_draft drafts (c ∷ id) = elim (lookup drafts (c ∷ id)) [
    | none ↦ false
    | some d ↦
        not (is_empty (trim (or_else d.text [])))
        || has_items (or_else d.attachments [])
        || has_items (or_else d.documents [])
  ]

  -- the drafts of the identifiers for which there is one, with their keys
  unfoldable pub drafts_of :
      TextMap (SessionDraft A D) → TextMap (SessionDraft A D) → TextMap (SessionDraft A D)
  drafts_of drafts [] = []
  drafts_of drafts ((id, d) ∷ m) =
      let rest = drafts_of drafts m in
      elim (get_draft drafts id) [ none ↦ rest | some found ↦ (id, found) ∷ rest ]

  unfoldable pub get_all_drafts : TextMap (SessionDraft A D) → TextMap (SessionDraft A D)
  get_all_drafts drafts = drafts_of drafts drafts

  abbrev pub clear_all_drafts : TextMap (SessionDraft A D) → TextMap (SessionDraft A D)
  clear_all_drafts drafts = []
