-- ===== src/DraftStore/Tests.antt =====
-- Tests of the drafts, and the properties at concrete inputs.
use open_pi.Prelude.{ℕ, ◌≡◌, refl, none, some, List, [], ◌∷◌, if◌then◌else◌}
use open_pi.Text.{units, text_eq, trim, trim_start, is_space}
use open_pi.TextMap.{TextMap}
use open_pi.DraftStore.{
  SessionDraft, stored, is_blank, get_draft, set_draft, drafts_of, get_all_drafts,
}
use open_pi.DraftStore.View.{get_draft-set_draft}
use open_pi.DraftStore.Calls.{Call, setting, clearing}

abbrev hello : SessionDraft ℕ ℕ
hello = record { text = some (units "hello"); attachments = none; documents = none }

abbrev blank_draft : SessionDraft ℕ ℕ
blank_draft = record { text = some (units "  "); attachments = none; documents = none }

abbrev one_draft : TextMap (SessionDraft ℕ ℕ)
one_draft = (units "a", stored hello) ∷ []

blank_clears : set_draft one_draft (units "a") blank_draft ≡ []
unfolding set_draft is_blank trim trim_start is_space text_eq
blank_clears = refl

all_listed : get_all_drafts one_draft ≡ one_draft
unfolding get_all_drafts drafts_of get_draft text_eq
all_listed = refl

abbrev calls : List (Call ℕ ℕ)
calls = clearing (units "b") ∷ setting (units "a") hello ∷ []

get_draft-set_draft_example : get_draft (set_draft one_draft (units "b") hello) (units "a") ≡ (
    if text_eq (units "b") (units "a")
    then if is_blank hello then none else some (stored hello)
    else get_draft one_draft (units "a"))
get_draft-set_draft_example = get_draft-set_draft one_draft (units "b") (units "a") hello refl
