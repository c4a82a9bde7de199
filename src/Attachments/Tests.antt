-- ===== src/Attachments/Tests.antt =====
-- A question with one document.
use open_pi.Prelude.{◌≡◌, refl, none, [], ◌∷◌, false}
use open_pi.Text.{Text, units, includes, starts_with, trim, trim_start, is_space, join}
use open_pi.Content.{visible_message_text}
use open_pi.Attachments.{
  DocumentAttachment, prompt_of, documents_content, file_block, escape_attachment_name, escape_unit,
  path_source, message_with_documents, opening, closing,
}
use open_pi.Attachments.Hidden.{vision_opening, visible_message_text-message_with_documents}

abbrev notes : DocumentAttachment
notes = record { name = units "a&b"; text = units "x < y"; path = none }

abbrev question : Text
question = units " Why?\n"

no_block : includes (prompt_of question) opening ≡ false
unfolding prompt_of includes trim trim_start is_space starts_with
no_block = refl

no_vision : includes (prompt_of question) vision_opening ≡ false
unfolding prompt_of includes trim trim_start is_space starts_with
no_vision = refl

stays_closed : includes (documents_content (notes ∷ [])) closing ≡ false
unfolding documents_content file_block escape_attachment_name escape_unit path_source join includes
    starts_with
stays_closed = refl

visible_message_text-message_with_documents_example :
    visible_message_text (message_with_documents question (notes ∷ [])) ≡ prompt_of question
visible_message_text-message_with_documents_example =
    visible_message_text-message_with_documents question notes [] no_block no_vision stays_closed
