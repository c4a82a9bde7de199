-- ===== src/Attachments/Hidden.antt =====
-- `messageWithDocuments` against `visibleMessageText`.
use open_pi.Prelude.{
  if◌then◌else◌, ◌≡◌, refl, ap, ◌∙◌, Bool, true, false, List, [], ◌∷◌, ◌++◌, append-nil,
}
use open_pi.Text.{Text, units, trim, trim_start, is_space, includes, is_empty}
use open_pi.Text.Tags.{remove_all}
use open_pi.Text.Trim.{EndsFirm, trim-EndsFirm, trim-trim}
use open_pi.Text.Marks.{
  remove_all-append, remove_all_lem, any-Lacks, remove_with-some, after_block-some,
  starts_with_other,
}
use open_pi.Content.{after_attachments, visible_message_text}
use open_pi.Attachments.{
  DocumentAttachment, prompt_of, documents_content, message_with_documents, opening, closing,
}

abbrev pub vision_opening : Text
vision_opening = units "<openpi-vision-context"

prompt-EndsFirm : (message : Text) → EndsFirm (prompt_of message)
unfolding prompt_of
prompt-EndsFirm message = go (is_empty (trim message))
  where
    go : (b : Bool) → EndsFirm (if b then units "请分析已附加的文件。" else trim message)
    go true = refl
    go false = trim-EndsFirm message

trim-prompt : (message : Text) → trim (prompt_of message) ≡ prompt_of message
unfolding prompt_of trim trim_start is_space
trim-prompt message = go (is_empty (trim message))
  where
    go :
        (b : Bool)
        → trim (if b then units "请分析已附加的文件。" else trim message)
          ≡ (if b then units "请分析已附加的文件。" else trim message)
    go true = refl
    go false = trim-trim message

newline_includes : (s : Text) → includes s closing ≡ false → includes (b'\n' ∷ s) closing ≡ false
unfolding includes
newline_includes s h = rw (starts_with_other b'\n' b'<' s (units "/openpi-attachments>") refl) h

-- the block that is written behind the prompt
hide_block :
    (content : Text)
    → includes content closing ≡ false
    → remove_all after_attachments (b'\n' ∷ b'\n' ∷ opening ++ (b'\n' ∷ content ++ b'\n' ∷ closing))
      ≡ []
hide_block content out = remove_with-some after_attachments b'\n' _ _ (
    after_block-some b'<' (units "openpi-attachments>") b'<' (units "/openpi-attachments>")
      (b'\n' ∷ content) refl (any-Lacks b'\n' closing refl) (newline_includes content out))

-- The text that is shown of a message with documents is its prompt, if neither mark of a hidden block
-- begins in the prompt and no document holds the mark that ends the block.
pub visible_message_text-message_with_documents :
    (message : Text) (document : DocumentAttachment) (documents : List DocumentAttachment)
    → includes (prompt_of message) opening ≡ false
    → includes (prompt_of message) vision_opening ≡ false
    → includes (documents_content (document ∷ documents)) closing ≡ false
    → visible_message_text (message_with_documents message (document ∷ documents))
      ≡ prompt_of message
unfolding visible_message_text message_with_documents
visible_message_text-message_with_documents message document documents attached vision closed =
    let p : Text = prompt_of message in
    let firm : EndsFirm p = prompt-EndsFirm message in
    let block : Text = documents_content (document ∷ documents) in
    let first : remove_all after_attachments (message_with_documents message (document ∷ documents))
        ≡ p =
      remove_all-append opening closing (any-Lacks b'\n' opening refl) p _ refl firm attached
      ∙ ap (λ t. p ++ t) (hide_block block closed)
      ∙ append-nil p in
    rw
      (
        first,
        remove_all_lem vision_opening (units "</openpi-vision-context>")
            (any-Lacks b'\n' vision_opening refl) p firm vision,
      )
      (trim-prompt message)
