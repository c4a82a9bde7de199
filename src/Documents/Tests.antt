-- ===== src/Documents/Tests.antt =====
-- A short text file.
use open_pi.Prelude.{◌≡◌, ◌⊎◌, refl, none, some}
use open_pi.Text.{units, starts_with}
use open_pi.Documents.{
  BrowserFile, ready, is_text_document_file, prepare_text, prepare_document_attachment,
}
use open_pi.Documents.Attached.{
  IsTextDocument, IsExtractedDocument, prepare_document_attachment-ready,
}

abbrev notes : BrowserFile
notes = record { name = units "notes.md"; type = units "text/markdown"; size = 5 }

notes-ready :
    prepare_document_attachment notes (some (units "hello")) none
    ≡ ready (units "notes.md") (units "hello")
unfolding prepare_document_attachment is_text_document_file prepare_text starts_with
notes-ready = refl

prepare_document_attachment-ready_example :
    (units "notes.md" ≡ notes.name)
    × (IsTextDocument notes (some (units "hello")) (units "hello")
        ⊎ IsExtractedDocument notes none (units "hello"))
prepare_document_attachment-ready_example =
    prepare_document_attachment-ready notes (some (units "hello")) none (units "notes.md")
      (units "hello") notes-ready
