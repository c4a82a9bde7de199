-- ===== src/Documents/Attached.antt =====
-- What `prepareDocumentAttachment` accepts.
use open_pi.Prelude.{
  ◌≤◌, ◌≡◌, ◌⊎◌, inl, inr, true, false, Option, none, some, ltb, arith, ltb→ge, Bool-cases,
}
use open_pi.Text.{Text, is_empty, trim}
use open_pi.Documents.{
  BrowserFile, ready, is_text_document_file, is_document_file, max_document_text_bytes,
  max_document_file_bytes, has_nul, prepare_text, prepare_extracted, prepare_document_attachment,
}

-- a text file within its limit, with a text that is no binary data
abbrev pub IsTextDocument : BrowserFile → Option Text → Text → Type 0
IsTextDocument file content text =
    (is_text_document_file file ≡ true)
    × (file.size ≤ max_document_text_bytes)
    × (content ≡ some text)
    × (has_nul text ≡ false)

-- another document within its limit, from which more than white space was extracted
abbrev pub IsExtractedDocument : BrowserFile → Option Text → Text → Type 0
IsExtractedDocument file extracted text =
    (is_text_document_file file ≡ false)
    × (is_document_file file ≡ true)
    × (file.size ≤ max_document_file_bytes)
    × (extracted ≡ some text)
    × (is_empty (trim text) ≡ false)

prepare_text-ready :
    (file : BrowserFile) (content : Option Text) (name text : Text)
    → prepare_text file content ≡ ready name text
    → (name ≡ file.name) × (content ≡ some text) × (has_nul text ≡ false)
unfolding prepare_text
prepare_text-ready file none name text h = ground arith
prepare_text-ready file (some c) name text h = ground arith

prepare_extracted-ready :
    (file : BrowserFile) (extracted : Option Text) (name text : Text)
    → prepare_extracted file extracted ≡ ready name text
    → (name ≡ file.name) × (extracted ≡ some text) × (is_empty (trim text) ≡ false)
unfolding prepare_extracted
prepare_extracted-ready file none name text h = ground arith
prepare_extracted-ready file (some c) name text h = ground arith

-- A file that is accepted keeps its name, and is either a text file of at most a megabyte whose text
-- holds no NUL, or another document of at most ten from which more than white space was extracted.
pub prepare_document_attachment-ready :
    (file : BrowserFile) (content extracted : Option Text) (name text : Text)
    → prepare_document_attachment file content extracted ≡ ready name text
    → (name ≡ file.name)
      × (IsTextDocument file content text ⊎ IsExtractedDocument file extracted text)
unfolding prepare_document_attachment
prepare_document_attachment-ready file content extracted name text h =
    elim (Bool-cases (is_text_document_file file)) [
      | inl is_text ↦ elim (Bool-cases (ltb max_document_text_bytes file.size)) [
        | inl large ↦ ground arith
        | inr small ↦
            let (n, c, u) : (name ≡ file.name) × (content ≡ some text) × (has_nul text ≡ false) =
              prepare_text-ready file content name text (ground arith) in
            (n, inl (is_text, ltb→ge _ _ small, c, u))
      ]
      | inr not_text ↦ elim (Bool-cases (is_document_file file)) [
        | inr not_taken ↦ ground arith
        | inl is_document ↦ elim (Bool-cases (ltb max_document_file_bytes file.size)) [
          | inl large ↦ ground arith
          | inr small ↦
              let (n, c, u) : (name ≡ file.name)
                  × (extracted ≡ some text)
                  × (is_empty (trim text) ≡ false) =
                prepare_extracted-ready file extracted name text (ground arith) in
              (n, inr (not_text, is_document, ltb→ge _ _ small, c, u))
        ]
      ]
    ]
