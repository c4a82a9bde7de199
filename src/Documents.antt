-- ===== src/Documents.antt =====
-- apps/desktop/web/lib/helpers.ts: which files can be attached as documents, and how one is
-- prepared. The text of a file and the extraction of the desktop shell are parameters, as what they
-- give: `none` where the promise is rejected.
pub mod Attached
mod Tests
use Prim.Native.String.{String}
use open_pi.Prelude.{
  ℕ, ◌*◌, Bool, true, false, not, ◌&&◌, ◌||◌, Option, none, some, List, [], ◌∷◌, ◌++◌, any,
  if◌then◌else◌, ltb, ◌==◌,
}
use open_pi.Text.{Text, units, text_eq, is_empty, trim, split, starts_with, to_lower}

abbrev pub text_document_extensions : List Text
text_document_extensions =
    units "c"
    ∷ units "cc"
    ∷ units "cpp"
    ∷ units "cs"
    ∷ units "css"
    ∷ units "csv"
    ∷ units "go"
    ∷ units "graphql"
    ∷ units "h"
    ∷ units "html"
    ∷ units "java"
    ∷ units "js"
    ∷ units "jsx"
    ∷ units "json"
    ∷ units "md"
    ∷ units "mjs"
    ∷ units "py"
    ∷ units "rb"
    ∷ units "rs"
    ∷ units "sh"
    ∷ units "sql"
    ∷ units "svg"
    ∷ units "toml"
    ∷ units "ts"
    ∷ units "tsx"
    ∷ units "txt"
    ∷ units "xml"
    ∷ units "yaml"
    ∷ units "yml"
    ∷ []

abbrev pub binary_document_extensions : List Text
binary_document_extensions = units "pdf" ∷ units "docx" ∷ []

abbrev pub text_document_types : List Text
text_document_types =
    units "application/json"
    ∷ units "application/javascript"
    ∷ units "application/sql"
    ∷ units "application/xml"
    ∷ units "application/x-yaml"
    ∷ units "application/yaml"
    ∷ []

abbrev pub binary_document_types : List Text
binary_document_types =
    units "application/pdf"
    ∷ units "application/vnd.openxmlformats-officedocument.wordprocessingml.document"
    ∷ []

abbrev pub is_one_of : List Text → Text → Bool
is_one_of texts t = any (λ u. text_eq u t) texts

abbrev pub max_document_file_bytes : ℕ
max_document_file_bytes = 10 * 1024 * 1024

abbrev pub max_document_text_bytes : ℕ
max_document_text_bytes = 1 * 1024 * 1024

-- a file as the browser describes it
pub record BrowserFile : Type 0 where
  pub name : Text
  pub type : Text
  pub size : ℕ

abbrev pub last_part : List Text → Text
last_part [] = []
last_part (p ∷ []) = p
last_part (p ∷ q ∷ ps) = last_part (q ∷ ps)

-- `file.name.split(".").at(-1)?.toLowerCase()`
abbrev pub extension_of : BrowserFile → Text
extension_of file = to_lower (last_part (split b'.' file.name))

unfoldable pub is_text_document_file : BrowserFile → Bool
is_text_document_file file =
    starts_with file.type (units "text/")
    || is_one_of text_document_types file.type
    || is_one_of text_document_extensions (extension_of file)

unfoldable pub is_document_file : BrowserFile → Bool
is_document_file file =
    is_text_document_file file
    || is_one_of binary_document_types file.type
    || is_one_of binary_document_extensions (extension_of file)

-- why a file is refused
pub data Refusal : Type 0 where
  text_too_large binary_text unsupported file_too_large no_text rejected : Refusal

pub data Prepared : Type 0 where
  ready : Text → Text → Prepared
  refused : Refusal → Prepared

-- `text.includes("\0")`
abbrev pub has_nul : Text → Bool
has_nul text = any (λ c. c == 0) text

unfoldable pub prepare_text : BrowserFile → Option Text → Prepared
prepare_text file none = refused rejected
prepare_text file (some text) = if has_nul text then refused binary_text else ready file.name text

unfoldable pub prepare_extracted : BrowserFile → Option Text → Prepared
prepare_extracted file none = refused rejected
prepare_extracted file (some text) =
    if is_empty (trim text) then refused no_text else ready file.name text

-- `text` is what `file.text()` gives, and `extracted` what `extractDocumentText` does
unfoldable pub prepare_document_attachment : BrowserFile → Option Text → Option Text → Prepared
prepare_document_attachment file text extracted =
    if is_text_document_file file
    then if ltb max_document_text_bytes file.size
      then refused text_too_large
      else prepare_text file text
    else if not (is_document_file file)
    then refused unsupported
    else if ltb max_document_file_bytes file.size
    then refused file_too_large
    else prepare_extracted file extracted
