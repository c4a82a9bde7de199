-- ===== src/Attachments.antt =====
-- apps/desktop/web/App.tsx: how documents are written into the text of a message.
pub mod Hidden
mod Tests
use Prim.Native.String.{String}
use open_pi.Prelude.{
  ℕ, Bool, true, false, Option, none, some, List, [], ◌∷◌, ◌++◌, map, flat_map, if◌then◌else◌, ◌==◌,
}
use open_pi.Text.{Text, units, trim, join, is_empty}

-- the fields of an attachment that are written
pub record DocumentAttachment : Type 0 where
  pub name : Text
  pub text : Text
  pub path : Option Text

-- one unit of a name; no replacement brings in a unit that a later one changes
unfoldable pub escape_unit : ℕ → Text
escape_unit c =
    if c == b'&'
    then units "&amp;"
    else if c == b'"'
    then units "&quot;"
    else if c == b'<'
    then units "&lt;"
    else if c == b'>'
    then units "&gt;"
    else c ∷ []

unfoldable pub escape_attachment_name : Text → Text
escape_attachment_name name = flat_map escape_unit name

-- ` path="…"`, for a path that is given and not empty
unfoldable pub path_source : Option Text → Text
path_source none = []
path_source (some path) =
    if is_empty path then [] else units " path=\"" ++ (escape_attachment_name path ++ units "\"")

unfoldable pub file_block : DocumentAttachment → Text
file_block document =
    units "<file name=\""
    ++ (escape_attachment_name document.name
        ++ (units "\""
            ++ (path_source document.path
                ++ (units ">\n" ++ (document.text ++ units "\n</file>")))))

unfoldable pub documents_content : List DocumentAttachment → Text
documents_content documents = join (units "\n\n") (map file_block documents)

-- `message.trim() || "请分析已附加的文件。"`
unfoldable pub prompt_of : Text → Text
prompt_of message =
    let prompt = trim message in if is_empty prompt then units "请分析已附加的文件。" else prompt

abbrev pub opening : Text
opening = units "<openpi-attachments>"

abbrev pub closing : Text
closing = units "</openpi-attachments>"

unfoldable pub message_with_documents : Text → List DocumentAttachment → Text
message_with_documents message [] = message
message_with_documents message (document ∷ documents) =
    prompt_of message
    ++ (units "\n\n"
        ++ (opening
            ++ (units "\n"
                ++ (documents_content (document ∷ documents) ++ (units "\n" ++ closing)))))
