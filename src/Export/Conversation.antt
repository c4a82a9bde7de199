-- ===== src/Export/Conversation.antt =====
-- `formatConversationToMarkdown`: a conversation as a document. The date is a parameter.
use open_pi.Prelude.{Bool, Option, none, some, List, [], ◌∷◌, ◌++◌, flat_map, if◌then◌else◌, length}
use open_pi.Text.{Text, units, is_empty}
use open_pi.Text.Decimal.{show}
use open_pi.Content.{Message}
use open_pi.Titles.{instance_title, first_given}
use open_pi.Export.{MessageOptions, format_message_to_markdown, lines_of, unless_empty}

-- the model of a conversation; a field that is missing is empty
pub record ConversationModel : Type 0 where
  pub provider : Text
  pub id : Text

pub record Conversation : Type 0 where
  pub id : Text
  pub mode : Text
  pub cwd : Option Text
  pub label : Option Text
  pub session_name : Option Text
  pub model : Option ConversationModel
  pub messages : List Message

-- `provider ? (id ? `${provider}/${id}` : provider) : (id ?? "")`
unfoldable pub model_label : ConversationModel → Text
model_label model =
    if is_empty model.provider
    then model.id
    else if is_empty model.id
    then model.provider
    else model.provider ++ (units "/" ++ model.id)

-- a line with a name, unless its value is empty
abbrev pub meta_line : Text → Text → Text → Text → List Text
meta_line name value before behind =
    unless_empty value ((name ++ (before ++ (value ++ behind))) ∷ [])

unfoldable pub model_line : Option ConversationModel → List Text
model_line none = []
model_line (some model) = meta_line (units "> **Model**: ") (model_label model) [] []

unfoldable pub meta_lines : Text → Conversation → List Text
meta_lines date c =
    meta_line (units "> **Session**: ") (first_given c.session_name c.label) [] []
    ++ (meta_line (units "> **Session ID**: ") c.id (units "`") (units "`")
        ++ (meta_line (units "> **Mode**: ") c.mode [] []
            ++ (meta_line (units "> **Workspace**: ") (first_given c.cwd none) (units "`")
                  (units "`")
                ++ (model_line c.model
                    ++ ((units "> **Exported**: " ++ date) ∷ [] ∷ units "---" ∷ [] ∷ [])))))

-- what a message adds: nothing if it is formatted as nothing
unfoldable pub message_lines : MessageOptions → Message → List Text
message_lines options m =
    let formatted = format_message_to_markdown m options in
    unless_empty formatted (formatted ∷ [] ∷ [])

-- `customTitle || instanceTitle(…)`
unfoldable pub document_title : Option Text → Conversation → Text
document_title custom c =
    let given = first_given custom none in
    if is_empty given then instance_title c.label c.cwd c.session_name else given

unfoldable pub format_conversation_to_markdown :
    Text → Option Text → Bool → MessageOptions → Conversation → Text
format_conversation_to_markdown date custom include_metadata options c = lines_of (
    (units "# " ++ document_title custom c)
    ∷ []
    ∷ ((if include_metadata then meta_lines date c else [])
        ++ (flat_map (message_lines options) c.messages
            ++ (units "---"
                ∷ (units "*Exported from OpenPI Desktop • "
                    ++ (show (length c.messages) ++ units " messages*"))
                ∷ []
                ∷ []))))
