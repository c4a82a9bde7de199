-- ===== src/Keybindings.antt =====
-- apps/desktop/web/lib/keybindings.ts: which action a key press asks for, and what the listener
-- does with it. The handlers of the caller are modelled by which of them are given, and their calls
-- by what the listener returns.
pub mod Handled
mod Tests
use Prim.Native.String.{String}
use open_pi.Prelude.{Bool, true, false, not, ◌&&◌, ◌||◌, Option, none, some, if◌then◌else◌}
use open_pi.Text.{Text, units, text_eq, to_lower}

pub data KeybindingAction : Type 0 where
  new_conversation toggle_sidebar abort open_settings : KeybindingAction
  export_markdown toggle_git open_shortcuts toggle_theme : KeybindingAction

-- the element that has the focus; `in_control` is what `closest` finds
pub record EventTarget : Type 0 where
  pub tag_name : Text
  pub is_content_editable : Bool
  pub in_control : Bool

pub record KeyboardEvent : Type 0 where
  pub key : Text
  pub ctrl_key : Bool
  pub meta_key : Bool
  pub shift_key : Bool
  pub alt_key : Bool
  pub is_composing : Bool
  pub native_is_composing : Bool
  pub default_prevented : Bool
  pub target : Option EventTarget

-- which handlers the caller gives
pub record KeybindingHandlers : Type 0 where
  pub on_new_conversation : Bool
  pub on_toggle_sidebar : Bool
  pub on_abort : Bool
  pub on_open_settings : Bool
  pub on_export_markdown : Bool
  pub on_toggle_git : Bool
  pub on_open_shortcuts : Bool
  pub on_toggle_theme : Bool
  pub is_working : Bool

pub data AbortSource : Type 0 where
  escape cmd_dot : AbortSource

-- a call of a handler, with its argument
pub data HandlerCall : Type 0 where
  call : KeybindingAction → HandlerCall
  call_abort : AbortSource → HandlerCall

-- what the listener returns, whether it prevents the default, and the handler it calls
pub record Handling : Type 0 where
  pub handled : Bool
  pub prevented : Bool
  pub called : Option HandlerCall

abbrev pub unhandled : Handling
unhandled = record { handled = false; prevented = false; called = none }

abbrev pub handled_by : HandlerCall → Handling
handled_by c = record { handled = true; prevented = true; called = some c }

abbrev pub is_key : Text → String → Bool
is_key key name = text_eq key (units name)

-- the combinations without shift
unfoldable pub plain_keybinding : Text → Bool → Option KeybindingAction
plain_keybinding key is_working =
    if is_key key "n"
    then some new_conversation
    else if is_key key "b"
    then some toggle_sidebar
    else if is_key key ","
    then some open_settings
    else if is_key key "." && is_working
    then some abort
    else none

-- the combinations with a modifier; `none` where the function goes on, which a busy Cmd+. cannot
unfoldable pub modified_keybinding : Text → Bool → Bool → Option KeybindingAction
modified_keybinding key shift is_working =
    if shift && is_key key "e"
    then some export_markdown
    else if shift && is_key key "g"
    then some toggle_git
    else if shift && is_key key "t"
    then some toggle_theme
    else if is_key key "/" || is_key key "?"
    then some open_shortcuts
    else if not shift
    then plain_keybinding key is_working
    else none

unfoldable pub escape_keybinding : KeyboardEvent → Bool → Option KeybindingAction
escape_keybinding event is_working =
    if is_key event.key "Escape" && is_working then some abort else none

-- a key that is "." in lower case is not Escape, so that its early return of null gives the same
unfoldable pub match_keybinding : KeyboardEvent → Bool → Option KeybindingAction
match_keybinding event is_working =
    if (event.meta_key || event.ctrl_key) && not event.alt_key
    then elim (modified_keybinding (to_lower event.key) event.shift_key is_working) [
      | none ↦ escape_keybinding event is_working
      | some action ↦ some action
    ]
    else escape_keybinding event is_working

-- the focus is in a field or on a button
unfoldable pub in_field : Option EventTarget → Bool
in_field none = false
in_field (some target) =
    text_eq target.tag_name (units "INPUT")
    || text_eq target.tag_name (units "TEXTAREA")
    || target.is_content_editable
    || target.in_control

-- the case "abort", once a handler for it is given
unfoldable pub handle_abort : KeyboardEvent → Bool → Handling
handle_abort event has_overlay =
    if event.is_composing || event.native_is_composing
    then unhandled
    else if is_key event.key "Escape"
    then if event.default_prevented || in_field event.target || has_overlay
      then unhandled
      else handled_by (call_abort escape)
    else handled_by (call_abort cmd_dot)

-- a case of the switch
abbrev pub when_given : Bool → Handling → Handling
when_given given handling = if given then handling else unhandled

unfoldable pub handle_action :
    KeyboardEvent → KeybindingHandlers → Bool → KeybindingAction → Handling
handle_action event handlers overlay new_conversation =
    when_given handlers.on_new_conversation (handled_by (call new_conversation))
handle_action event handlers overlay toggle_sidebar =
    when_given handlers.on_toggle_sidebar (handled_by (call toggle_sidebar))
handle_action event handlers overlay abort =
    when_given handlers.on_abort (handle_abort event overlay)
handle_action event handlers overlay open_settings =
    when_given handlers.on_open_settings (handled_by (call open_settings))
handle_action event handlers overlay export_markdown =
    when_given handlers.on_export_markdown (handled_by (call export_markdown))
handle_action event handlers overlay toggle_git =
    when_given handlers.on_toggle_git (handled_by (call toggle_git))
handle_action event handlers overlay open_shortcuts =
    when_given handlers.on_open_shortcuts (handled_by (call open_shortcuts))
handle_action event handlers overlay toggle_theme =
    when_given handlers.on_toggle_theme (handled_by (call toggle_theme))

-- `overlay` is whether the document shows a dialog, a menu or the like
unfoldable pub handle_keybinding : KeyboardEvent → KeybindingHandlers → Bool → Handling
handle_keybinding event handlers overlay = elim (match_keybinding event handlers.is_working) [
  | none ↦ unhandled
  | some action ↦ handle_action event handlers overlay action
]
