-- ===== src/Keybindings/Tests.antt =====
-- The listener on key presses: Escape, and a chord, while a turn runs.
use open_pi.Prelude.{◌≡◌, refl, Bool, true, false, none, some}
use open_pi.Text.{Text, units, text_eq, to_lower, lower_unit}
use open_pi.Keybindings.{
  KeyboardEvent, KeybindingHandlers, call, call_abort, escape, toggle_git, handle_keybinding,
  handle_action, handle_abort, match_keybinding, modified_keybinding, escape_keybinding, in_field,
  handled_by, unhandled,
}
use open_pi.Keybindings.Handled.{MayAbort, handle_keybinding-MayAbort}

abbrev press : Text → Bool → KeyboardEvent
press key chord = record {
  key = key;
  ctrl_key = chord;
  meta_key = false;
  shift_key = chord;
  alt_key = false;
  is_composing = false;
  native_is_composing = false;
  default_prevented = false;
  target = none;
}

abbrev escape_press : KeyboardEvent
escape_press = press (units "Escape") false

abbrev all_handlers : KeybindingHandlers
all_handlers = record {
  on_new_conversation = true;
  on_toggle_sidebar = true;
  on_abort = true;
  on_open_settings = true;
  on_export_markdown = true;
  on_toggle_git = true;
  on_open_shortcuts = true;
  on_toggle_theme = true;
  is_working = true;
}

escape_called :
    (handle_keybinding escape_press all_handlers false).called ≡ some (call_abort escape)
unfolding handle_keybinding match_keybinding escape_keybinding handle_action handle_abort in_field
    text_eq
escape_called = refl

overlay_kept : handle_keybinding escape_press all_handlers true ≡ unhandled
unfolding handle_keybinding match_keybinding escape_keybinding handle_action handle_abort in_field
    text_eq
overlay_kept = refl

chord_called :
    handle_keybinding (press (units "G") true) all_handlers false ≡ handled_by (call toggle_git)
unfolding handle_keybinding match_keybinding modified_keybinding escape_keybinding handle_action
    to_lower lower_unit text_eq
chord_called = refl

handle_keybinding-MayAbort_example : MayAbort escape_press all_handlers false escape
handle_keybinding-MayAbort_example =
    handle_keybinding-MayAbort escape_press all_handlers false escape escape_called
