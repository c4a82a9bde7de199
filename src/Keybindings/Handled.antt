-- ===== src/Keybindings/Handled.antt =====
-- What the listener does, and when it stops a turn.
use open_pi.Prelude.{
  ◌≡◌, ◌⊎◌, inl, inr, refl, Bool, true, false, ◌||◌, none, some, Option-cases, if◌then◌else◌, arith,
}
use open_pi.Text.{Text, to_lower}
use open_pi.Keybindings.{
  KeybindingAction, KeyboardEvent, KeybindingHandlers, AbortSource, escape, cmd_dot, Handling,
  HandlerCall, call_abort, unhandled, handled_by, handle_keybinding, handle_action, handle_abort,
  match_keybinding, in_field, is_key, when_given, new_conversation, toggle_sidebar, abort,
  open_settings, export_markdown, toggle_git, open_shortcuts, toggle_theme, modified_keybinding,
  plain_keybinding, escape_keybinding,
}

-- nothing was done, or all of it
abbrev pub IsConsistent : Handling → Type 0
IsConsistent h = (h ≡ unhandled) ⊎ ((c : HandlerCall) × (h ≡ handled_by c))

either-IsConsistent :
    (b : Bool) (h k : Handling)
    → IsConsistent h
    → IsConsistent k
    → IsConsistent (if b then h else k)
either-IsConsistent true h k ch ck = ch
either-IsConsistent false h k ch ck = ck

when_given-IsConsistent :
    (given : Bool) (h : Handling) → IsConsistent h → IsConsistent (when_given given h)
when_given-IsConsistent given h c = either-IsConsistent given h unhandled c (inl refl)

handle_abort-IsConsistent :
    (event : KeyboardEvent) (overlay : Bool) → IsConsistent (handle_abort event overlay)
unfolding handle_abort
handle_abort-IsConsistent event overlay =
    either-IsConsistent (event.is_composing || event.native_is_composing) unhandled _ (inl refl) (
      either-IsConsistent (is_key event.key "Escape") _ _
        (either-IsConsistent (event.default_prevented || in_field event.target || overlay) unhandled
          _ (inl refl) (inr (call_abort escape, refl)))
        (inr (call_abort cmd_dot, refl)))

handle_action-IsConsistent :
    (event : KeyboardEvent) (handlers : KeybindingHandlers) (overlay : Bool) (a : KeybindingAction)
    → IsConsistent (handle_action event handlers overlay a)
unfolding handle_action
handle_action-IsConsistent event hs o new_conversation =
    when_given-IsConsistent hs.on_new_conversation _ (inr (_, refl))
handle_action-IsConsistent event hs o toggle_sidebar =
    when_given-IsConsistent hs.on_toggle_sidebar _ (inr (_, refl))
handle_action-IsConsistent event hs o abort =
    when_given-IsConsistent hs.on_abort _ (handle_abort-IsConsistent event o)
handle_action-IsConsistent event hs o open_settings =
    when_given-IsConsistent hs.on_open_settings _ (inr (_, refl))
handle_action-IsConsistent event hs o export_markdown =
    when_given-IsConsistent hs.on_export_markdown _ (inr (_, refl))
handle_action-IsConsistent event hs o toggle_git =
    when_given-IsConsistent hs.on_toggle_git _ (inr (_, refl))
handle_action-IsConsistent event hs o open_shortcuts =
    when_given-IsConsistent hs.on_open_shortcuts _ (inr (_, refl))
handle_action-IsConsistent event hs o toggle_theme =
    when_given-IsConsistent hs.on_toggle_theme _ (inr (_, refl))

-- A key press either does nothing, or calls one handler, prevents the default and returns true.
pub handle_keybinding-IsConsistent :
    (event : KeyboardEvent) (handlers : KeybindingHandlers) (overlay : Bool)
    → IsConsistent (handle_keybinding event handlers overlay)
unfolding handle_keybinding
handle_keybinding-IsConsistent event handlers overlay =
    let e = match_keybinding event handlers.is_working in
    elim e
      as (λ m.
        IsConsistent
          (elim m [ none ↦ unhandled | some a ↦ handle_action event handlers overlay a ])) [
            | none ↦ inl refl
            | some a ↦ handle_action-IsConsistent event handlers overlay a
          ]

-- the conditions under which Escape may stop the turn
abbrev pub EscapeIsFree : KeyboardEvent → Bool → Type 0
EscapeIsFree event overlay =
    (is_key event.key "Escape" ≡ true)
    × (event.default_prevented ≡ false)
    × (in_field event.target ≡ false)
    × (overlay ≡ false)

-- the key that stops the turn: Escape, where it is free, or another one
abbrev pub SourceFits : KeyboardEvent → Bool → AbortSource → Type 0
SourceFits event overlay escape = EscapeIsFree event overlay
SourceFits event overlay cmd_dot = is_key event.key "Escape" ≡ false

abbrev pub MayAbort : KeyboardEvent → KeybindingHandlers → Bool → AbortSource → Type 0
MayAbort event handlers overlay source =
    (handlers.is_working ≡ true)
    × (handlers.on_abort ≡ true)
    × (event.is_composing ≡ false)
    × (event.native_is_composing ≡ false)
    × SourceFits event overlay source

-- the action "abort" is only for a turn that runs
plain_keybinding-abort :
    (key : Text) (working : Bool) → plain_keybinding key working ≡ some abort → working ≡ true
unfolding plain_keybinding
plain_keybinding-abort key working h = ground arith

modified_keybinding-abort :
    (key : Text) (shift working : Bool)
    → modified_keybinding key shift working ≡ some abort
    → working ≡ true
unfolding modified_keybinding
modified_keybinding-abort key shift working h =
    let plain : plain_keybinding key working ≡ some abort → working ≡ true =
      plain_keybinding-abort key working in
    ground arith

match_keybinding-abort :
    (event : KeyboardEvent) (working : Bool)
    → match_keybinding event working ≡ some abort
    → working ≡ true
unfolding match_keybinding escape_keybinding
match_keybinding-abort event working h =
    let m : modified_keybinding (to_lower event.key) event.shift_key working ≡ some abort
        → working ≡ true =
      modified_keybinding-abort (to_lower event.key) event.shift_key working in
    ground arith

handle_abort-called :
    (event : KeyboardEvent) (overlay : Bool) (source : AbortSource)
    → (handle_abort event overlay).called ≡ some (call_abort source)
    → (event.is_composing ≡ false)
      × (event.native_is_composing ≡ false)
      × SourceFits event overlay source
unfolding handle_abort
handle_abort-called event overlay escape h = ground arith
handle_abort-called event overlay cmd_dot h = ground arith

handle_action-called :
    (event : KeyboardEvent) (handlers : KeybindingHandlers) (overlay : Bool) (a : KeybindingAction)
    (source : AbortSource)
    → (handle_action event handlers overlay a).called ≡ some (call_abort source)
    → (a ≡ abort)
      × (handlers.on_abort ≡ true)
      × ((handle_abort event overlay).called ≡ some (call_abort source))
unfolding handle_action
handle_action-called event handlers overlay new_conversation source h = ground arith
handle_action-called event handlers overlay toggle_sidebar source h = ground arith
handle_action-called event handlers overlay abort source h = (refl, ground arith, ground arith)
handle_action-called event handlers overlay open_settings source h = ground arith
handle_action-called event handlers overlay export_markdown source h = ground arith
handle_action-called event handlers overlay toggle_git source h = ground arith
handle_action-called event handlers overlay open_shortcuts source h = ground arith
handle_action-called event handlers overlay toggle_theme source h = ground arith

-- Where a key press stops the turn, a turn runs, a handler for it is given, no text is being
-- composed, and either the key is not Escape or it is Escape, not handled before, with no field in
-- focus and no overlay shown.
pub handle_keybinding-MayAbort :
    (event : KeyboardEvent) (handlers : KeybindingHandlers) (overlay : Bool) (source : AbortSource)
    → (handle_keybinding event handlers overlay).called ≡ some (call_abort source)
    → MayAbort event handlers overlay source
unfolding handle_keybinding
handle_keybinding-MayAbort event handlers overlay source h =
    elim (Option-cases (match_keybinding event handlers.is_working)) [
      | inl e ↦ ground arith
      | inr (a, e) ↦
          let (is_abort, given, called) : (a ≡ abort)
              × (handlers.on_abort ≡ true)
              × ((handle_abort event overlay).called ≡ some (call_abort source)) =
            handle_action-called event handlers overlay a source (ground arith) in
          let (calm, native_calm, fits) : (event.is_composing ≡ false)
              × (event.native_is_composing ≡ false)
              × SourceFits event overlay source =
            handle_abort-called event overlay source called in
          (
            match_keybinding-abort event handlers.is_working (ground arith),
            given,
            calm,
            native_calm,
            fits,
          )
    ]
