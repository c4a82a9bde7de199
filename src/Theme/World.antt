-- ===== src/Theme/World.antt =====
-- apps/desktop/web/lib/theme-manager.ts: what the functions read and write, and the functions. The
-- document, the local storage and the desktop's interface are the parts of one state, which tells of
-- each key whether `setItem` accepts a value for it or throws.
-- Without a browser there is neither window nor document.
use open_pi.Prelude.{
  Bool, true, false, not, ◌&&◌, ◌||◌, Option, none, some, List, [], ◌∷◌, ◌++◌, any, or_else,
  if◌then◌else◌,
}
use open_pi.Text.{Text, units, text_eq, is_empty}
use open_pi.TextMap.{TextMap, lookup, put}
use open_pi.Theme.{
  ThemePreset, theme_presets, ThemeConfig, resolve_effective_mode, default_flavor_for_mode,
  find_preset, fits,
}

abbrev pub mode_key : Text
mode_key = units "openpi-theme"

abbrev pub flavor_key : Text
flavor_key = units "openpi-theme-flavor"

-- the detail of the event `openpi:theme-changed`
pub record ThemeChange : Type 0 where
  pub mode : Text
  pub effective_mode : Text
  pub flavor : Text

-- the attributes and the classes of the document's element
pub record Html : Type 0 where
  pub theme : Option Text
  pub flavor : Option Text
  pub dark : Bool
  pub light : Bool

-- the calls of the desktop's interface
pub data ApiCall : Type 0 where
  update_app_settings set_native_theme : ThemeConfig → ApiCall

pub record World : Type 0 where
  pub browser : Bool
  pub storage : TextMap Text
  pub accepts_mode : Bool
  pub accepts_flavor : Bool
  pub html : Html
  pub events : List ThemeChange
  pub has_settings : Bool
  pub has_native : Bool
  pub calls : List ApiCall
  pub initialized : Bool

-- the stored mode, if it is one of the three
unfoldable pub stored_mode : Option Text → Text
stored_mode none = units "light"
stored_mode (some raw) =
    if any (text_eq raw) (units "system" ∷ units "dark" ∷ units "light" ∷ [])
    then raw
    else units "light"

-- a flavor fits a mode that is stored; only the mode `system` asks for more than a known name
unfoldable pub is_usable : Text → Option ThemePreset → Bool
is_usable mode none = false
is_usable mode (some p) =
    if text_eq mode (units "system") then text_eq p.mode (resolve_effective_mode mode) else true

unfoldable pub stored_flavor : Text → Option Text → Text
stored_flavor mode none = default_flavor_for_mode (resolve_effective_mode mode)
stored_flavor mode (some raw) =
    if not (is_empty raw)
      && any (λ p. text_eq p.id raw) theme_presets
      && is_usable mode (find_preset raw)
    then raw
    else default_flavor_for_mode (resolve_effective_mode mode)

unfoldable pub get_stored_theme_config : World → ThemeConfig
get_stored_theme_config w =
    let mode = stored_mode (lookup w.storage mode_key) in
    if w.browser
    then record { mode = mode; flavor = stored_flavor mode (lookup w.storage flavor_key) }
    else record { mode = units "light"; flavor = units "light-default" }

-- the flavor that is shown: the one of the configuration, if it fits
unfoldable pub shown_flavor : ThemeConfig → Text
shown_flavor config =
    let effective = resolve_effective_mode config.mode in
    if fits (find_preset config.flavor) effective
    then config.flavor
    else default_flavor_for_mode effective

abbrev pub is_same : Option Text → Text → Bool
is_same none t = false
is_same (some s) t = text_eq s t

-- the document already shows the theme
unfoldable pub is_shown : Html → Text → Text → Bool
is_shown html effective flavor = is_same html.theme effective && is_same html.flavor flavor

abbrev pub painted : Text → Text → Html
painted effective flavor = record {
  theme = some effective;
  flavor = some flavor;
  dark = text_eq effective (units "dark");
  light = not (text_eq effective (units "dark"));
}

-- the storage after the two writes; when the first throws, the second does not happen
unfoldable pub stored_after : World → Text → Text → TextMap Text
stored_after w mode flavor =
    let first = put w.storage mode_key mode in
    if w.accepts_mode
    then if w.accepts_flavor then put first flavor_key flavor else first
    else w.storage

unfoldable pub apply_theme : ThemeConfig → World → World
apply_theme config w =
    let effective = resolve_effective_mode config.mode in
    let flavor = shown_flavor config in
    if not w.browser || is_shown w.html effective flavor then w else record w {
      html = painted effective flavor;
      storage = stored_after w config.mode flavor;
      events =
          w.events
          ++ record { mode = config.mode; effective_mode = effective; flavor = flavor } ∷ [];
    }

-- `Partial<ThemeConfig>`
pub record Patch : Type 0 where
  pub mode : Option Text
  pub flavor : Option Text

-- `!value`
abbrev pub is_missing : Option Text → Bool
is_missing none = true
is_missing (some s) = is_empty s

-- the mode after the patch; a flavor alone brings its own mode
unfoldable pub next_mode : Patch → ThemeConfig → Text
next_mode patch current =
    let own = or_else patch.mode current.mode in
    if not (is_missing patch.flavor) && is_missing patch.mode
    then elim (find_preset (or_else patch.flavor [])) [ none ↦ own | some p ↦ p.mode ]
    else own

-- the flavor after the patch, for the effective mode
unfoldable pub next_flavor : Patch → ThemeConfig → Text → Text
next_flavor patch current effective =
    let wanted = or_else patch.flavor current.flavor in
    if fits (find_preset wanted) effective
    then wanted
    else if text_eq current.flavor (units "light-warm") && text_eq effective (units "dark")
    then units "dark-warm"
    else if text_eq current.flavor (units "dark-warm") && text_eq effective (units "light")
    then units "light-warm"
    else default_flavor_for_mode effective

unfoldable pub next_config : Patch → ThemeConfig → ThemeConfig
next_config patch current =
    let mode = next_mode patch current in
    record { mode = mode; flavor = next_flavor patch current (resolve_effective_mode mode) }

-- the calls of the interface, where it has them
unfoldable pub persist : ThemeConfig → World → World
persist config w = record w {
  calls =
      w.calls
      ++ (if w.has_settings then update_app_settings config ∷ [] else [])
      ++ (if w.has_native then set_native_theme config ∷ [] else []);
}

unfoldable pub set_theme_config : Patch → World → World × ThemeConfig
set_theme_config patch w =
    let config = next_config patch (get_stored_theme_config w) in
    (persist config (apply_theme config w), config)

-- the other of the two modes
abbrev pub opposite : Text → Text
opposite effective = if text_eq effective (units "dark") then units "light" else units "dark"

unfoldable pub toggle_theme_mode : World → World × ThemeConfig
toggle_theme_mode w =
    let effective = resolve_effective_mode (get_stored_theme_config w).mode in
    set_theme_config (record { mode = some (opposite effective); flavor = none }) w

-- `localStorage.getItem(key) || other`
abbrev pub stored_or : Option Text → Text → Text
stored_or none other = other
stored_or (some raw) other = if is_empty raw then other else raw

-- the script of the page shows what is stored, before any module runs; the argument tells whether the
-- system prefers the dark appearance
unfoldable pub open_page : Bool → World → World
open_page prefers_dark w =
    let theme = stored_or (lookup w.storage mode_key) (units "light") in
    let is_dark =
      text_eq theme (units "dark") || (text_eq theme (units "system") && prefers_dark) in
    let flavor = if is_dark then units "dark-default" else units "light-default" in
    record w {
      html =
          painted (if is_dark then units "dark" else units "light")
            (stored_or (lookup w.storage flavor_key) flavor);
    }

-- what `initTheme` does at once
unfoldable pub init_theme : World → World
init_theme w =
    if w.initialized || not w.browser
    then w
    else apply_theme (get_stored_theme_config w) (record w { initialized = true })

-- the appearance of the system changes
unfoldable pub handle_media_change : World → World
handle_media_change w =
    let current = get_stored_theme_config w in
    if text_eq current.mode (units "system") then apply_theme current w else w

-- another window writes to the storage
unfoldable pub handle_storage : Text → World → World
handle_storage key w =
    if text_eq key mode_key || text_eq key flavor_key
    then apply_theme (get_stored_theme_config w) w
    else w

-- `value || other`
abbrev pub or_other : Option Text → Text → Text
or_other none other = other
or_other (some []) other = other
or_other (some (c ∷ s)) other = c ∷ s

-- another window sends its theme
unfoldable pub handle_theme_sync : Option Text → Option Text → World → World
handle_theme_sync mode flavor w =
    let own = or_else mode [] in
    if is_missing mode
    then w
    else apply_theme
        (record {
          mode = own;
          flavor = or_other flavor (default_flavor_for_mode (resolve_effective_mode own));
        })
        w

-- the settings of the desktop arrive
unfoldable pub handle_settings : Option Text → Option Text → World → World
handle_settings theme flavor w =
    let mode = or_other theme (units "system") in
    if is_missing theme && is_missing flavor
    then w
    else apply_theme
        (record {
          mode = mode;
          flavor = or_other flavor (default_flavor_for_mode (resolve_effective_mode mode));
        })
        w

-- what happens to a window. That another window changes the storage means that the value is there
-- when the handler runs.
pub data ThemeEvent : Type 0 where
  media_changed toggled : ThemeEvent
  storage_changed : Text → Text → ThemeEvent
  synced settings_loaded : Option Text → Option Text → ThemeEvent
  configured : Patch → ThemeEvent

unfoldable pub step_theme : World → ThemeEvent → World
step_theme w media_changed = handle_media_change w
step_theme w toggled = (toggle_theme_mode w).0
step_theme w (storage_changed key value) =
    handle_storage key (record w { storage = put w.storage key value })
step_theme w (synced mode flavor) = handle_theme_sync mode flavor w
step_theme w (settings_loaded theme flavor) = handle_settings theme flavor w
step_theme w (configured patch) = (set_theme_config patch w).0

unfoldable pub run_theme : World → List ThemeEvent → World
run_theme w [] = w
run_theme w (e ∷ es) = run_theme (step_theme w e) es

-- the state of the hook `useTheme`
pub record View : Type 0 where
  pub config : ThemeConfig
  pub effective_mode : Text

-- what the hook holds after the event, with or without a detail
unfoldable pub handle_theme_changed : Option ThemeChange → World → View
handle_theme_changed (some d) w = record {
  config = record { mode = d.mode; flavor = d.flavor };
  effective_mode = d.effective_mode;
}
handle_theme_changed none w =
    let current = get_stored_theme_config w in
    record { config = current; effective_mode = resolve_effective_mode current.mode }
