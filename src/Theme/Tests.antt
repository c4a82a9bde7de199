-- ===== src/Theme/Tests.antt =====
-- A window with a dark theme, and one that is opened.
use open_pi.Prelude.{◌≡◌, refl, true, false, none, some, List, [], ◌∷◌}
use open_pi.Text.{units, text_eq}
use open_pi.Theme.{
  ThemeConfig, resolve_effective_mode, default_flavor_for_mode, find_in, find_preset,
}
use open_pi.Theme.World.{
  World, mode_key, flavor_key, stored_mode, stored_flavor, is_usable, get_stored_theme_config,
  shown_flavor, is_shown, painted, apply_theme, Patch, next_mode, next_flavor, next_config, persist,
  set_theme_config, toggle_theme_mode, opposite, open_page, init_theme, ThemeEvent, media_changed,
  toggled, storage_changed, configured, run_theme,
}
use open_pi.Theme.Shown.{IsLive, run_theme-init_theme-IsLive}
use open_pi.Theme.Stored.{IsSynced, run_theme-IsSynced}
use open_pi.Theme.Toggled.{toggle_theme_mode_twice, get_stored_theme_config-apply_theme}

abbrev window : World
window = record {
  browser = true;
  storage = (mode_key, units "dark") ∷ (flavor_key, units "dark-warm") ∷ [];
  accepts_mode = true;
  accepts_flavor = true;
  html = painted (units "dark") (units "dark-warm");
  events = [];
  has_settings = true;
  has_native = false;
  calls = [];
  initialized = true;
}

abbrev opened : World
opened = record window {
  html = record { theme = none; flavor = none; dark = false; light = false };
  initialized = false;
}

abbrev to_system : Patch
to_system = record { mode = some (units "system"); flavor = none }

-- the warm flavor stays a warm one
toggled_flavor : (toggle_theme_mode window).1.flavor ≡ units "light-warm"
unfolding toggle_theme_mode set_theme_config next_config next_mode next_flavor
    get_stored_theme_config stored_mode stored_flavor is_usable resolve_effective_mode
    default_flavor_for_mode find_preset find_in text_eq
toggled_flavor = refl

-- a window that shows a light theme and gets the mode `system` goes on with the stored mode
light_window : World
light_window = record window {
  storage = (mode_key, units "light") ∷ (flavor_key, units "light-nord") ∷ [];
  html = painted (units "light") (units "light-nord");
}

system_not_stored :
    (get_stored_theme_config (set_theme_config to_system light_window).0).mode ≡ units "light"
unfolding light_window set_theme_config next_config next_mode next_flavor get_stored_theme_config
    stored_mode stored_flavor is_usable resolve_effective_mode default_flavor_for_mode find_preset
    find_in text_eq apply_theme shown_flavor is_shown persist
system_not_stored = refl

window-IsSynced : IsSynced window
unfolding get_stored_theme_config stored_mode resolve_effective_mode text_eq
window-IsSynced = (refl, refl, refl)

abbrev events : List ThemeEvent
events =
    toggled ∷ storage_changed mode_key (units "system") ∷ configured to_system ∷ media_changed ∷ []

run_theme-IsSynced_example : IsSynced (run_theme window events)
run_theme-IsSynced_example = run_theme-IsSynced window events window-IsSynced

run_theme-init_theme-IsLive_example : IsLive (run_theme (init_theme (open_page true opened)) events)
run_theme-init_theme-IsLive_example = run_theme-init_theme-IsLive true opened events refl refl

toggle_theme_mode_twice_example :
    (window.html.theme ≡ some (resolve_effective_mode (get_stored_theme_config window).mode))
    × ((toggle_theme_mode window).0.html.theme
        ≡ some (opposite (resolve_effective_mode (get_stored_theme_config window).mode)))
    × ((toggle_theme_mode (toggle_theme_mode window).0).0.html.theme ≡ window.html.theme)
toggle_theme_mode_twice_example = toggle_theme_mode_twice window window-IsSynced

abbrev nord : ThemeConfig
nord = record { mode = units "system"; flavor = units "light-nord" }

get_stored_theme_config-apply_theme_example :
    get_stored_theme_config (apply_theme nord window) ≡ nord
get_stored_theme_config-apply_theme_example =
    get_stored_theme_config-apply_theme nord window refl refl refl
      (unfold stored_mode text_eq in refl)
      (unfold find_preset find_in resolve_effective_mode text_eq in refl)
      (unfold is_shown resolve_effective_mode text_eq in refl)
