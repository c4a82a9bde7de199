-- ===== src/Theme/Shown.antt =====
-- apps/desktop/web/lib/theme-manager.ts: what the document shows after `initTheme` and any sequence
-- of events.
use open_pi.Prelude.{
  ◌≡◌, refl, subst, Bool, true, false, not, ◌&&◌, ◌||◌, List, [], ◌∷◌, arith, if-then_else_lem,
}
use open_pi.Text.{Text, units, text_eq}
use open_pi.Text.Laws.{eq_of_text_eq}
use open_pi.TextMap.{put}
use open_pi.Theme.{ThemeConfig, resolve_effective_mode}
use open_pi.Theme.World.{
  Html, World, get_stored_theme_config, shown_flavor, is_shown, painted, apply_theme, persist,
  set_theme_config, toggle_theme_mode, open_page, init_theme, handle_media_change, handle_storage,
  handle_theme_sync, handle_settings, ThemeEvent, media_changed, toggled, storage_changed, synced,
  settings_loaded, configured, step_theme, run_theme, mode_key, flavor_key, is_missing,
}
use open_pi.Theme.Matched.{Fits, IsMode, resolve_effective_mode-IsMode, shown_flavor-Fits}

-- the attributes are a mode and a flavor made for it, and of the two classes the one of the mode is
-- there
abbrev pub IsPainted : Html → Type 0
IsPainted html =
    (effective : Text) × (flavor : Text) × (html ≡ painted effective flavor)
    × IsMode effective
    × Fits flavor effective

-- a window of a browser that shows such a theme
abbrev pub IsLive : World → Type 0
IsLive w = (w.browser ≡ true) × IsPainted w.html

pub apply_theme-IsLive :
    (config : ThemeConfig) (w : World) → IsLive w → IsLive (apply_theme config w)
unfolding apply_theme
apply_theme-IsLive config w h =
    if-then_else_lem IsLive
      (not w.browser || is_shown w.html (resolve_effective_mode config.mode) (shown_flavor config))
      w _ (λ e. h)
      (λ e. (
        h.0,
        (
          resolve_effective_mode config.mode,
          shown_flavor config,
          refl,
          resolve_effective_mode-IsMode config.mode,
          shown_flavor-Fits config,
        ),
      ))

step_theme-IsLive : (w : World) (e : ThemeEvent) → IsLive w → IsLive (step_theme w e)
unfolding step_theme handle_media_change toggle_theme_mode set_theme_config persist handle_storage
    handle_theme_sync handle_settings
step_theme-IsLive w media_changed h =
    if-then_else_lem IsLive (text_eq (get_stored_theme_config w).mode (units "system")) _ w
      (λ e. apply_theme-IsLive _ w h) (λ e. h)
step_theme-IsLive w toggled h = apply_theme-IsLive _ w h
step_theme-IsLive w (storage_changed key value) h =
    let later : World = record w { storage = put w.storage key value } in
    if-then_else_lem IsLive (text_eq key mode_key || text_eq key flavor_key) _ later
      (λ e. apply_theme-IsLive _ later h) (λ e. h)
step_theme-IsLive w (synced mode flavor) h =
    if-then_else_lem IsLive (is_missing mode) w _ (λ e. h) (λ e. apply_theme-IsLive _ w h)
step_theme-IsLive w (settings_loaded theme flavor) h =
    if-then_else_lem IsLive (is_missing theme && is_missing flavor) w _ (λ e. h)
      (λ e. apply_theme-IsLive _ w h)
step_theme-IsLive w (configured patch) h = apply_theme-IsLive _ w h

run_theme-IsLive : (w : World) (es : List ThemeEvent) → IsLive w → IsLive (run_theme w es)
unfolding run_theme
run_theme-IsLive w [] h = h
run_theme-IsLive w (e ∷ es) h = run_theme-IsLive (step_theme w e) es (step_theme-IsLive w e h)

-- a document that shows a mode and some flavor shows a flavor that fits after a theme is applied
apply_theme-painted :
    (config : ThemeConfig) (w : World) (effective flavor : Text)
    → w.browser ≡ true
    → w.html ≡ painted effective flavor
    → IsLive (apply_theme config w)
unfolding apply_theme is_shown
apply_theme-painted config w effective flavor browser shows =
    let mode : Text = resolve_effective_mode config.mode in
    if-then_else_lem IsLive (not w.browser || is_shown w.html mode (shown_flavor config)) w _
      (λ e.
        let both : is_shown (painted effective flavor) mode (shown_flavor config) ≡ true =
          subst (λ h. is_shown h mode (shown_flavor config) ≡ true) shows (ground arith) in
        let same : effective ≡ mode = eq_of_text_eq effective mode (ground arith) in
        let fits : flavor ≡ shown_flavor config =
          eq_of_text_eq flavor (shown_flavor config) (ground arith) in
        (
          browser,
          (
            mode,
            shown_flavor config,
            rw (← same, ← fits) shows,
            resolve_effective_mode-IsMode config.mode,
            shown_flavor-Fits config,
          ),
        ))
      (λ e. (
        browser,
        (
          mode,
          shown_flavor config,
          refl,
          resolve_effective_mode-IsMode config.mode,
          shown_flavor-Fits config,
        ),
      ))

init_theme-IsLive :
    (w : World) (effective flavor : Text)
    → w.browser ≡ true
    → w.initialized ≡ false
    → w.html ≡ painted effective flavor
    → IsLive (init_theme w)
unfolding init_theme
init_theme-IsLive w effective flavor browser fresh shows =
    if-then_else_lem IsLive (w.initialized || not w.browser) w _ (λ e. absurd (ground arith))
      (λ e. apply_theme-painted _ (record w { initialized = true }) effective flavor browser shows)

-- In a browser where the themes are not started yet, whatever is stored and whatever the system
-- prefers: after the script of the page, `initTheme` and any sequence of events the document shows a
-- mode, a flavor made for it, and the class of that mode alone.
pub run_theme-init_theme-IsLive :
    (prefers_dark : Bool) (w : World) (es : List ThemeEvent)
    → w.browser ≡ true
    → w.initialized ≡ false
    → IsLive (run_theme (init_theme (open_page prefers_dark w)) es)
unfolding open_page
run_theme-init_theme-IsLive prefers_dark w es browser fresh =
    run_theme-IsLive (init_theme (open_page prefers_dark w)) es
      (init_theme-IsLive (open_page prefers_dark w) _ _ browser fresh refl)
