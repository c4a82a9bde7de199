-- ===== src/Theme/Stored.antt =====
-- apps/desktop/web/lib/theme-manager.ts: the stored configuration and what the document shows.
use open_pi.Prelude.{
  ◌≡◌, refl, ap, sym, ◌∙◌, true, false, not, ◌&&◌, ◌||◌, Option, none, some, List, [], ◌∷◌, arith,
  if-then_else_lem,
}
use open_pi.Text.{Text, units, text_eq}
use open_pi.Text.Laws.{eq_of_text_eq}
use open_pi.TextMap.{TextMap, lookup, put, lookup-put}
use open_pi.Theme.{ThemeConfig, resolve_effective_mode}
use open_pi.Theme.World.{
  ApiCall, World, stored_mode, stored_after, get_stored_theme_config, shown_flavor, is_shown,
  is_same, apply_theme, persist, set_theme_config, toggle_theme_mode, handle_media_change,
  handle_storage, handle_theme_sync, handle_settings, ThemeEvent, media_changed, toggled,
  storage_changed, synced, settings_loaded, configured, step_theme, run_theme, mode_key, flavor_key,
  is_missing,
}

-- the document shows the mode that is stored, in a browser whose storage accepts a mode
abbrev pub IsSynced : World → Type 0
IsSynced w =
    (w.browser ≡ true)
    × (w.accepts_mode ≡ true)
    × (w.html.theme ≡ some (resolve_effective_mode (get_stored_theme_config w).mode))

-- an unknown mode counts as light, stored or not
pub resolve_effective_mode-stored_mode :
    (mode : Text) → resolve_effective_mode (stored_mode (some mode)) ≡ resolve_effective_mode mode
unfolding resolve_effective_mode stored_mode
resolve_effective_mode-stored_mode mode =
    let fixed : text_eq (units "light") (units "dark") ≡ false = (unfold text_eq in refl) in
    ground arith

abbrev pub both : TextMap Text → Text → Text → TextMap Text
both storage mode flavor = put (put storage mode_key mode) flavor_key flavor

pub lookup_mode :
    (storage : TextMap Text) (mode flavor : Text)
    → lookup (both storage mode flavor) mode_key ≡ some mode
lookup_mode storage mode flavor =
    lookup-put (put storage mode_key mode) flavor_key mode_key flavor
    ∙ (unfold text_eq in lookup-put storage mode_key mode_key mode)

-- the mode is stored, whether the flavor is or not
stored_after_mode :
    (w : World) (mode flavor : Text)
    → w.accepts_mode ≡ true
    → lookup (stored_after w mode flavor) mode_key ≡ some mode
unfolding stored_after
stored_after_mode w mode flavor accepts = rw accepts (
    if-then_else_lem (λ s. lookup s mode_key ≡ some mode) w.accepts_flavor
      (both w.storage mode flavor) (put w.storage mode_key mode)
      (λ e. lookup_mode w.storage mode flavor)
      (λ e. unfold text_eq in lookup-put w.storage mode_key mode_key mode))

pub lookup_flavor :
    (storage : TextMap Text) (mode flavor : Text)
    → lookup (both storage mode flavor) flavor_key ≡ some flavor
lookup_flavor storage mode flavor =
    unfold text_eq in lookup-put (put storage mode_key mode) flavor_key flavor_key flavor

get_stored_theme_config_mode :
    (w : World)
    → w.browser ≡ true
    → (get_stored_theme_config w).mode ≡ stored_mode (lookup w.storage mode_key)
unfolding get_stored_theme_config
get_stored_theme_config_mode w browser = rw browser refl

-- what is read back from a storage that was written
pub written_mode :
    (v : World) (mode : Text)
    → v.browser ≡ true
    → lookup v.storage mode_key ≡ some mode
    → (get_stored_theme_config v).mode ≡ stored_mode (some mode)
written_mode v mode browser e = get_stored_theme_config_mode v browser ∙ ap stored_mode e

pub is_same_eq : (o : Option Text) (t : Text) → is_same o t ≡ true → o ≡ some t
is_same_eq none t h = absurd (cc)
is_same_eq (some s) t h = ap some (eq_of_text_eq s t h)

-- a configuration is written, or the document shows it already
apply_theme-IsSynced :
    (config : ThemeConfig) (w : World)
    → w.browser ≡ true
    → w.accepts_mode ≡ true
    → (w.html.theme ≡ some (resolve_effective_mode config.mode)
        → w.html.theme ≡ some (resolve_effective_mode (get_stored_theme_config w).mode))
    → IsSynced (apply_theme config w)
unfolding apply_theme is_shown
apply_theme-IsSynced config w browser accepts agree =
    if-then_else_lem IsSynced (not w.browser || is_shown w.html effective flavor) w _
      (λ e. (browser, accepts, agree (is_same_eq w.html.theme effective (ground arith))))
      (λ e. (
        browser,
        accepts,
        ap some (
            sym (
              ap resolve_effective_mode (
                written_mode _ config.mode browser (stored_after_mode w config.mode flavor accepts))
              ∙ resolve_effective_mode-stored_mode config.mode)),
      ))
  where
    effective : Text
    effective = resolve_effective_mode config.mode

    flavor : Text
    flavor = shown_flavor config

-- the calls of the interface change nothing here
pub unchanged_calls :
    (v : World) (calls : List ApiCall) → IsSynced v → IsSynced (record v { calls = calls })
unfolding get_stored_theme_config
unchanged_calls v calls h = h

apply_stored-IsSynced :
    (w : World)
    → w.browser ≡ true
    → w.accepts_mode ≡ true
    → IsSynced (apply_theme (get_stored_theme_config w) w)
apply_stored-IsSynced w browser accepts =
    apply_theme-IsSynced (get_stored_theme_config w) w browser accepts (λ h. h)

pub keep-IsSynced :
    (config : ThemeConfig) (w : World) → IsSynced w → IsSynced (apply_theme config w)
keep-IsSynced config w (browser, accepts, e) =
    apply_theme-IsSynced config w browser accepts (λ h. e)

-- a value at another key of the storage is not read
other_key :
    (w : World) (key value : Text)
    → text_eq key mode_key ≡ false
    → IsSynced w
    → IsSynced (record w { storage = put w.storage key value })
other_key w key value other (browser, accepts, e) =
    let later : World = record w { storage = put w.storage key value } in
    let same : lookup later.storage mode_key ≡ lookup w.storage mode_key =
      lookup-put w.storage key mode_key value ∙ (rw other refl) in
    let read : (get_stored_theme_config w).mode ≡ (get_stored_theme_config later).mode =
      get_stored_theme_config_mode w browser
      ∙ ap stored_mode (sym same)
      ∙ sym (get_stored_theme_config_mode later browser) in
    (browser, accepts, e ∙ ap (λ m. some (resolve_effective_mode m)) read)

pub step_theme-IsSynced : (w : World) (e : ThemeEvent) → IsSynced w → IsSynced (step_theme w e)
unfolding step_theme handle_media_change toggle_theme_mode set_theme_config persist handle_storage
    handle_theme_sync handle_settings
step_theme-IsSynced w media_changed h =
    if-then_else_lem IsSynced (text_eq (get_stored_theme_config w).mode (units "system")) _ w
      (λ e. keep-IsSynced _ w h) (λ e. h)
step_theme-IsSynced w toggled h = unchanged_calls _ _ (keep-IsSynced _ w h)
step_theme-IsSynced w (storage_changed key value) h =
    let later : World = record w { storage = put w.storage key value } in
    if-then_else_lem IsSynced (text_eq key mode_key || text_eq key flavor_key) _ later
      (λ e. apply_stored-IsSynced later h.0 h.1) (λ e. other_key w key value (ground arith) h)
step_theme-IsSynced w (synced mode flavor) h =
    if-then_else_lem IsSynced (is_missing mode) w _ (λ e. h) (λ e. keep-IsSynced _ w h)
step_theme-IsSynced w (settings_loaded theme flavor) h =
    if-then_else_lem IsSynced (is_missing theme && is_missing flavor) w _ (λ e. h)
      (λ e. keep-IsSynced _ w h)
step_theme-IsSynced w (configured patch) h = unchanged_calls _ _ (keep-IsSynced _ w h)

-- In a browser whose storage accepts a mode, and whose document shows the effective mode
-- that is stored, it does so after any sequence of events.
pub run_theme-IsSynced : (w : World) (es : List ThemeEvent) → IsSynced w → IsSynced (run_theme w es)
unfolding run_theme
run_theme-IsSynced w [] h = h
run_theme-IsSynced w (e ∷ es) h = run_theme-IsSynced (step_theme w e) es (step_theme-IsSynced w e h)
