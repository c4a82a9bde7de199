-- ===== src/Theme/Toggled.antt =====
-- apps/desktop/web/lib/theme-manager.ts: `toggleThemeMode`, and a configuration that is written and
-- read again.
use open_pi.Prelude.{
  ◌≡◌, refl, ap, sym, ◌∙◌, inl, inr, Bool, true, false, not, ◌&&◌, ◌||◌, Option, none, some, List,
  [], ◌∷◌, any, arith, if◌then◌else◌, if-then_else_lem,
}
use open_pi.Text.{Text, units, text_eq, is_empty}
use open_pi.Theme.{
  ThemePreset, theme_presets, ThemeConfig, resolve_effective_mode, default_flavor_for_mode, find_in,
  find_preset, fits,
}
use open_pi.Theme.World.{
  World, stored_after, stored_mode, stored_flavor, is_usable, get_stored_theme_config, shown_flavor,
  is_shown, apply_theme, persist, set_theme_config, toggle_theme_mode, opposite, next_mode,
  next_config, step_theme, toggled,
}
use open_pi.Theme.Matched.{Fits, IsMode, resolve_effective_mode-IsMode, shown_flavor_eq}
use open_pi.Theme.Stored.{
  lookup_mode, IsSynced, both, lookup_flavor, is_same_eq, step_theme-IsSynced,
}

-- the document shows the mode that is applied
apply_theme_shows :
    (config : ThemeConfig) (w : World)
    → w.browser ≡ true
    → (apply_theme config w).html.theme ≡ some (resolve_effective_mode config.mode)
unfolding apply_theme is_shown
apply_theme_shows config w browser =
    if-then_else_lem (λ (v : World). v.html.theme ≡ some effective)
      (not w.browser || is_shown w.html effective (shown_flavor config)) w _
      (λ e. is_same_eq w.html.theme effective (ground arith)) (λ e. refl)
  where
    effective : Text
    effective = resolve_effective_mode config.mode

opposite-IsMode :
    (effective : Text)
    → IsMode effective
    → (resolve_effective_mode (opposite effective) ≡ opposite effective)
      × (opposite (opposite effective) ≡ effective)
unfolding resolve_effective_mode text_eq
opposite-IsMode effective (inl e) = rw e (refl, refl)
opposite-IsMode effective (inr e) = rw e (refl, refl)

toggle_theme_mode_shows :
    (w : World)
    → w.browser ≡ true
    → (toggle_theme_mode w).0.html.theme
      ≡ some (opposite (resolve_effective_mode (get_stored_theme_config w).mode))
unfolding toggle_theme_mode set_theme_config persist next_config next_mode
toggle_theme_mode_shows w browser =
    let mode = (get_stored_theme_config w).mode in
    apply_theme_shows _ w browser
    ∙ ap some (opposite-IsMode (resolve_effective_mode mode) (resolve_effective_mode-IsMode mode)).0

some_eq : {s t : Text} → some s ≡ some t → s ≡ t
some_eq e = cc

-- In a browser whose storage accepts a mode, and whose document shows the effective mode
-- that is stored, toggling shows the other mode, and toggling again the first.
pub toggle_theme_mode_twice :
    (w : World)
    → IsSynced w
    → (w.html.theme ≡ some (resolve_effective_mode (get_stored_theme_config w).mode))
      × ((toggle_theme_mode w).0.html.theme
          ≡ some (opposite (resolve_effective_mode (get_stored_theme_config w).mode)))
      × ((toggle_theme_mode (toggle_theme_mode w).0).0.html.theme ≡ w.html.theme)
toggle_theme_mode_twice w h =
    let v : World = (toggle_theme_mode w).0 in
    let mode = (get_stored_theme_config w).mode in
    let k : IsSynced v = (unfold step_theme in step_theme-IsSynced w toggled h) in
    let once = toggle_theme_mode_shows w h.0 in
    let read : resolve_effective_mode (get_stored_theme_config v).mode
        ≡ opposite (resolve_effective_mode mode) =
      some_eq (sym k.2 ∙ once) in
    (
      h.2,
      once,
      toggle_theme_mode_shows v k.0
          ∙ ap (λ m. some (opposite m)) read
          ∙ ap some
              (opposite-IsMode (resolve_effective_mode mode) (resolve_effective_mode-IsMode mode)).1
          ∙ sym h.2,
    )

find_in-any :
    (ps : List ThemePreset) (flavor : Text) (p : ThemePreset)
    → find_in ps flavor ≡ some p
    → any (λ q. text_eq q.id flavor) ps ≡ true
unfolding find_in
find_in-any [] flavor p h = absurd (cc)
find_in-any (q ∷ ps) flavor p h = let ih = find_in-any ps flavor p in ground arith

-- the theme of a flavor that fits
preset_of :
    (flavor effective : Text)
    → Fits flavor effective
    → (p : ThemePreset) × (find_preset flavor ≡ some p) × (text_eq p.mode effective ≡ true)
preset_of flavor effective h = go (find_preset flavor) refl h
  where
    go :
        (found : Option ThemePreset)
        → find_preset flavor ≡ found
        → fits found effective ≡ true
        → (p : ThemePreset) × (find_preset flavor ≡ some p) × (text_eq p.mode effective ≡ true)
    go none e k = absurd (cc)
    go (some p) e k = (p, e, k)

named : (flavor effective : Text) → Fits flavor effective → not (is_empty flavor) ≡ true
named [] effective h =
    let out : false ≡ true = (unfold find_preset find_in text_eq in h) in absurd (cc)
named (c ∷ s) effective h = refl

all_true : (a b c : Bool) → a ≡ true → b ≡ true → c ≡ true → (a && b && c) ≡ true
all_true a b c h k l = ground arith

usable :
    (mode flavor : Text)
    → Fits flavor (resolve_effective_mode mode)
    → is_usable mode (find_preset flavor) ≡ true
unfolding is_usable
usable mode flavor h =
    let (p, found, made) = preset_of flavor (resolve_effective_mode mode) h in
    rw (found, is_usable)
      (if-then_else_lem (λ b. b ≡ true) (text_eq mode (units "system")) _ true (λ e. made)
        (λ e. refl))

stored_flavor_lem :
    (mode flavor : Text)
    → Fits flavor (resolve_effective_mode mode)
    → stored_flavor mode (some flavor) ≡ flavor
unfolding stored_flavor
stored_flavor_lem mode flavor h =
    let (p, found, made) = preset_of flavor (resolve_effective_mode mode) h in
    let known = find_in-any theme_presets flavor p (unfold find_preset in found) in
    let full = named flavor (resolve_effective_mode mode) h in
    ap (λ b. if b then flavor else default_flavor_for_mode (resolve_effective_mode mode))
      (all_true _ _ _ full known (usable mode flavor h))

-- what is read from a storage that was written
read_back :
    (v : World) (w : World) (mode flavor : Text)
    → v.browser ≡ true
    → v.storage ≡ both w.storage mode flavor
    → get_stored_theme_config v ≡ record {
      mode = stored_mode (some mode);
      flavor = stored_flavor (stored_mode (some mode)) (some flavor);
    }
unfolding get_stored_theme_config
read_back v w mode flavor browser e =
    rw (browser, e, lookup_mode w.storage mode flavor, lookup_flavor w.storage mode flavor) refl

apply_theme_writes :
    (config : ThemeConfig) (w : World)
    → w.browser ≡ true
    → w.accepts_mode ≡ true
    → w.accepts_flavor ≡ true
    → is_shown w.html (resolve_effective_mode config.mode) (shown_flavor config) ≡ false
    → ((apply_theme config w).browser ≡ true)
      × ((apply_theme config w).storage ≡ both w.storage config.mode (shown_flavor config))
unfolding apply_theme stored_after
apply_theme_writes config w browser accepts_mode accepts_flavor new =
    if-then_else_lem
      (λ (v : World).
        (v.browser ≡ true) × (v.storage ≡ both w.storage config.mode (shown_flavor config)))
      (not w.browser || is_shown w.html (resolve_effective_mode config.mode) (shown_flavor config))
      w _ (λ e. absurd (ground arith))
      (λ e. (browser, rw (accepts_mode, accepts_flavor, stored_after) refl))

-- In a browser whose storage accepts a mode and a flavor, a configuration with one of the three modes
-- and a flavor that fits it is read back as it was applied, if the document does not show it yet.
pub get_stored_theme_config-apply_theme :
    (config : ThemeConfig) (w : World)
    → w.browser ≡ true
    → w.accepts_mode ≡ true
    → w.accepts_flavor ≡ true
    → stored_mode (some config.mode) ≡ config.mode
    → Fits config.flavor (resolve_effective_mode config.mode)
    → is_shown w.html (resolve_effective_mode config.mode) config.flavor ≡ false
    → get_stored_theme_config (apply_theme config w) ≡ config
get_stored_theme_config-apply_theme config w browser accepts_mode accepts_flavor mode made new =
    let fixed = shown_flavor_eq config made in
    let (live, written) =
      apply_theme_writes config w browser accepts_mode accepts_flavor (rw fixed new) in
    read_back (apply_theme config w) w config.mode (shown_flavor config) live written
    ∙ rw (fixed, mode, stored_flavor_lem config.mode config.flavor made) refl
