-- ===== src/Theme/Matched.antt =====
-- apps/desktop/web/lib/theme-manager.ts: a flavor and the mode that it is made for.
use open_pi.Prelude.{◌≡◌, refl, inl, inr, ◌⊎◌, true, ◌&&◌, or_else, arith, if-then_else_lem}
use open_pi.Text.{Text, units, text_eq}
use open_pi.Text.Laws.{eq_of_text_eq}
use open_pi.Theme.{
  ThemeConfig, resolve_effective_mode, default_flavor_for_mode, find_in, find_preset, fits,
}
use open_pi.Theme.World.{
  World, get_stored_theme_config, shown_flavor, Patch, next_mode, next_flavor, next_config,
  set_theme_config,
}

-- the flavor is that of a known theme, which is made for the effective mode
abbrev pub Fits : Text → Text → Type 0
Fits flavor effective = fits (find_preset flavor) effective ≡ true

abbrev pub IsMode : Text → Type 0
IsMode effective = (effective ≡ units "dark") ⊎ (effective ≡ units "light")

pub resolve_effective_mode-IsMode : (mode : Text) → IsMode (resolve_effective_mode mode)
unfolding resolve_effective_mode
resolve_effective_mode-IsMode mode =
    if-then_else_lem IsMode (text_eq mode (units "dark")) (units "dark") (units "light")
      (λ h. inl refl) (λ h. inr refl)

default_flavor_for_mode-Fits :
    (effective : Text) → IsMode effective → Fits (default_flavor_for_mode effective) effective
default_flavor_for_mode-Fits effective (inl e) =
    rw e (unfold default_flavor_for_mode find_preset find_in text_eq in refl)
default_flavor_for_mode-Fits effective (inr e) =
    rw e (unfold default_flavor_for_mode find_preset find_in text_eq in refl)

dark_warm-Fits : Fits (units "dark-warm") (units "dark")
unfolding find_preset find_in text_eq
dark_warm-Fits = refl

light_warm-Fits : Fits (units "light-warm") (units "light")
unfolding find_preset find_in text_eq
light_warm-Fits = refl

pub shown_flavor-Fits :
    (config : ThemeConfig) → Fits (shown_flavor config) (resolve_effective_mode config.mode)
unfolding shown_flavor
shown_flavor-Fits config =
    let effective = resolve_effective_mode config.mode in
    if-then_else_lem (λ f. Fits f effective) (fits (find_preset config.flavor) effective) _ _
      (λ h. h)
      (λ h. default_flavor_for_mode-Fits effective (resolve_effective_mode-IsMode config.mode))

-- what fits is shown as it is
pub shown_flavor_eq :
    (config : ThemeConfig)
    → Fits config.flavor (resolve_effective_mode config.mode)
    → shown_flavor config ≡ config.flavor
unfolding shown_flavor
shown_flavor_eq config h = rw (h, shown_flavor) refl

next_flavor-Fits :
    (patch : Patch) (current : ThemeConfig) (effective : Text)
    → IsMode effective
    → Fits (next_flavor patch current effective) effective
unfolding next_flavor
next_flavor-Fits patch current effective mode =
    if-then_else_lem P (fits (find_preset (or_else patch.flavor current.flavor)) effective) _ _
      (λ h. h)
      (λ other.
        if-then_else_lem P
          (text_eq current.flavor (units "light-warm") && text_eq effective (units "dark")) _ _
          (λ h. rw (eq_of_text_eq effective (units "dark") (ground arith)) dark_warm-Fits)
          (λ differs.
            if-then_else_lem P
              (text_eq current.flavor (units "dark-warm") && text_eq effective (units "light")) _ _
              (λ h. rw (eq_of_text_eq effective (units "light") (ground arith)) light_warm-Fits)
              (λ h. default_flavor_for_mode-Fits effective mode)))
  where
    P : Text → Type 0
    P f = Fits f effective

-- Whatever is stored and whatever the patch is, the configuration that is set has a flavor that is
-- made for its mode.
pub set_theme_config-Fits :
    (patch : Patch) (w : World)
    → Fits
        (set_theme_config patch w).1.flavor
        (resolve_effective_mode (set_theme_config patch w).1.mode)
unfolding set_theme_config next_config
set_theme_config-Fits patch w =
    let current = get_stored_theme_config w in
    next_flavor-Fits patch current (resolve_effective_mode (next_mode patch current))
      (resolve_effective_mode-IsMode (next_mode patch current))
