-- ===== src/Theme.antt =====
-- apps/desktop/web/lib/theme-manager.ts: the themes that can be chosen. A mode and the name of a
-- flavor are texts, as the storage and the messages hold them.
pub mod World
pub mod Matched
pub mod Shown
pub mod Stored
pub mod Toggled
mod Tests
use Prim.Native.String.{String}
use open_pi.Prelude.{Bool, true, false, Option, none, some, List, [], ◌∷◌, if◌then◌else◌}
use open_pi.Text.{Text, units, text_eq}

pub record Swatches : Type 0 where
  pub bg : Text
  pub elevated : Text
  pub accent : Text
  pub text : Text

pub record ThemePreset : Type 0 where
  pub id : Text
  pub name : Text
  pub desc : Text
  pub tag : Text
  pub mode : Text
  pub swatches : Swatches

abbrev pub dark_warm : ThemePreset
dark_warm = record {
  id = units "dark-warm";
  name = units "暖墨暗夜 (Claude Espresso)";
  desc = units "温润深烘暖墨底色，陶土暖橘点缀，夜间极度护眼";
  tag = units "Claude 同款 · 纸本暗调";
  mode = units "dark";
  swatches = record {
    bg = units "#181715";
    elevated = units "#24221f";
    accent = units "#cc785c";
    text = units "#ebe6dc";
  };
}

abbrev pub dark_default : ThemePreset
dark_default = record {
  id = units "dark-default";
  name = units "微光钛灰 (Linear Titanium)";
  desc = units "深邃微冷石墨底色，发丝内光与克制靛紫，工业级精工美学";
  tag = units "微光精工 · Linear";
  mode = units "dark";
  swatches = record {
    bg = units "#0d0e12";
    elevated = units "#161820";
    accent = units "#5e6ad2";
    text = units "#f0f2f7";
  };
}

abbrev pub dark_oled : ThemePreset
dark_oled = record {
  id = units "dark-oled";
  name = units "黑曜极简 (Geist Obsidian)";
  desc = units "Vercel 级纯黑灰阶分层，无彩色干扰，极致克制";
  tag = units "0 GPU · 极客无界";
  mode = units "dark";
  swatches = record {
    bg = units "#000000";
    elevated = units "#121214";
    accent = units "#f4f4f5";
    text = units "#f4f4f5";
  };
}

abbrev pub dark_tokyo : ThemePreset
dark_tokyo = record {
  id = units "dark-tokyo";
  name = units "沉静蓝紫 (Tokyo Night)";
  desc = units "沉静蓝紫与深海夜色，低饱和夜间漫游";
  tag = units "0 GPU · 蓝紫夜色";
  mode = units "dark";
  swatches = record {
    bg = units "#16161e";
    elevated = units "#1f2335";
    accent = units "#7aa2f7";
    text = units "#c0caf5";
  };
}

abbrev pub dark_cyberpunk : ThemePreset
dark_cyberpunk = record {
  id = units "dark-cyberpunk";
  name = units "机能未来 (Cyberpunk)";
  desc = units "暗夜高能霓虹对撞，硬核科幻机能美学";
  tag = units "0 GPU · 赛博机能";
  mode = units "dark";
  swatches = record {
    bg = units "#08090f";
    elevated = units "#131622";
    accent = units "#00f0ff";
    text = units "#eaedf6";
  };
}

abbrev pub light_warm : ThemePreset
light_warm = record {
  id = units "light-warm";
  name = units "暖沙纸本 (Claude Warm)";
  desc = units "温润护眼米白纸本，无眩光如纸墨相依";
  tag = units "Claude 同款 · 护眼纸本";
  mode = units "light";
  swatches = record {
    bg = units "#f5ede0";
    elevated = units "#f4ecdf";
    accent = units "#c2652b";
    text = units "#2c2523";
  };
}

abbrev pub light_default : ThemePreset
light_default = record {
  id = units "light-default";
  name = units "极简个人助理 (Personal Assistant)";
  desc = units "极简个人助理设计，纯白清爽无杂色，日间高效专注首选";
  tag = units "个人助理 · Minimal";
  mode = units "light";
  swatches = record {
    bg = units "#f8fafc";
    elevated = units "#ffffff";
    accent = units "#2563eb";
    text = units "#0f172a";
  };
}

abbrev pub light_nord : ThemePreset
light_nord = record {
  id = units "light-nord";
  name = units "极光冰蓝 (Nord Frost)";
  desc = units "极地冰蓝清透纯色，清爽通透流畅办公";
  tag = units "0 GPU · 极光冷白";
  mode = units "light";
  swatches = record {
    bg = units "#eaf1f8";
    elevated = units "#e2ebf4";
    accent = units "#0284c7";
    text = units "#1e293b";
  };
}

abbrev pub theme_presets : List ThemePreset
theme_presets =
    dark_warm ∷ dark_default ∷ dark_oled ∷ dark_tokyo ∷ dark_cyberpunk ∷ light_warm ∷ light_default
    ∷ light_nord ∷ []

pub record ThemeConfig : Type 0 where
  pub mode : Text
  pub flavor : Text

unfoldable pub resolve_effective_mode : Text → Text
resolve_effective_mode mode = if text_eq mode (units "dark") then units "dark" else units "light"

unfoldable pub default_flavor_for_mode : Text → Text
default_flavor_for_mode mode =
    if text_eq mode (units "dark") then units "dark-default" else units "light-default"

-- `presets.find((p) => p.id === flavor)`
unfoldable pub find_in : List ThemePreset → Text → Option ThemePreset
find_in [] flavor = none
find_in (p ∷ ps) flavor = if text_eq p.id flavor then some p else find_in ps flavor

unfoldable pub find_preset : Text → Option ThemePreset
find_preset flavor = find_in theme_presets flavor

-- `!preset || preset.mode !== effectiveMode`, negated
abbrev pub fits : Option ThemePreset → Text → Bool
fits none effective = false
fits (some p) effective = text_eq p.mode effective
