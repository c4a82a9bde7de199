-- ===== src/Text.antt =====
-- Text: a JavaScript string as the list of its UTF-16 code units, with the string operations that
-- the program uses (`===`, `startsWith`, `includes`, `trim`, `split`, `join`, `toLowerCase`,
-- number to string). `units` gives the code units of a literal.
pub mod Laws
pub mod Trim
pub mod Marks
pub mod Split
pub mod Decimal
pub mod Tags
use Prim.Native.Char.{code}
use Prim.Native.String.{String}
use mathlib.Core.List.{reverse}
use open_pi.Prelude.{
  ℕ, zero, suc, ◌+◌, ◌-◌, ◌*◌, ◌/◌, ◌%◌, Bool, true, false, not, ◌&&◌, ◌||◌, List, [], ◌∷◌, ◌++◌,
  ltb, leb, ◌==◌, if◌then◌else◌, any,
}

abbrev pub Text : Type 0
Text = List ℕ

-- the code units of one code point: itself, or a surrogate pair
abbrev pub encode : ℕ → Text
encode c =
    if ltb c 0x10000
    then c ∷ []
    else (0xd800 + (c - 0x10000) / 0x400) ∷ (0xdc00 + (c - 0x10000) % 0x400) ∷ []

abbrev pub units : String → Text
units String.[] = []
units (String.◌∷◌ c s) = encode (code c) ++ units s

-- `a === b`
unfoldable pub text_eq : Text → Text → Bool
text_eq [] [] = true
text_eq [] (d ∷ t) = false
text_eq (c ∷ s) [] = false
text_eq (c ∷ s) (d ∷ t) = c == d && text_eq s t

-- `!s`
abbrev pub is_empty : Text → Bool
is_empty [] = true
is_empty (c ∷ s) = false

-- `s.startsWith(t)`
unfoldable pub starts_with : Text → Text → Bool
starts_with s [] = true
starts_with [] (d ∷ t) = false
starts_with (c ∷ s) (d ∷ t) = c == d && starts_with s t

-- `s.includes(t)`
unfoldable pub includes : Text → Text → Bool
unfolding starts_with
includes [] t = starts_with [] t
includes (c ∷ s) t = starts_with (c ∷ s) t || includes s t

-- white space and line terminators, which `trim` removes and `\s` matches
unfoldable pub is_space : ℕ → Bool
is_space c =
    (leb 9 c && leb c 13)
    || c == 32
    || c == 0xa0
    || c == 0x1680
    || (leb 0x2000 c && leb c 0x200a)
    || c == 0x2028
    || c == 0x2029
    || c == 0x202f
    || c == 0x205f
    || c == 0x3000
    || c == 0xfeff

unfoldable pub trim_start : Text → Text
unfolding is_space
trim_start [] = []
trim_start (c ∷ s) = if is_space c then trim_start s else c ∷ s

-- `s.trim()`
unfoldable pub trim : Text → Text
unfolding trim_start
trim s = reverse (trim_start (reverse (trim_start s)))

-- `s.toLowerCase()`, as far as it can give an ASCII letter: the capital letters, the Kelvin sign
-- and the capital I with a dot. Other units stay, so that comparisons with ASCII texts are exact.
unfoldable pub lower_unit : ℕ → Text
lower_unit c =
    if leb 65 c && leb c 90
    then (c + 32) ∷ []
    else if c == 0x212a
    then 107 ∷ []
    else if c == 0x130
    then 105 ∷ 0x307 ∷ []
    else c ∷ []

unfoldable pub to_lower : Text → Text
unfolding lower_unit
to_lower [] = []
to_lower (c ∷ s) = lower_unit c ++ to_lower s

-- `s.split(sep)` at a separator of one unit
unfoldable pub split : ℕ → Text → List Text
split sep [] = [] ∷ []
split sep (c ∷ s) = elim (split sep s) [
  | [] ↦ [] ∷ []
  | part ∷ parts ↦ if c == sep then [] ∷ part ∷ parts else (c ∷ part) ∷ parts
]

-- `parts.join(sep)`
unfoldable pub join : Text → List Text → Text
join sep [] = []
join sep (part ∷ []) = part
join sep (part ∷ next ∷ parts) = part ++ (sep ++ join sep (next ∷ parts))
