-- ===== src/ToolPath.antt =====
-- apps/desktop/web/lib/helpers.ts: paths as they are shown, `cleanPath`.
use open_pi.Prelude.{
  Bool, not, ◌&&◌, ◌||◌, Option, none, some, [], ◌∷◌, ◌++◌, any, drop, if◌then◌else◌, ◌==◌, length,
  span,
}
use open_pi.Text.{Text, units, is_empty, starts_with}
use open_pi.Text.Tags.{cut_at}

-- the units up to a slash and those behind it, if both are there: `[^/]+\/` and the rest
unfoldable pub skip_part : Text → Option Text
skip_part s =
    let (part, rest) = span (λ c. not (c == b'/')) s in
    elim rest [ [] ↦ none | c ∷ behind ↦ if is_empty part then none else some behind ]

-- no line terminator is in it, which is what `.` stands for
abbrev pub one_line : Text → Bool
one_line s = not (any (λ c. c == 10 || c == 13 || c == 0x2028 || c == 0x2029) s)

-- `(.+)$` of the rest
abbrev pub line_rest : Text → Option Text
line_rest s = if not (is_empty s) && one_line s then some s else none

abbrev pub then_part : Option Text → Option Text
then_part none = none
then_part (some s) = skip_part s

abbrev pub then_line : Option Text → Option Text
then_line none = none
then_line (some s) = line_rest s

abbrev pub without_prefix : Text → Text → Option Text
without_prefix p s = if starts_with s p then some (drop (length p) s) else none

-- `split("/openpi-next/")[1]`, if there is one: what stands between the first mark and the next
abbrev pub project_part : Text → Option Text
project_part path = elim (cut_at starts_with (units "/openpi-next/") path) [
  | none ↦ none
  | some (before, behind) ↦ elim (cut_at starts_with (units "/openpi-next/") behind) [
    | none ↦ some behind
    | some (part, rest) ↦ some part
  ]
]

-- `path.replace(/^\/Users\/[^/]+\//, "~/")`
abbrev pub home_relative : Text → Text
home_relative path = elim (then_part (without_prefix (units "/Users/") path)) [
  | none ↦ path
  | some rest ↦ units "~/" ++ rest
]

unfoldable pub clean_path : Text → Text
clean_path [] = []
clean_path (c ∷ path) = elim (project_part (c ∷ path)) [
  | some part ↦ part
  | none ↦ elim (then_line (then_part (then_part (without_prefix (units "/Users/") (c ∷ path))))) [
    | some rest ↦ rest
    | none ↦ elim (then_line (then_part (without_prefix (units "~/") (c ∷ path)))) [
      | some rest ↦ rest
      | none ↦ home_relative (c ∷ path)
    ]
  ]
]
