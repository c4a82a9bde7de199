-- ===== src/Recap.antt =====
-- apps/desktop/web/lib/recap.ts: `cleanMarkdown`, `isCommandLike`, and the tests that its regular
-- expressions make on a text.
pub mod Choices
pub mod Steps
pub mod Milestone
pub mod Extract
pub mod Bounded
pub mod Latest
pub mod Short
pub mod Rounds
mod Tests
use open_pi.Prelude.{
  ℕ, Bool, true, false, not, ◌&&◌, ◌||◌, Option, none, some, List, [], ◌∷◌, ◌++◌, any, keep_if,
  span, drop, length, leb, ◌==◌, if◌then◌else◌,
}
use open_pi.Text.{Text, units, text_eq, starts_with, trim, is_space}
use open_pi.Text.Tags.{starts_with_i}
use open_pi.Titles.{is_word_unit}

-- `[*_`#]`
abbrev pub is_markdown : ℕ → Bool
is_markdown c = c == b'*' || c == b'_' || c == b'`' || c == b'#'

-- `[、.：:\s-]`
unfoldable pub is_lead : ℕ → Bool
is_lead c = c == 0x3001 || c == b'.' || c == 0xff1a || c == b':' || is_space c || c == b'-'

unfoldable pub clean_markdown : Text → Text
clean_markdown s = trim (span is_lead (keep_if (λ c. not (is_markdown c)) s)).1

-- the word stands at the start of the text and ends there, as `^word\b` has it
unfoldable pub is_first_word : Text → Text → Bool
is_first_word s word =
    starts_with s word
    && elim (drop (length word) s) [ [] ↦ true | c ∷ rest ↦ not (is_word_unit c) ]

unfoldable pub is_command_like : Text → Bool
is_command_like s = any (is_first_word (trim s)) (
    units "npm"
    ∷ units "pnpm"
    ∷ units "yarn"
    ∷ units "npx"
    ∷ units "git"
    ∷ units "cargo"
    ∷ units "pytest"
    ∷ units "python"
    ∷ units "node"
    ∷ units "docker"
    ∷ units "make"
    ∷ units "bun"
    ∷ units "go"
    ∷ [])

-- `/(?:word|word)/i` and what the test says of the text behind the word
unfoldable pub matches_then : List Text → (Text → Bool) → Text → Bool
matches_then words test [] = false
matches_then words test (c ∷ s) =
    let later = matches_then words test s in
    any (λ w. starts_with_i (c ∷ s) w && test (drop (length w) (c ∷ s))) words || later

-- `/(?:word|word)/i`
abbrev pub matches_any : List Text → Text → Bool
matches_any words s = matches_then words (λ rest. true) s

-- `[^。\n]*` and a unit of a class
unfoldable pub comes_before_stop : (ℕ → Bool) → Text → Bool
comes_before_stop test s = any test (span (λ c. not (c == 0x3002 || c == b'\n')) s).0

-- a unit that `.` does not match
abbrev pub is_terminator : ℕ → Bool
is_terminator c = c == b'\n' || c == b'\r' || c == 0x2028 || c == 0x2029

-- `\s*(.+)$` at the end of a trimmed line
unfoldable pub rest_of_line : Text → Option Text
rest_of_line s =
    let rest = (span is_space s).1 in
    elim rest [ [] ↦ none | c ∷ t ↦ if any is_terminator (c ∷ t) then none else some (c ∷ t) ]

-- `if (!list.includes(item)) list.push(item)`
unfoldable pub push_new : List Text → Text → List Text
push_new list item = if any (λ t. text_eq t item) list then list else list ++ item ∷ []

-- the loop that pushes the items of another list
unfoldable pub push_all : List Text → List Text → List Text
push_all list [] = list
push_all list (item ∷ rest) = push_all (push_new list item) rest

-- the length is between the bounds, which count
abbrev pub is_between : ℕ → ℕ → Text → Bool
is_between low high s = leb low (length s) && leb (length s) high
