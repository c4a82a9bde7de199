-- ===== src/Repetition.antt =====
-- apps/desktop/web/lib/helpers.ts: `detectRepetitionLoop`, which stops an answer that repeats
-- itself. The result's pattern and count are those of the pattern found, `none` for no loop.
pub mod Copies
pub mod Looping
mod Tests
use open_pi.Prelude.{
  ℕ, zero, suc, ◌+◌, ◌-◌, ◌*◌, ◌==◌, Bool, true, false, not, ◌&&◌, ◌||◌, Option, none, some, List,
  [], ◌∷◌, ltb, leb, if◌then◌else◌, length, take, drop, any,
}
use open_pi.Text.{Text, text_eq, is_empty, is_space, trim}

-- `s.slice(from, to)`, for `from` and `to` in the text
abbrev pub slice : ℕ → ℕ → Text → Text
slice from to s = take (to - from) (drop from s)

-- `s.slice(-n)`
abbrev pub last_units : ℕ → Text → Text
last_units n s = drop (length s - n) s

-- `[^\s\-_.*=#`~|\\/]`
unfoldable pub is_meaningful : ℕ → Bool
is_meaningful c = not (
    is_space c
    || c == b'-'
    || c == b'_'
    || c == b'.'
    || c == b'*'
    || c == b'='
    || c == b'#'
    || c == b'`'
    || c == b'~'
    || c == b'|'
    || c == b'\\'
    || c == b'/')

-- the inner loop: `n` more copies of the pattern stand before `end`, which is `pos + len`
unfoldable pub has_copies : ℕ → ℕ → Text → ℕ → Text → Bool
has_copies zero len pattern end tail = true
has_copies (suc n) len pattern end tail =
    leb len end
    && text_eq (slice (end - len) end tail) pattern
    && has_copies n len pattern (end - len) tail

-- one round of the outer loop: the tail ends in six copies of its last `len` units
unfoldable pub is_repeated : ℕ → Text → Bool
is_repeated len tail =
    leb (len * 5) (length tail)
    && any is_meaningful (last_units len tail)
    && has_copies 6 len (last_units len tail) (length tail) tail

-- the rounds `len`, `len + 1`, …, `n` of them: the first pattern that is repeated
unfoldable pub find_pattern : ℕ → ℕ → Text → Option Text
find_pattern zero len tail = none
find_pattern (suc n) len tail =
    let later = find_pattern n (len + 1) tail in
    if is_repeated len tail then some (last_units len tail) else later

-- `pattern.trim() || pattern`
abbrev pub trimmed_or_self : Text → Text
trimmed_or_self pattern = let t = trim pattern in if is_empty t then pattern else t

-- the pattern and the count of the result
unfoldable pub detect_repetition_loop : Text → Option (Text × ℕ)
detect_repetition_loop text =
    if ltb (length text) 24 then none else elim (find_pattern 29 2 (last_units 250 text)) [
      | none ↦ none
      | some pattern ↦ some (trimmed_or_self pattern, 6)
    ]
