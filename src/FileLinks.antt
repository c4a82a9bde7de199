-- ===== src/FileLinks.antt =====
-- apps/desktop/web/lib/file-links.ts: `parseFileLink`, which reads the target of a link as a path
-- with lines. The parsing of URLs and the decoding of percent signs are parameters.
pub mod Paths
mod Tests
use Prim.Native.String.{String}
use mathlib.Core.List.{reverse}
use open_pi.Prelude.{
  ℕ, ◌+◌, Bool, true, false, not, ◌&&◌, ◌||◌, Option, none, some, List, [], ◌∷◌, ◌++◌, any, span,
  drop, if◌then◌else◌, leb, ◌==◌,
}
use open_pi.Text.{Text, units, text_eq, is_empty, trim, to_lower, starts_with}
use open_pi.Text.Decimal.{is_digit, parse_int}
use open_pi.Text.Tags.{ascii_lower, starts_with_i}

pub record ParsedFileLink : Type 0 where
  pub file_path : Text
  pub line_start : Option ℕ
  pub line_end : Option ℕ
  pub raw_href : Text

-- the host and the path of a URL
pub record ParsedUrl : Type 0 where
  pub host : Text
  pub pathname : Text

abbrev pub known_file_extensions : List Text
known_file_extensions =
    units "ts"
    ∷ units "tsx"
    ∷ units "js"
    ∷ units "jsx"
    ∷ units "mjs"
    ∷ units "cjs"
    ∷ units "json"
    ∷ units "css"
    ∷ units "scss"
    ∷ units "sass"
    ∷ units "less"
    ∷ units "html"
    ∷ units "htm"
    ∷ units "py"
    ∷ units "pyw"
    ∷ units "rs"
    ∷ units "go"
    ∷ units "c"
    ∷ units "h"
    ∷ units "cpp"
    ∷ units "hpp"
    ∷ units "cc"
    ∷ units "java"
    ∷ units "kt"
    ∷ units "kts"
    ∷ units "rb"
    ∷ units "sh"
    ∷ units "bash"
    ∷ units "zsh"
    ∷ units "fish"
    ∷ units "md"
    ∷ units "markdown"
    ∷ units "yaml"
    ∷ units "yml"
    ∷ units "toml"
    ∷ units "sql"
    ∷ units "graphql"
    ∷ units "txt"
    ∷ units "log"
    ∷ units "lock"
    ∷ units "env"
    ∷ units "gitignore"
    ∷ units "dockerignore"
    ∷ units "xml"
    ∷ units "svg"
    ∷ []

-- `/^(https?|mailto|tel|ftp|javascript|data|conversation):/i`
unfoldable pub is_web_link : Text → Bool
is_web_link s = any (starts_with_i s) (
    units "http:"
    ∷ units "https:"
    ∷ units "mailto:"
    ∷ units "tel:"
    ∷ units "ftp:"
    ∷ units "javascript:"
    ∷ units "data:"
    ∷ units "conversation:"
    ∷ [])

-- what stands before the first `#`, and behind it, empty where there is none
unfoldable pub cut_hash : Text → Text × Text
cut_hash [] = ([], [])
cut_hash (c ∷ s) = let (path, hash) = cut_hash s in if c == b'#' then ([], s) else (c ∷ path, hash)

abbrev pub is_letter : ℕ → Bool
is_letter c = leb b'a' (ascii_lower c) && leb (ascii_lower c) b'z'

-- `/^[a-zA-Z]:/`
unfoldable pub has_drive : Text → Bool
has_drive (c ∷ d ∷ s) = is_letter c && d == b':'
has_drive _ = false

-- `/^\/[a-zA-Z]:/` and the path without its first slash
unfoldable pub without_drive_slash : Text → Text
without_drive_slash [] = []
without_drive_slash (c ∷ s) = if c == b'/' && has_drive s then s else c ∷ s

unfoldable pub drop_slashes : Text → Text
drop_slashes [] = []
drop_slashes (c ∷ s) = if c == b'/' then drop_slashes s else c ∷ s

-- `s.replace(/^file:\/+/i, "/")`
unfoldable pub without_file : Text → Text
without_file s = if starts_with_i s (units "file:/") then b'/' ∷ drop_slashes (drop 5 s) else s

abbrev pub is_slash : ℕ → Bool
is_slash c = c == b'\\' || c == b'/'

unfoldable pub drop_any_slashes : Text → Text
drop_any_slashes [] = []
drop_any_slashes (c ∷ s) = if is_slash c then drop_any_slashes s else c ∷ s

-- `s.replace(/[\\/]+$/, "")`
unfoldable pub without_end_slashes : Text → Text
without_end_slashes s = reverse (drop_any_slashes (reverse s))

abbrev pub is_alphanumeric : ℕ → Bool
is_alphanumeric c = is_letter c || is_digit c

-- `/\.([a-zA-Z0-9]+)$/`: the last part of the name, from its reversed text
abbrev pub extension_before : Text × Text → Text
extension_before (ext, b) = elim b [
  | [] ↦ []
  | c ∷ rest ↦ if c == b'.' then to_lower (reverse ext) else []
]

unfoldable pub extension : Text → Text
extension s = extension_before (span is_alphanumeric (reverse (without_end_slashes s)))

unfoldable pub has_known_extension : Text → Bool
has_known_extension s = any (λ e. text_eq e (extension s)) known_file_extensions

unfoldable pub has_path_prefix : Text → Bool
has_path_prefix s =
    starts_with s (units "/") || starts_with s (units "./") || starts_with s (units "../")

-- a path that is not written as a file URL, and whether it is one of a file
unfoldable pub plain_path : Text → Text × Bool
plain_path path_part =
    let clean = without_file path_part in
    let path =
      if starts_with_i clean (units "Users/") || starts_with_i clean (units "home/")
      then b'/' ∷ clean
      else clean in
    (path, has_path_prefix path || has_known_extension path)

-- the path of a URL, with its host as its first folder
abbrev pub url_path : ParsedUrl → Text
url_path url =
    if not (is_empty url.host) && not (has_drive url.host)
    then b'/' ∷ (url.host ++ url.pathname)
    else url.pathname

-- `L?\d+` at the start: the number and what follows
abbrev pub number_of : Text × Text → Option (ℕ × Text)
number_of (digits, rest) = if is_empty digits then none else some (parse_int digits, rest)

unfoldable pub line_number : Text → Option (ℕ × Text)
line_number [] = none
line_number (c ∷ s) = number_of (span is_digit (if ascii_lower c == b'l' then s else c ∷ s))

-- `(?:-(?:L)?(\d+))?$`
unfoldable pub second_line : Text → Option (Option ℕ)
second_line [] = some none
second_line (c ∷ s) =
    if c == b'-'
    then elim (line_number s) [
      | none ↦ none
      | some (n, rest) ↦ if is_empty rest then some (some n) else none
    ]
    else none

-- the lines of a hash, if it matches `/^(?:L)?(\d+)(?:-(?:L)?(\d+))?$/i`
unfoldable pub hash_lines : Text → Option ℕ × Option ℕ
hash_lines hash = elim (line_number hash) [
  | none ↦ (none, none)
  | some (n, rest) ↦ elim (second_line rest) [ none ↦ (none, none) | some last ↦ (some n, last) ]
]

-- the link to a path, unless it is none of a file or empty once its last slashes are gone
unfoldable pub file_link : Text → Text → Text × Bool → Option ParsedFileLink
file_link href hash (path, is_file) =
    let clean = without_end_slashes path in
    if not is_file || is_empty clean
    then none
    else some (record {
      file_path = clean;
      line_start = (hash_lines hash).0;
      line_end = (hash_lines hash).1;
      raw_href = href;
    })

-- `parse_url` is `new URL(…)`, and `decode` is `decodeURIComponent`; `none` where they throw
module _ (parse_url : Text → Option ParsedUrl) (decode : Text → Option Text) where
  unfoldable pub decoded_path : Text → Option Text
  decoded_path path_part = elim (parse_url path_part) [
    | none ↦ none
    | some url ↦ decode (url_path url)
  ]

  unfoldable pub file_url_path : Text → Text
  file_url_path path_part = elim (decoded_path path_part) [
    | none ↦ without_file path_part
    | some path ↦ without_drive_slash path
  ]

  unfoldable pub path_of : Text → Text × Bool
  path_of path_part =
      if starts_with path_part (units "file://")
      then (file_url_path path_part, true)
      else plain_path path_part

  unfoldable pub parse_file_link : Text → Option ParsedFileLink
  parse_file_link href =
      let trimmed = trim href in
      let (path_part, hash) = cut_hash trimmed in
      if is_empty href || is_web_link trimmed then none else file_link href hash (path_of path_part)
