-- ===== src/Markdown/Inline.antt =====
-- apps/desktop/web/lib/markdown.tsx: `renderInline`, which reads the text of a block as nodes.
-- `parseFileLink` has the parsing of URLs and the decoding of percent signs as parameters.
use open_pi.Prelude.{
  ℕ, zero, suc, Bool, not, ◌&&◌, ◌||◌, Option, none, some, List, [], ◌∷◌, ◌++◌, map, span, drop,
  length, ◌==◌, if◌then◌else◌,
}
use open_pi.Text.{Text, units, is_empty, is_space, starts_with}
use open_pi.FileLinks.{ParsedFileLink, ParsedUrl, parse_file_link}

-- what the pattern matches: `[label](href)`, or a body between two marks
pub data Token : Type 0 where
  link_token : Text → Text → Token
  code_token strong_token em_token : Text → Text → Token

-- the text that a token was read from; the marks are the first argument of the others
unfoldable pub token_text : Token → Text
token_text (link_token label href) = b'[' ∷ label ++ (b']' ∷ b'(' ∷ href ++ b')' ∷ [])
token_text (code_token mark body) = mark ++ (body ++ mark)
token_text (strong_token mark body) = mark ++ (body ++ mark)
token_text (em_token mark body) = mark ++ (body ++ mark)

-- `\[[^\]]+\]\([^)\s]+\)` at the start: the token, and what follows
unfoldable pub link_here : Text → Option (Token × Text)
link_here [] = none
link_here (c ∷ s) =
    let (label, rest) = span (λ d. not (d == b']')) s in
    let (href, behind) = span (λ d. not (d == b')' || is_space d)) (drop 2 rest) in
    if c == b'['
      && not (is_empty label)
      && starts_with rest (units "](")
      && not (is_empty href)
      && starts_with behind (units ")")
    then some (link_token label href, drop 1 behind)
    else none

-- the mark, a body without its unit, and the mark again
unfoldable pub marked_here : (Text → Text → Token) → Text → ℕ → Text → Option (Token × Text)
marked_here token mark unit s =
    let (body, rest) = span (λ d. not (d == unit)) (drop (length mark) s) in
    if starts_with s mark && not (is_empty body) && starts_with rest mark
    then some (token mark body, drop (length mark) rest)
    else none

-- the first alternative that matches
abbrev pub or_token : Option (Token × Text) → Option (Token × Text) → Option (Token × Text)
or_token none other = other
or_token (some found) other = some found

unfoldable pub token_here : Text → Option (Token × Text)
token_here s = or_token (link_here s) (
    or_token (marked_here code_token (units "`") b'`' s) (
      or_token (marked_here strong_token (units "**") b'*' s) (
        or_token (marked_here strong_token (units "__") b'_' s) (
          or_token (marked_here em_token (units "*") b'*' s)
            (marked_here em_token (units "_") b'_' s)))))

pub data Piece : Type 0 where
  plain_piece : Text → Piece
  token_piece : Token → Piece

-- the text between two tokens, if there is any
abbrev pub flush : Text → List Piece → List Piece
flush [] pieces = pieces
flush (c ∷ s) pieces = plain_piece (c ∷ s) ∷ pieces

-- the loop over the matches; `before` is the text since the last one, and the fuel bounds the units
unfoldable pub pieces_from : ℕ → Text → Text → List Piece
pieces_from zero before s = flush (before ++ s) []
pieces_from (suc fuel) before [] = flush before []
pieces_from (suc fuel) before (c ∷ s) = elim (token_here (c ∷ s)) [
  | none ↦ pieces_from fuel (before ++ c ∷ []) s
  | some (token, rest) ↦ flush before (token_piece token ∷ pieces_from fuel [] rest)
]

unfoldable pub pieces_of : Text → List Piece
pieces_of s = pieces_from (length s) [] s

pub data Node : Type 0 where
  text_node : Text → Node
  link_node : Text → Text → Node
  file_node : Text → ParsedFileLink → Node
  code_node strong_node em_node : Text → Node

-- the address is one of the web or of a mail
unfoldable pub is_safe_href : Text → Bool
is_safe_href href =
    starts_with href (units "http://")
    || starts_with href (units "https://")
    || starts_with href (units "mailto:")

module _ (parse_url : Text → Option ParsedUrl) (decode : Text → Option Text) where
  unfoldable pub token_node : Token → Node
  token_node (link_token label href) =
      if is_safe_href href
      then link_node label href
      else elim (parse_file_link parse_url decode href) [
        | none ↦ text_node (token_text (link_token label href))
        | some found ↦ file_node label found
      ]
  token_node (code_token mark body) = code_node body
  token_node (strong_token mark body) = strong_node body
  token_node (em_token mark body) = em_node body

  abbrev pub piece_node : Piece → Node
  piece_node (plain_piece s) = text_node s
  piece_node (token_piece t) = token_node t

  unfoldable pub render_inline : Text → List Node
  render_inline s = map piece_node (pieces_of s)
