-- ===== src/FileLinks/Paths.antt =====
-- The paths that `parseFileLink` gives.
use mathlib.Core.List.{reverse, reverse-reverse}
use open_pi.Prelude.{
  ◌≡◌, refl, sym, subst, Bool, true, false, not, ◌||◌, Option, none, some, [], ◌∷◌, if◌then◌else◌,
  Bool-cases, inl, inr, arith,
}
use open_pi.Text.{Text, is_empty, trim}
use open_pi.FileLinks.{
  ParsedFileLink, ParsedUrl, is_slash, drop_any_slashes, without_end_slashes, file_link,
  is_web_link, parse_file_link,
}

-- the reversed text begins with a unit that is no slash
abbrev pub HasNoSlash : Text → Type 0
HasNoSlash [] = Unit
HasNoSlash (c ∷ s) = is_slash c ≡ false

drop_any_slashes-HasNoSlash : (s : Text) → HasNoSlash (drop_any_slashes s)
unfolding drop_any_slashes
drop_any_slashes-HasNoSlash [] = tt
drop_any_slashes-HasNoSlash (c ∷ s) = go (is_slash c) refl (drop_any_slashes-HasNoSlash s)
  where
    go :
        (b : Bool)
        → is_slash c ≡ b
        → HasNoSlash (drop_any_slashes s)
        → HasNoSlash (if b then drop_any_slashes s else c ∷ s)
    go true e h = h
    go false e h = e

-- a path that is not empty and does not end with a slash, of the link itself
abbrev pub IsLink : Text → ParsedFileLink → Type 0
IsLink href link =
    (is_empty link.file_path ≡ false) × HasNoSlash (reverse link.file_path) × (link.raw_href ≡ href)

-- the link, if there is one
abbrev pub IsLinkOrNone : Text → Option ParsedFileLink → Type 0
IsLinkOrNone href none = Unit
IsLinkOrNone href (some link) = IsLink href link

without_end_slashes-HasNoSlash : (s : Text) → HasNoSlash (reverse (without_end_slashes s))
unfolding without_end_slashes
without_end_slashes-HasNoSlash s =
    subst HasNoSlash (sym (reverse-reverse (drop_any_slashes (reverse s))))
      (drop_any_slashes-HasNoSlash (reverse s))

file_link-IsLink :
    (href hash : Text) (path : Text) (is_file : Bool)
    → IsLinkOrNone href (file_link href hash (path, is_file))
unfolding file_link
file_link-IsLink href hash path is_file =
    elim (Bool-cases (not is_file || is_empty (without_end_slashes path))) [
      | inl refused ↦ rw refused tt
      | inr taken ↦
          let full : is_empty (without_end_slashes path) ≡ false = ground arith in
          rw taken (full, without_end_slashes-HasNoSlash path, refl)
    ]

-- Whatever the parsing of URLs gives, a link that is taken for one of a file has a path that is not
-- empty and does not end with a slash or a backslash, and it keeps its text.
pub parse_file_link-IsLink :
    (parse_url : Text → Option ParsedUrl) (decode : Text → Option Text) (href : Text)
    → IsLinkOrNone href (parse_file_link parse_url decode href)
unfolding parse_file_link
parse_file_link-IsLink parse_url decode href =
    elim (Bool-cases (is_empty href || is_web_link (trim href))) [
      | inl refused ↦ rw refused tt
      | inr taken ↦ rw taken (file_link-IsLink href _ _ _)
    ]
