-- ===== src/Text/Tags.antt =====
-- Marked blocks in a text: what `replace` and `match` do with patterns that consist of an opening
-- mark, the shortest text that follows, and a closing mark.
use open_pi.Prelude.{
  ℕ, zero, suc, ◌+◌, Bool, true, false, ◌&&◌, Option, none, some, [], ◌∷◌, leb, ◌==◌, if◌then◌else◌,
  length, drop,
}
use open_pi.Text.{Text, starts_with}

abbrev pub ascii_lower : ℕ → ℕ
ascii_lower c = if leb 65 c && leb c 90 then c + 32 else c

-- `s` begins with `t`, up to the case of ASCII letters, as the flag `i` has it
unfoldable pub starts_with_i : Text → Text → Bool
starts_with_i s [] = true
starts_with_i [] (d ∷ t) = false
starts_with_i (c ∷ s) (d ∷ t) = ascii_lower c == ascii_lower d && starts_with_i s t

-- what stands before and behind the first occurrence of a mark
module _ (begins : Text → Text → Bool) where
  unfoldable pub cut_at : Text → Text → Option (Text × Text)
  cut_at mark [] = none
  cut_at mark (c ∷ s) =
      let later = cut_at mark s in
      if begins (c ∷ s) mark
      then some ([], drop (length mark) (c ∷ s))
      else elim later [ none ↦ none | some (before, behind) ↦ some (c ∷ before, behind) ]

  -- the text between the marks, for `match(/open([\s\S]*?)close/)`
  unfoldable pub find_block : Text → Text → Text → Option Text
  find_block open' close' s = elim (cut_at open' s) [
    | none ↦ none
    | some (before, rest) ↦ elim (cut_at close' rest) [
      | none ↦ none
      | some (body, behind) ↦ some body
    ]
  ]

-- `\n*`
unfoldable pub drop_newlines : Text → Text
drop_newlines [] = []
drop_newlines (c ∷ s) = let rest = drop_newlines s in if c == b'\n' then rest else c ∷ s

-- what is left behind a match of `\n*open[\s\S]*?close` at the start of the text
unfoldable pub after_block : Text → Text → Text → Option Text
after_block open' close' s =
    let t = drop_newlines s in
    if starts_with t open'
    then elim (cut_at starts_with close' (drop (length open') t)) [
      | none ↦ none
      | some (body, behind) ↦ some behind
    ]
    else none

-- `s.replace(pattern, "")` with the flag `g`, where `match` gives what is left behind a match at
-- the start; the fuel bounds the units of the text
unfoldable pub remove_with : (Text → Option Text) → ℕ → Text → Text
remove_with match zero s = s
remove_with match (suc fuel) [] = []
remove_with match (suc fuel) (c ∷ s) = elim (match (c ∷ s)) [
  | none ↦ c ∷ remove_with match fuel s
  | some rest ↦ remove_with match fuel rest
]

abbrev pub remove_all : (Text → Option Text) → Text → Text
remove_all match s = remove_with match (length s) s
