-- ===== src/Text/Decimal.antt =====
-- Numbers as decimal text: `String(n)` and template literals, `parseInt(digits, 10)`.
use open_pi.Prelude.{
  ℕ, zero, suc, ◌+◌, ◌-◌, ◌*◌, ◌/◌, ◌%◌, ◌<◌, ◌≡◌, ap, sym, ◌∙◌, Bool, true, ◌&&◌, [], ◌∷◌, ◌++◌,
  foldl, arith, ltb, leb, if◌then◌else◌, Bool-cases, All, All-append, inl, inr,
}
use mathlib.Core.List.{foldl-append}
use open_pi.Text.{Text}

-- `\d`
abbrev pub is_digit : ℕ → Bool
is_digit c = leb 48 c && leb c 57

-- the digits of a number; the fuel bounds their count
show_from : ℕ → ℕ → Text
show_from zero n = []
show_from (suc fuel) n =
    let more = show_from fuel (n / 10) in
    if ltb n 10 then (48 + n) ∷ [] else more ++ (48 + n % 10) ∷ []

-- `${n}`
unfoldable pub show : ℕ → Text
unfolding show_from
show n = show_from (suc n) n

abbrev pub add_digit : ℕ → ℕ → ℕ
add_digit n c = n * 10 + (c - 48)

-- `parseInt(s, 10)` of a text of digits, exact below 2^53
unfoldable pub parse_int : Text → ℕ
parse_int s = foldl add_digit 0 s

parse_int-concat : (s : Text) (c : ℕ) → parse_int (s ++ c ∷ []) ≡ parse_int s * 10 + (c - 48)
unfolding parse_int
parse_int-concat s c = foldl-append add_digit 0 s (c ∷ [])

parse_int-show_from : (fuel n : ℕ) → n < fuel → parse_int (show_from fuel n) ≡ n
unfolding show_from
parse_int-show_from zero n h = absurd (omega arith)
parse_int-show_from (suc fuel) n h = elim (Bool-cases (ltb n 10)) [
  | inl small ↦ rw small (unfold parse_int in omega arith)
  | inr large ↦ rw (large, parse_int-concat) (ground (arith, parse_int-show_from fuel (n / 10)))
]

-- A number is read back from its text.
pub parse_int-show : (n : ℕ) → parse_int (show n) ≡ n
unfolding show
parse_int-show n = parse_int-show_from (suc n) n (omega arith)

-- Two numbers with one text are equal.
pub show_injective : (m n : ℕ) → show m ≡ show n → m ≡ n
show_injective m n e = sym (parse_int-show m) ∙ (ap parse_int e ∙ parse_int-show n)

show_from-is_digit : (fuel n : ℕ) → All (λ c. is_digit c ≡ true) (show_from fuel n)
unfolding show_from
show_from-is_digit zero n = tt
show_from-is_digit (suc fuel) n = elim (Bool-cases (ltb n 10)) [
  | inl small ↦ rw small (ground arith, tt)
  | inr large ↦ rw large (
      All-append _ (show_from fuel (n / 10)) _ (show_from-is_digit fuel (n / 10))
        (ground arith, tt))
]

-- The text of a number has digits only.
pub show-is_digit : (n : ℕ) → All (λ c. is_digit c ≡ true) (show n)
unfolding show
show-is_digit n = show_from-is_digit (suc n) n
