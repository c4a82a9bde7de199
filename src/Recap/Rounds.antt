-- ===== src/Recap/Rounds.antt =====
-- apps/desktop/web/lib/recap.ts: the rounds of the loop over the blocks of code.
use open_pi.Prelude.{
  ℕ, zero, suc, ◌-◌, ◌≤◌, ◌≡◌, refl, subst, Bool, not, ◌&&◌, Option, none, some, List, [], ◌∷◌, any,
  span, drop, take, length, arith, Bool-cases, Option-cases, inl, inr, if-then_else_lem,
  if◌then◌else◌, ◌==◌,
}
use open_pi.Text.{Text, is_empty, is_space, starts_with}
use open_pi.Recap.Steps.{
  fence, is_newline, before_newline, block_body, block_in, languages, shell_block, add_command,
  commands_from,
}

length-drop : (n : ℕ) (s : Text) → length (drop n s) ≤ length s
length-drop zero s = omega arith
length-drop (suc n) [] = omega arith
length-drop (suc n) (c ∷ s) = omega (arith, length-drop n s)

span_rest : (test : ℕ → Bool) (s : Text) → length (span test s).1 ≤ length s
span_rest test [] = omega arith
span_rest test (c ∷ s) =
    let ih = span_rest test s in
    elim (Bool-cases (test c)) [
      | inl kept ↦ rw (kept, span) (omega arith)
      | inr out ↦ rw (out, span) (omega arith)
    ]

-- what is left behind a match has at most so many units
abbrev Leaves : ℕ → Option (Text × Text) → Type 0
Leaves n none = Unit
Leaves n (some (body, behind)) = length behind ≤ n

block_body-Leaves : (white rest : Text) → Leaves (length rest) (block_body white rest)
unfolding block_body
block_body-Leaves white rest =
    if-then_else_lem P (any is_newline white && starts_with behind fence) _ none
      (λ e.
        if-then_else_lem P (is_empty body) _ _ (λ e. blank (before_newline white))
          (λ e. full (before_newline body)))
      (λ e. tt)
  where
    P : Option (Text × Text) → Type 0
    P o = Leaves (length rest) o

    body : Text
    body = (span (λ c. not (c == b'`')) rest).0

    behind : Text
    behind = (span (λ c. not (c == b'`')) rest).1

    shorter : length (drop 3 behind) ≤ length rest
    shorter = omega (arith, length-drop 3 behind, span_rest (λ c. not (c == b'`')) rest)

    blank :
        (o : Option Text)
        → P (elim o [
          | none ↦ none
          | some before ↦
              if any is_newline (take (length before - 1) before)
              then some ([], drop 3 behind)
              else none
        ])
    blank none = tt
    blank (some before) =
        if-then_else_lem P (any is_newline (take (length before - 1) before)) _ none (λ e. shorter)
          (λ e. tt)

    full : (o : Option Text) → P (elim o [ none ↦ none | some text ↦ some (text, drop 3 behind) ])
    full none = tt
    full (some text) = shorter

Leaves-weaken : (m n : ℕ) (o : Option (Text × Text)) → m ≤ n → Leaves m o → Leaves n o
Leaves-weaken m n none le h = tt
Leaves-weaken m n (some (body, behind)) le h = omega arith

first_found :
    (n : ℕ) (o later : Option (Text × Text))
    → Leaves n o
    → Leaves n later
    → Leaves n (elim o [ none ↦ later | some found ↦ some found ])
first_found n none later h k = k
first_found n (some found) later h k = h

block_in-Leaves : (langs : List Text) (s : Text) → Leaves (length s) (block_in langs s)
unfolding block_in
block_in-Leaves [] s = tt
block_in-Leaves (lang ∷ langs) s =
    if-then_else_lem (Leaves (length s)) (starts_with s lang) _ _
      (λ e.
        first_found (length s) (block_body white rest) _
          (Leaves-weaken (length rest) (length s) (block_body white rest)
            (omega (arith, length-drop (length lang) s, span_rest is_space (drop (length lang) s)))
            (block_body-Leaves white rest))
          (block_in-Leaves langs s))
      (λ e. block_in-Leaves langs s)
  where
    white : Text
    white = (span is_space (drop (length lang) s)).0

    rest : Text
    rest = (span is_space (drop (length lang) s)).1

shell_block-Leaves : (c : ℕ) (s : Text) → Leaves (length s) (shell_block (c ∷ s))
unfolding shell_block
shell_block-Leaves c s =
    if-then_else_lem (Leaves (length s)) (starts_with (c ∷ s) fence) _ none
      (λ e.
        Leaves-weaken (length (drop 2 s)) (length s) (block_in languages (drop 2 s))
          (length-drop 2 s) (block_in-Leaves languages (drop 2 s)))
      (λ e. tt)

-- The loop ends: more rounds than there are units find the same commands.
pub commands_from_fuel :
    (fuel more : ℕ) (commands : List Text) (s : Text)
    → length s ≤ fuel
    → length s ≤ more
    → commands_from fuel commands s ≡ commands_from more commands s
unfolding commands_from
commands_from_fuel zero zero commands s h k = refl
commands_from_fuel zero (suc more) commands [] h k = refl
commands_from_fuel (suc fuel) zero commands [] h k = refl
commands_from_fuel (suc fuel) (suc more) commands [] h k = refl
commands_from_fuel zero (suc more) commands (c ∷ s) h k = absurd (omega arith)
commands_from_fuel (suc fuel) zero commands (c ∷ s) h k = absurd (omega arith)
commands_from_fuel (suc fuel) (suc more) commands (c ∷ s) h k =
    elim (Option-cases (shell_block (c ∷ s))) [
      | inl out ↦
          rw (out, commands_from)
            (commands_from_fuel fuel more commands s (omega arith) (omega arith))
      | inr ((body, behind), found) ↦
          let less : length behind ≤ length s =
            subst (Leaves (length s)) found (shell_block-Leaves c s) in
          rw (found, commands_from)
            (commands_from_fuel fuel more (add_command commands body) behind (omega arith)
              (omega arith))
    ]
