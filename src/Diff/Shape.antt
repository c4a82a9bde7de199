-- ===== src/Diff/Shape.antt =====
-- What a parsed diff line says about the raw line that it stands for, and how the line numbers of
-- a sequence of diff lines follow from one another. Both parsers are held to this.
use open_pi.Prelude.{
  ℕ, ◌≡◌, refl, ◌⊎◌, inl, inr, Bool, true, false, none, some, [], ◌∷◌, arith, ==_iff, drop,
  Bool-cases,
}
use open_pi.Text.{Text, units, starts_with}
use open_pi.Diff.{add, del, hunk, header, ctx, DiffLine, context_content}

-- The raw line can be told from the diff line, but for the blank before a context line.
abbrev pub Writes : DiffLine → Text → Type 0
Writes l raw = elim l.kind [
  | add ↦ raw ≡ b'+' ∷ l.content
  | del ↦ raw ≡ b'-' ∷ l.content
  | hunk ↦ raw ≡ l.content
  | header ↦ raw ≡ l.content
  | ctx ↦ (raw ≡ b' ' ∷ l.content) ⊎ (raw ≡ l.content)
]

-- The numbers of a line, where the next old line is `o` and the next new line is `n`.
abbrev pub HasNumbers : ℕ → ℕ → DiffLine → Type 0
HasNumbers o n l = elim l.kind [
  | add ↦ (l.old_line_no ≡ none) × (l.new_line_no ≡ some n)
  | del ↦ (l.old_line_no ≡ some o) × (l.new_line_no ≡ none)
  | hunk ↦ (l.old_line_no ≡ none) × (l.new_line_no ≡ none)
  | header ↦ (l.old_line_no ≡ none) × (l.new_line_no ≡ none)
  | ctx ↦ (l.old_line_no ≡ some o) × (l.new_line_no ≡ some n)
]

abbrev pub is_add : DiffLine → Bool
is_add l = elim l.kind [ add ↦ true | _ ↦ false ]

abbrev pub is_del : DiffLine → Bool
is_del l = elim l.kind [ del ↦ true | _ ↦ false ]

-- `raw.slice(1)` behind a test of the first unit
pub drop_of_starts_with :
    (c : ℕ) (raw : Text) → starts_with raw (c ∷ []) ≡ true → raw ≡ c ∷ drop 1 raw
unfolding starts_with
drop_of_starts_with c [] h = ground arith
drop_of_starts_with c (d ∷ raw) h = ground (arith, ==_iff d c)

pub context-Writes : (raw : Text) → (raw ≡ b' ' ∷ context_content raw) ⊎ (raw ≡ context_content raw)
context-Writes raw = elim (Bool-cases (starts_with raw (units " "))) [
  | inl blank ↦ inl (rw blank (drop_of_starts_with b' ' raw blank))
  | inr other ↦ inr (rw other refl)
]
