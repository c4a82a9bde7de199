-- ===== src/Text/Marks.antt =====
-- Where the marks of a block are found, and what is left when blocks are removed.
use open_pi.Prelude.{
  ℕ, zero, suc, ◌+◌, ◌≡◌, refl, ap, sym, ◌∙◌, true, false, Option, none, some, [], ◌∷◌, ◌++◌, ◌==◌,
  length, length-append, drop, drop_append_self, append-nil, any, Bool-cases, inl, inr, arith,
}
use open_pi.Text.{Text, starts_with, includes}
use open_pi.Text.Laws.{starts_with_append}
use open_pi.Text.Split.{Lacks}
use open_pi.Text.Tags.{cut_at, drop_newlines, after_block, remove_with, remove_all}
use open_pi.Text.Trim.{EndsFirm}

-- nothing, or a newline and what follows it
abbrev pub IsSealed : Text → Type 0
IsSealed [] = Unit
IsSealed (c ∷ t) = (c == b'\n') ≡ true

-- a mark without a newline does not reach over one
starts_with-append :
    (v tail mark : Text)
    → Lacks b'\n' mark
    → IsSealed tail
    → starts_with v mark ≡ false
    → starts_with (v ++ tail) mark ≡ false
unfolding starts_with
starts_with-append v tail [] l sealed h = ground arith
starts_with-append [] [] (m ∷ mark) l sealed h = refl
starts_with-append [] (c ∷ t) (m ∷ mark) (other, l) sealed h = ground arith
starts_with-append (c ∷ v) tail (m ∷ mark) (other, l) sealed h =
    elim (Bool-cases (starts_with v mark)) [
      | inl begins ↦ ground arith
      | inr not ↦
          let rest : starts_with (v ++ tail) mark ≡ false =
            starts_with-append v tail mark l sealed not in
          ground arith
    ]

-- what does not include a mark does not begin with it
starts_with-includes :
    (c : ℕ) (s mark : Text) → includes (c ∷ s) mark ≡ false → starts_with (c ∷ s) mark ≡ false
unfolding includes
starts_with-includes c s mark h = ground arith

includes-tail : (c : ℕ) (s mark : Text) → includes (c ∷ s) mark ≡ false → includes s mark ≡ false
unfolding includes
includes-tail c s mark h = ground arith

EndsFirm-tail : (c : ℕ) (s : Text) → EndsFirm (c ∷ s) → EndsFirm s
EndsFirm-tail c [] h = tt
EndsFirm-tail c (d ∷ s) h = h

-- no mark stands behind the newlines of a text that does not include it
drop_newlines-append :
    (c : ℕ) (s tail mark : Text)
    → Lacks b'\n' mark
    → IsSealed tail
    → EndsFirm (c ∷ s)
    → includes (c ∷ s) mark ≡ false
    → starts_with (drop_newlines (c ∷ s ++ tail)) mark ≡ false
unfolding drop_newlines
drop_newlines-append c [] tail mark l sealed firm out =
    rw firm (starts_with-append (c ∷ []) tail mark l sealed (starts_with-includes c [] mark out))
drop_newlines-append c (d ∷ s) tail mark l sealed firm out = elim (Bool-cases (c == b'\n')) [
  | inl newline ↦
      rw newline
        (drop_newlines-append d s tail mark l sealed firm (includes-tail c (d ∷ s) mark out))
  | inr other ↦
      rw other (
        starts_with-append (c ∷ d ∷ s) tail mark l sealed (starts_with-includes c (d ∷ s) mark out))
]

module _ (match : Text → Option Text) where
  remove_with-none :
      (c : ℕ) (s : Text) (fuel : ℕ)
      → match (c ∷ s) ≡ none
      → remove_with match (suc fuel) (c ∷ s) ≡ c ∷ remove_with match fuel s
  unfolding remove_with
  remove_with-none c s fuel h = rw (h, remove_with) refl

  remove_with-nil : (fuel : ℕ) → remove_with match fuel [] ≡ []
  unfolding remove_with
  remove_with-nil zero = refl
  remove_with-nil (suc fuel) = refl

  pub remove_with-some :
      (c : ℕ) (s : Text) (fuel : ℕ)
      → match (c ∷ s) ≡ some []
      → remove_with match (suc fuel) (c ∷ s) ≡ []
  unfolding remove_with
  remove_with-some c s fuel h = rw (h, remove_with) (remove_with-nil fuel)

module _ (opening closing : Text) (lacks : Lacks b'\n' opening) where
  after_block-append :
      (c : ℕ) (s tail : Text)
      → IsSealed tail
      → EndsFirm (c ∷ s)
      → includes (c ∷ s) opening ≡ false
      → after_block opening closing (c ∷ s ++ tail) ≡ none
  unfolding after_block
  after_block-append c s tail sealed firm out =
      rw (drop_newlines-append c s tail opening lacks sealed firm out) refl

  -- a text without the opening mark is kept
  pub remove_with-append :
      (p tail : Text) (fuel : ℕ)
      → IsSealed tail
      → EndsFirm p
      → includes p opening ≡ false
      → remove_with (after_block opening closing) (length p + fuel) (p ++ tail)
        ≡ p ++ remove_with (after_block opening closing) fuel tail
  remove_with-append [] tail fuel sealed firm out =
      let e : 0 + fuel ≡ fuel = omega arith in rw e refl
  remove_with-append (c ∷ s) tail fuel sealed firm out =
      let e : suc (length s) + fuel ≡ suc (length s + fuel) = omega arith in
      ap (λ n. remove_with (after_block opening closing) n (c ∷ s ++ tail)) e
      ∙ remove_with-none _ c (s ++ tail) _ (after_block-append c s tail sealed firm out)
      ∙ ap (◌∷◌ c) (
          remove_with-append s tail fuel sealed (EndsFirm-tail c s firm)
            (includes-tail c s opening out))

  -- a text without the opening mark is kept whole
  pub remove_all-append :
      (p tail : Text)
      → IsSealed tail
      → EndsFirm p
      → includes p opening ≡ false
      → remove_all (after_block opening closing) (p ++ tail)
        ≡ p ++ remove_all (after_block opening closing) tail
  remove_all-append p tail sealed firm out =
      ap (λ n. remove_with (after_block opening closing) n (p ++ tail)) (length-append p tail)
      ∙ remove_with-append p tail (length tail) sealed firm out

  pub remove_all_lem :
      (p : Text)
      → EndsFirm p
      → includes p opening ≡ false
      → remove_all (after_block opening closing) p ≡ p
  unfolding remove_with
  remove_all_lem p firm out =
      ap (remove_all (after_block opening closing)) (sym (append-nil p))
      ∙ remove_all-append p [] tt firm out
      ∙ append-nil p

-- a text in which no unit is the separator
pub any-Lacks : (sep : ℕ) (s : Text) → any (λ c. c == sep) s ≡ false → Lacks sep s
any-Lacks sep [] h = tt
any-Lacks sep (c ∷ s) h = (ground arith, any-Lacks sep s (ground arith))

drop_all : (s : Text) → drop (length s) s ≡ []
drop_all [] = refl
drop_all (c ∷ s) = drop_all s

starts_with_refl : (s : Text) → starts_with s s ≡ true
unfolding starts_with
starts_with_refl [] = refl
starts_with_refl (c ∷ s) = ground (arith, starts_with_refl s)

pub starts_with_other :
    (c m : ℕ) (s mark : Text) → (m == c) ≡ false → starts_with (c ∷ s) (m ∷ mark) ≡ false
unfolding starts_with
starts_with_other c m s mark h = ground arith

-- the first closing mark is the one at the end
cut_at-append :
    (u : Text) (m : ℕ) (mark : Text)
    → Lacks b'\n' (m ∷ mark)
    → includes u (m ∷ mark) ≡ false
    → cut_at starts_with (m ∷ mark) (u ++ b'\n' ∷ m ∷ mark) ≡ some (u ++ b'\n' ∷ [], [])
unfolding cut_at
cut_at-append [] m mark (other, l) out =
    rw (starts_with_other b'\n' m (m ∷ mark) mark other, starts_with_refl (m ∷ mark), drop_all mark)
      refl
cut_at-append (c ∷ u) m mark l out =
    rw
      (
        starts_with-append (c ∷ u) (b'\n' ∷ m ∷ mark) (m ∷ mark) l refl
            (starts_with-includes c u (m ∷ mark) out),
        cut_at-append u m mark l (includes-tail c u (m ∷ mark) out),
      )
      refl

module _ (o : ℕ) (opening : Text) (k : ℕ) (closing : Text) where
  -- a block behind two newlines, whose body does not include the closing mark, is taken to its end
  pub after_block-some :
      (body : Text)
      → (o == b'\n') ≡ false
      → Lacks b'\n' (k ∷ closing)
      → includes body (k ∷ closing) ≡ false
      → after_block
          (o ∷ opening)
          (k ∷ closing)
          (b'\n' ∷ b'\n' ∷ (o ∷ opening) ++ (body ++ b'\n' ∷ k ∷ closing))
        ≡ some []
  unfolding after_block drop_newlines
  after_block-some body other lacks out =
      rw
        (
          other,
          starts_with_append (o ∷ opening) (body ++ b'\n' ∷ k ∷ closing),
          drop_append_self opening (body ++ b'\n' ∷ k ∷ closing),
          cut_at-append body k closing lacks out,
        )
        refl
