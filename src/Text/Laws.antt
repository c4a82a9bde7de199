-- ===== src/Text/Laws.antt =====
-- Equality and prefixes of texts.
use open_pi.Prelude.{
  ◌≡◌, refl, subst, ◌↔◌, inl, inr, Bool-cases, true, List, [], ◌∷◌, ◌++◌, arith, any, All,
}
use open_pi.Text.{Text, text_eq, starts_with}

pub text_eq_refl : (s : Text) → text_eq s s ≡ true
unfolding text_eq
text_eq_refl [] = refl
text_eq_refl (c ∷ s) = ground (arith, text_eq_refl s)

pub eq_of_text_eq : (s t : Text) → text_eq s t ≡ true → s ≡ t
unfolding text_eq
eq_of_text_eq [] [] h = refl
eq_of_text_eq [] (d ∷ t) h = ground arith
eq_of_text_eq (c ∷ s) [] h = ground arith
eq_of_text_eq (c ∷ s) (d ∷ t) h = ground (arith, eq_of_text_eq s t)

-- The test decides equality.
pub text_eq_iff : (s t : Text) → (text_eq s t ≡ true) ↔ (s ≡ t)
text_eq_iff s t = (eq_of_text_eq s t, λ e. subst_refl s t e)
  where
    subst_refl : (a b : Text) → a ≡ b → text_eq a b ≡ true
    subst_refl a b e = let r : text_eq a a ≡ true = text_eq_refl a in ground arith

pub starts_with_append : (s t : Text) → starts_with (s ++ t) s ≡ true
unfolding starts_with
starts_with_append [] t = refl
starts_with_append (c ∷ s) t = ground (arith, starts_with_append s t)

-- what holds of each of the texts holds of a text that is among them
pub any-All :
    (P : Text → Type 0) (vs : List Text) (v : Text)
    → any (λ w. text_eq w v) vs ≡ true
    → All P vs
    → P v
any-All P [] v h a = absurd (cc)
any-All P (w ∷ vs) v h (p, ps) = elim (Bool-cases (text_eq w v)) [
  | inl same ↦ subst P (eq_of_text_eq w v same) p
  | inr other ↦ any-All P vs v (ground arith) ps
]

pub text_eq_comm : (s t : Text) → text_eq s t ≡ text_eq t s
unfolding text_eq
text_eq_comm [] [] = refl
text_eq_comm [] (d ∷ t) = refl
text_eq_comm (c ∷ s) [] = refl
text_eq_comm (c ∷ s) (d ∷ t) = ground (arith, text_eq_comm s t)
