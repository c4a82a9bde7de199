-- ===== src/Text/Split.antt =====
-- Splitting and joining at a separator of one unit.
use open_pi.Prelude.{
  ℕ, ◌≡◌, refl, ap, inl, inr, true, false, List, [], ◌∷◌, ◌++◌, arith, ◌==◌, Bool-cases, ==_refl,
  All, ◌∙◌,
}
use open_pi.Text.{Text, split, join}

-- A split has at least one part.
pub split-cons : (sep : ℕ) (s : Text) → (p : Text) × (ps : List Text) × (split sep s ≡ p ∷ ps)
unfolding split
split-cons sep [] = ([], [], refl)
split-cons sep (c ∷ s) =
    let (p, ps, e) = split-cons sep s in
    elim (Bool-cases (c == sep)) [
      | inl same ↦ ([], p ∷ ps, ground arith)
      | inr other ↦ (c ∷ p, ps, ground arith)
    ]

pub join-cons :
    (sep : Text) (c : ℕ) (p : Text) (ps : List Text)
    → join sep ((c ∷ p) ∷ ps) ≡ c ∷ join sep (p ∷ ps)
unfolding join
join-cons sep c p [] = refl
join-cons sep c p (q ∷ ps) = refl

module _ (sep c : ℕ) (s p : Text) (ps : List Text) (e : split sep s ≡ p ∷ ps) where
  -- at a separator a new part begins
  pub split_sep : (c == sep) ≡ true → split sep (c ∷ s) ≡ [] ∷ p ∷ ps
  unfolding split
  split_sep h = ground arith

  -- any other unit belongs to the first part
  pub split_other : (c == sep) ≡ false → split sep (c ∷ s) ≡ (c ∷ p) ∷ ps
  unfolding split
  split_other h = ground arith

-- Joining the parts of a split gives the text back.
pub join-split : (sep : ℕ) (s : Text) → join (sep ∷ []) (split sep s) ≡ s
unfolding join
join-split sep [] = unfold split in refl
join-split sep (c ∷ s) =
    let (p, ps, e) = split-cons sep s in
    let ih : join (sep ∷ []) (p ∷ ps) ≡ s = (rw e at (join-split sep s)) in
    elim (Bool-cases (c == sep)) [
      | inl same ↦ let here : c ≡ sep = ground arith in rw (split_sep sep c s p ps e same) cc
      | inr other ↦ rw (split_other sep c s p ps e other, join-cons) (cc)
    ]

-- A part of a split holds no separator.
abbrev pub Lacks : ℕ → Text → Type 0
Lacks sep s = All (λ c. (c == sep) ≡ false) s

pub split-Lacks : (sep : ℕ) (s : Text) → All (Lacks sep) (split sep s)
split-Lacks sep [] = unfold split in (tt, tt)
split-Lacks sep (c ∷ s) =
    let (p, ps, e) = split-cons sep s in
    let (first, others) = (rw e at (split-Lacks sep s)) in
    elim (Bool-cases (c == sep)) [
      | inl same ↦ rw (split_sep sep c s p ps e same) (tt, (first, others))
      | inr other ↦ rw (split_other sep c s p ps e other) ((other, first), others)
    ]

pub split_eq : (sep : ℕ) (p : Text) → Lacks sep p → split sep p ≡ p ∷ []
split_eq sep [] h = unfold split in refl
split_eq sep (c ∷ p) (h, hs) = split_other sep c p p [] (split_eq sep p hs) h

pub split_part :
    (sep : ℕ) (p rest : Text) → Lacks sep p → split sep (p ++ sep ∷ rest) ≡ p ∷ split sep rest
split_part sep [] rest h =
    let (q, qs, e) = split-cons sep rest in rw e (split_sep sep sep rest q qs e (==_refl sep))
split_part sep (c ∷ p) rest (h, hs) =
    split_other sep c (p ++ sep ∷ rest) p (split sep rest) (split_part sep p rest hs) h

-- Splitting what was joined gives the parts back, if there is one and none holds the separator.
pub split-join :
    (sep : ℕ) (p : Text) (ps : List Text)
    → All (Lacks sep) (p ∷ ps)
    → split sep (join (sep ∷ []) (p ∷ ps)) ≡ p ∷ ps
unfolding join
split-join sep p [] (h, _) = split_eq sep p h
split-join sep p (q ∷ ps) (h, hs) =
    split_part sep p (join (sep ∷ []) (q ∷ ps)) h ∙ ap (◌∷◌ p) (split-join sep q ps hs)
