-- ===== src/Text/Trim.antt =====
-- The ends of trimmed texts.
use mathlib.Core.List.{reverse, reverse-cons, reverse-append, reverse-reverse}
use open_pi.Prelude.{
  ℕ, ◌≡◌, refl, ap, sym, ◌∙◌, subst, Bool, true, false, [], ◌∷◌, ◌++◌, ◌==◌, if◌then◌else◌, arith,
}
use open_pi.Text.{Text, is_space, trim_start, trim}

-- it is empty or begins with a unit that is no white space
abbrev pub IsFirm : Text → Type 0
IsFirm [] = Unit
IsFirm (c ∷ s) = is_space c ≡ false

trim_start-IsFirm : (s : Text) → IsFirm (trim_start s)
unfolding trim_start
trim_start-IsFirm [] = tt
trim_start-IsFirm (c ∷ s) = go (is_space c) refl (trim_start-IsFirm s)
  where
    go :
        (b : Bool)
        → is_space c ≡ b
        → IsFirm (trim_start s)
        → IsFirm (if b then trim_start s else c ∷ s)
    go true e h = h
    go false e h = e

trim_start_firm : (s : Text) → IsFirm s → trim_start s ≡ s
unfolding trim_start
trim_start_firm [] h = refl
trim_start_firm (c ∷ s) h = rw h refl

IsFirm-append : (s t : Text) → IsFirm (s ++ t) → IsFirm s
IsFirm-append [] t h = tt
IsFirm-append (c ∷ s) t h = h

-- what is trimmed at the start
trim_start-suffix : (s : Text) → (before : Text) × (s ≡ before ++ trim_start s)
unfolding trim_start
trim_start-suffix [] = ([], refl)
trim_start-suffix (c ∷ s) = go (is_space c) (trim_start-suffix s)
  where
    go :
        (b : Bool)
        → (before : Text) × (s ≡ before ++ trim_start s)
        → (before : Text) × (c ∷ s ≡ before ++ (if b then trim_start s else c ∷ s))
    go true (before, e) = (c ∷ before, ap (◌∷◌ c) e)
    go false h = ([], refl)

-- no newline at the end
abbrev pub EndsFirm : Text → Type 0
EndsFirm [] = Unit
EndsFirm (c ∷ []) = (c == b'\n') ≡ false
EndsFirm (c ∷ d ∷ s) = EndsFirm (d ∷ s)

not_newline : (c : ℕ) → is_space c ≡ false → (c == b'\n') ≡ false
unfolding is_space
not_newline c h = ground arith

reverse-EndsFirm : (s : Text) → IsFirm (reverse s) → EndsFirm s
reverse-EndsFirm [] h = tt
reverse-EndsFirm (c ∷ []) h = not_newline c (subst IsFirm (reverse-cons c []) h)
reverse-EndsFirm (c ∷ d ∷ s) h =
    reverse-EndsFirm (d ∷ s)
      (IsFirm-append (reverse (d ∷ s)) (c ∷ []) (subst IsFirm (reverse-cons c (d ∷ s)) h))

trim-IsFirm : (s : Text) → IsFirm (trim s)
unfolding trim
trim-IsFirm s =
    let u : Text = trim_start s in
    let (before, e) : (before : Text) × (reverse u ≡ before ++ trim_start (reverse u)) =
      trim_start-suffix (reverse u) in
    let back : u ≡ reverse (trim_start (reverse u)) ++ reverse before =
      sym (reverse-reverse u) ∙ ap reverse e ∙ reverse-append before (trim_start (reverse u)) in
    IsFirm-append (reverse (trim_start (reverse u))) (reverse before)
      (subst IsFirm back (trim_start-IsFirm s))

reverse-trim-IsFirm : (s : Text) → IsFirm (reverse (trim s))
unfolding trim
reverse-trim-IsFirm s =
    subst IsFirm (sym (reverse-reverse (trim_start (reverse (trim_start s)))))
      (trim_start-IsFirm (reverse (trim_start s)))

pub trim-EndsFirm : (s : Text) → EndsFirm (trim s)
trim-EndsFirm s = reverse-EndsFirm (trim s) (reverse-trim-IsFirm s)

-- what is firm at both ends stays as it is
trim_firm : (s : Text) → IsFirm s → IsFirm (reverse s) → trim s ≡ s
unfolding trim
trim_firm s h k =
    ap (λ t. reverse (trim_start (reverse t))) (trim_start_firm s h)
    ∙ ap reverse (trim_start_firm (reverse s) k)
    ∙ reverse-reverse s

pub trim-trim : (s : Text) → trim (trim s) ≡ trim s
trim-trim s = trim_firm (trim s) (trim-IsFirm s) (reverse-trim-IsFirm s)
