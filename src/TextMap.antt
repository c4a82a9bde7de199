-- ===== src/TextMap.antt =====
-- A JavaScript `Map` with string keys: its entries in the order in which they were first set.
use open_pi.Prelude.{
  ◌≡◌, refl, ap, sym, ◌∙◌, true, false, Option, none, some, List, [], ◌∷◌, inl, inr, if◌then◌else◌,
  Bool-cases, All, subst, arith,
}
use open_pi.Text.{Text, text_eq}
use open_pi.Text.Laws.{eq_of_text_eq, text_eq_refl}

abbrev pub TextMap {ℓ} : Type ℓ → Type ℓ
TextMap V = List (Text × V)

-- equal texts have equal tests
text_eq_left : (k a b : Text) → text_eq k a ≡ true → text_eq k b ≡ text_eq a b
text_eq_left k a b h = ap (λ t. text_eq t b) (eq_of_text_eq k a h)

-- one text is not equal to two that differ
different :
    (k key other : Text)
    → text_eq k other ≡ true
    → text_eq k key ≡ false
    → text_eq key other ≡ false
different k key other h differ = elim (Bool-cases (text_eq key other)) [
  | inl same ↦
      let e : k ≡ key = eq_of_text_eq k other h ∙ sym (eq_of_text_eq key other same) in
      let hit : text_eq k key ≡ true = subst (λ t. text_eq k t ≡ true) e (text_eq_refl k) in
      absurd (cc)
  | inr differs ↦ differs
]

module _ {ℓ} {V : Type ℓ} where
  -- `map.get(key)`
  abbrev pub lookup : TextMap V → Text → Option V
  lookup [] key = none
  lookup ((k, v) ∷ m) key = if text_eq k key then some v else lookup m key

  -- `map.set(key, value)`
  abbrev pub put : TextMap V → Text → V → TextMap V
  put [] key value = (key, value) ∷ []
  put ((k, v) ∷ m) key value =
      let rest = put m key value in if text_eq k key then (k, value) ∷ m else (k, v) ∷ rest

  -- `map.delete(key)`
  abbrev pub delete : TextMap V → Text → TextMap V
  delete [] key = []
  delete ((k, v) ∷ m) key = let rest = delete m key in if text_eq k key then rest else (k, v) ∷ rest

  -- What is found after `set`: the new value at its key, and what was there before at others.
  pub lookup-put :
      (m : TextMap V) (key other : Text) (value : V)
      → lookup (put m key value) other ≡ (if text_eq key other then some value else lookup m other)
  lookup-put [] key other value = refl
  lookup-put ((k, v) ∷ m) key other value = elim (Bool-cases (text_eq k key)) [
    | inl same ↦ let e = text_eq_left k key other same in ground arith
    | inr differ ↦
        let ih = lookup-put m key other value in
        let apart : text_eq k other ≡ true → text_eq key other ≡ false =
          λ h. different k key other h differ in
        ground arith
  ]

  -- What is found after `delete`: nothing at the key, and what was there before at others.
  pub lookup-delete :
      (m : TextMap V) (key other : Text)
      → lookup (delete m key) other ≡ (if text_eq key other then none else lookup m other)
  lookup-delete [] key other = ground arith
  lookup-delete ((k, v) ∷ m) key other = elim (Bool-cases (text_eq k key)) [
    | inl same ↦
        let e = text_eq_left k key other same in let ih = lookup-delete m key other in ground arith
    | inr differ ↦
        let ih = lookup-delete m key other in
        let apart : text_eq k other ≡ true → text_eq key other ≡ false =
          λ h. different k key other h differ in
        ground arith
  ]

  -- what holds of every value is kept by `set` and `delete`
  module _ {κ} (P : Text × V → Type κ) where
    pub put-All :
        (m : TextMap V) (key : Text) (value : V)
        → All P m
        → ((k : Text) → text_eq k key ≡ true → P (k, value))
        → All P (put m key value)
    put-All [] key value h p = (p key (text_eq_refl key), tt)
    put-All ((k, v) ∷ m) key value (h, hs) p = elim (Bool-cases (text_eq k key)) [
      | inl same ↦
          subst (All P)
            (sym (ap (λ b. if b then (k, value) ∷ m else (k, v) ∷ put m key value) same))
            (p k same, hs)
      | inr differ ↦
          subst (All P)
            (sym (ap (λ b. if b then (k, value) ∷ m else (k, v) ∷ put m key value) differ))
            (h, put-All m key value hs p)
    ]

    pub delete-All : (m : TextMap V) (key : Text) → All P m → All P (delete m key)
    delete-All [] key h = tt
    delete-All ((k, v) ∷ m) key (h, hs) = elim (Bool-cases (text_eq k key)) [
      | inl same ↦
          subst (All P) (sym (ap (λ b. if b then delete m key else (k, v) ∷ delete m key) same))
            (delete-All m key hs)
      | inr differ ↦
          subst (All P) (sym (ap (λ b. if b then delete m key else (k, v) ∷ delete m key) differ))
            (h, delete-All m key hs)
    ]
