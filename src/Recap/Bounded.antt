-- ===== src/Recap/Bounded.antt =====
-- apps/desktop/web/lib/recap.ts: lists without repetitions, as the loops of
-- `extractRecapAndSuggestions` build and cut them.
use open_pi.Prelude.{
  ℕ, zero, suc, ◌≤◌, ◌≡◌, ◌≢◌, refl, sym, subst, inl, inr, Bool, true, false, not, List, [], ◌∷◌,
  ◌++◌, any, keep_if, take, length, Bool-cases, All, All-append, Distinct, arith,
}
use open_pi.Text.{Text, units, text_eq}
use open_pi.Text.Laws.{text_eq_refl}
use open_pi.Recap.{push_new, push_all}
use open_pi.Recap.Extract.{cut_suggestions}

module _ {ℓ} {A : Type ℓ} (test : A → Bool) (x : A) (xs : List A) where
  pub keep_if_kept : test x ≡ true → keep_if test (x ∷ xs) ≡ x ∷ keep_if test xs
  keep_if_kept h = rw (h, keep_if) refl

  keep_if_dropped : test x ≡ false → keep_if test (x ∷ xs) ≡ keep_if test xs
  keep_if_dropped h = rw (h, keep_if) refl

module _ {ℓ κ} {A : Type ℓ} (P : A → Type κ) where
  pub keep_if-All : (test : A → Bool) (xs : List A) → All P xs → All P (keep_if test xs)
  keep_if-All test [] h = tt
  keep_if-All test (x ∷ xs) (h, hs) =
      let ih = keep_if-All test xs hs in
      elim (Bool-cases (test x)) [
        | inl kept ↦ rw (keep_if_kept test x xs kept) (h, ih)
        | inr dropped ↦ rw (keep_if_dropped test x xs dropped) ih
      ]

  pub take-All : (n : ℕ) (xs : List A) → All P xs → All P (take n xs)
  take-All zero xs h = tt
  take-All (suc n) [] h = tt
  take-All (suc n) (x ∷ xs) (h, hs) = (h, take-All n xs hs)

-- what the test keeps passes it
pub keep_if-passes {ℓ} :
    {A : Type ℓ} (test : A → Bool) (xs : List A) → All (λ x. test x ≡ true) (keep_if test xs)
keep_if-passes test [] = tt
keep_if-passes test (x ∷ xs) =
    let ih = keep_if-passes test xs in
    elim (Bool-cases (test x)) [
      | inl kept ↦ rw (keep_if_kept test x xs kept) (kept, ih)
      | inr dropped ↦ rw (keep_if_dropped test x xs dropped) ih
    ]

pub length-take {ℓ} : {A : Type ℓ} (n : ℕ) (xs : List A) → length (take n xs) ≤ n
length-take zero xs = omega arith
length-take (suc n) [] = omega arith
length-take (suc n) (x ∷ xs) = omega (arith, length-take n xs)

keep_if-Distinct {ℓ} :
    {A : Type ℓ} (test : A → Bool) (xs : List A) → Distinct xs → Distinct (keep_if test xs)
keep_if-Distinct test [] h = tt
keep_if-Distinct test (x ∷ xs) (h, hs) =
    let ih = keep_if-Distinct test xs hs in
    elim (Bool-cases (test x)) [
      | inl kept ↦ rw (keep_if_kept test x xs kept) (keep_if-All (λ y. y ≢ x) test xs h, ih)
      | inr dropped ↦ rw (keep_if_dropped test x xs dropped) ih
    ]

take-Distinct {ℓ} : {A : Type ℓ} (n : ℕ) (xs : List A) → Distinct xs → Distinct (take n xs)
take-Distinct zero xs h = tt
take-Distinct (suc n) [] h = tt
take-Distinct (suc n) (x ∷ xs) (h, hs) = (take-All (λ y. y ≢ x) n xs h, take-Distinct n xs hs)

append-Distinct {ℓ} :
    {A : Type ℓ} (xs : List A) (x : A) → Distinct xs → All (λ y. y ≢ x) xs → Distinct (xs ++ x ∷ [])
append-Distinct [] x d h = (tt, tt)
append-Distinct (y ∷ xs) x (d, ds) (h, hs) =
    (All-append (λ z. z ≢ y) xs (x ∷ []) d ((λ e. h (sym e)), tt), append-Distinct xs x ds hs)

-- what the test does not find differs from every element
absent :
    (list : List Text) (item : Text)
    → any (λ t. text_eq t item) list ≡ false
    → All (λ t. t ≢ item) list
absent [] item h = tt
absent (t ∷ list) item h = elim (Bool-cases (text_eq t item)) [
  | inl same ↦ absurd (cc)
  | inr other ↦ (
    (λ e.
        let same : text_eq t item ≡ true = subst (λ u. text_eq t u ≡ true) e (text_eq_refl t) in
        absurd (cc)),
    absent list item (ground arith),
  )
]

push_new-Distinct : (list : List Text) (item : Text) → Distinct list → Distinct (push_new list item)
unfolding push_new
push_new-Distinct list item d = elim (Bool-cases (any (λ t. text_eq t item) list)) [
  | inl found ↦ rw found d
  | inr out ↦ rw out (append-Distinct list item d (absent list item out))
]

push_all-Distinct : (list items : List Text) → Distinct list → Distinct (push_all list items)
unfolding push_all
push_all-Distinct list [] d = d
push_all-Distinct list (item ∷ rest) d =
    push_all-Distinct (push_new list item) rest (push_new-Distinct list item d)

module _ {κ} (P : Text → Type κ) where
  pub push_new-All :
      (list : List Text) (item : Text) → All P list → P item → All P (push_new list item)
  unfolding push_new
  push_new-All list item h p = elim (Bool-cases (any (λ t. text_eq t item) list)) [
    | inl found ↦ rw found h
    | inr out ↦ rw out (All-append P list (item ∷ []) h (p, tt))
  ]

  pub push_all-All :
      (list items : List Text) → All P list → All P items → All P (push_all list items)
  unfolding push_all
  push_all-All list [] h hs = h
  push_all-All list (item ∷ rest) h (p, ps) =
      push_all-All (push_new list item) rest (push_new-All list item h p) ps

  pub cut_suggestions-All : (list : List Text) → All P list → All P (cut_suggestions list)
  unfolding cut_suggestions
  cut_suggestions-All list h = take-All P 3 (keep_if _ (push_all [] list)) (
      keep_if-All P (λ s. not (text_eq s (units "继续下一步工作"))) (push_all [] list)
        (push_all-All [] list tt h))

-- at most three texts, none of them twice, and none of them the general one
abbrev pub IsMenu : List Text → Type 0
IsMenu list =
    (length list ≤ 3) × Distinct list × All (λ s. not (text_eq s (units "继续下一步工作")) ≡ true) list

pub cut_suggestions-IsMenu : (list : List Text) → IsMenu (cut_suggestions list)
unfolding cut_suggestions
cut_suggestions-IsMenu list =
    let test : Text → Bool = λ s. not (text_eq s (units "继续下一步工作")) in
    let all : List Text = push_all [] list in
    (
      length-take 3 (keep_if test all),
      take-Distinct 3 (keep_if test all) (keep_if-Distinct test all (push_all-Distinct [] list tt)),
      take-All (λ s. test s ≡ true) 3 (keep_if test all) (keep_if-passes test all),
    )

pub nil-IsMenu : IsMenu []
nil-IsMenu = (omega arith, tt, tt)
