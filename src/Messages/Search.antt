-- ===== src/Messages/Search.antt =====
-- Searches of a list, and how they find an element that was put in.
use open_pi.Prelude.{
  ℕ, zero, suc, ◌<◌, ◌≡◌, ◌≢◌, refl, ap, ◌∙◌, Bool, true, false, Option, none, some, List, [], ◌∷◌,
  ◌++◌, length, get_elem?, arith,
}
use open_pi.Messages.{find_index, find_last_index, set_elem}

module _ {ℓ} {A : Type ℓ} where
  pub set_elem-set_elem :
      (xs : List A) (i : ℕ) (v : A) → set_elem (set_elem xs i v) i v ≡ set_elem xs i v
  set_elem-set_elem [] i v = refl
  set_elem-set_elem (x ∷ xs) zero v = refl
  set_elem-set_elem (x ∷ xs) (suc i) v = ap (◌∷◌ x) (set_elem-set_elem xs i v)

  pub set_elem_end : (xs : List A) (v : A) → set_elem (xs ++ v ∷ []) (length xs) v ≡ xs ++ v ∷ []
  set_elem_end [] v = refl
  set_elem_end (x ∷ xs) v = ap (◌∷◌ x) (set_elem_end xs v)

  module _ (f : A → Bool) where
    find_index_head : (x : A) (xs : List A) → f x ≡ true → find_index f (x ∷ xs) ≡ some 0
    find_index_head x xs h = ground arith

    -- the index behind an element that fails
    abbrev next_index : Option ℕ → Option ℕ
    next_index o = elim o [ none ↦ none | some i ↦ some (suc i) ]

    find_index_tail :
        (x : A) (xs : List A) → f x ≡ false → find_index f (x ∷ xs) ≡ next_index (find_index f xs)
    find_index_tail x xs h = ground arith

    -- what a search that fails says of the first element and of the others
    find_index-none :
        (x : A) (xs : List A)
        → find_index f (x ∷ xs) ≡ none
        → (f x ≡ false) × (find_index f xs ≡ none)
    find_index-none x xs e = ground arith

    find_index-suc :
        (x : A) (xs : List A) (i : ℕ)
        → find_index f (x ∷ xs) ≡ some (suc i)
        → (f x ≡ false) × (find_index f xs ≡ some i)
    find_index-suc x xs i e = ground arith

    pub find_index_end :
        (xs : List A) (v : A)
        → find_index f xs ≡ none
        → f v ≡ true
        → find_index f (xs ++ v ∷ []) ≡ some (length xs)
    find_index_end [] v e h = find_index_head v [] h
    find_index_end (x ∷ xs) v e h =
        let (fails, nowhere) = find_index-none x xs e in
        find_index_tail x (xs ++ v ∷ []) fails ∙ ap next_index (find_index_end xs v nowhere h)

    pub find_index-set_elem :
        (xs : List A) (i : ℕ) (v : A)
        → find_index f xs ≡ some i
        → f v ≡ true
        → find_index f (set_elem xs i v) ≡ some i
    find_index-set_elem [] i v e h = absurd (cc)
    find_index-set_elem (x ∷ xs) zero v e h = find_index_head v xs h
    find_index-set_elem (x ∷ xs) (suc i) v e h =
        let (fails, later) = find_index-suc x xs i e in
        find_index_tail x (set_elem xs i v) fails
        ∙ ap next_index (find_index-set_elem xs i v later h)

    -- the only element that passes is the one put in
    pub find_index_only :
        (xs : List A) (i : ℕ) (v : A)
        → find_index f xs ≡ none
        → i < length xs
        → f v ≡ true
        → find_index f (set_elem xs i v) ≡ some i
    find_index_only [] i v e l h = absurd (omega arith)
    find_index_only (x ∷ xs) zero v e l h = find_index_head v xs h
    find_index_only (x ∷ xs) (suc i) v e l h =
        let (fails, nowhere) = find_index-none x xs e in
        find_index_tail x (set_elem xs i v) fails
        ∙ ap next_index (find_index_only xs i v nowhere (omega arith) h)

    pub find_last_index_end :
        (xs : List A) (v : A) → f v ≡ true → find_last_index f (xs ++ v ∷ []) ≡ some (length xs)
    find_last_index_end [] v h = ground arith
    find_last_index_end (x ∷ xs) v h = let ih = find_last_index_end xs v h in ground arith

    -- the last element is the first one, or one behind it
    find_last_index-zero :
        (x : A) (xs : List A) → find_last_index f (x ∷ xs) ≡ some 0 → find_last_index f xs ≡ none
    find_last_index-zero x xs e = ground arith

    find_last_index-suc :
        (x : A) (xs : List A) (i : ℕ)
        → find_last_index f (x ∷ xs) ≡ some (suc i)
        → find_last_index f xs ≡ some i
    find_last_index-suc x xs i e = ground arith

    pub find_last_index-set_elem :
        (xs : List A) (i : ℕ) (v : A)
        → find_last_index f xs ≡ some i
        → f v ≡ true
        → find_last_index f (set_elem xs i v) ≡ some i
    find_last_index-set_elem [] i v e h = absurd (cc)
    find_last_index-set_elem (x ∷ xs) zero v e h =
        let nowhere = find_last_index-zero x xs e in ground arith
    find_last_index-set_elem (x ∷ xs) (suc i) v e h =
        let ih = find_last_index-set_elem xs i v (find_last_index-suc x xs i e) h in ground arith

    pub find_last_index-length :
        (xs : List A) (i : ℕ) → find_last_index f xs ≡ some i → i < length xs
    find_last_index-length [] i e = absurd (cc)
    find_last_index-length (x ∷ xs) zero e = omega arith
    find_last_index-length (x ∷ xs) (suc i) e =
        let ih = find_last_index-length xs i (find_last_index-suc x xs i e) in omega arith

    pub find_index-passes :
        (xs : List A) (i : ℕ) (x : A)
        → find_index f xs ≡ some i
        → get_elem? xs i ≡ some x
        → f x ≡ true
    find_index-passes [] i x e g = absurd (cc)
    find_index-passes (y ∷ xs) zero x e g = ground arith
    find_index-passes (y ∷ xs) (suc i) x e g =
        find_index-passes xs i x (find_index-suc y xs i e).1 g

    pub find_last_index-passes :
        (xs : List A) (i : ℕ) (x : A)
        → find_last_index f xs ≡ some i
        → get_elem? xs i ≡ some x
        → f x ≡ true
    find_last_index-passes [] i x e g = absurd (cc)
    find_last_index-passes (y ∷ xs) zero x e g =
        let nowhere = find_last_index-zero y xs e in ground arith
    find_last_index-passes (y ∷ xs) (suc i) x e g =
        find_last_index-passes xs i x (find_last_index-suc y xs i e) g

  -- the other elements stay
  pub get_elem?-set_elem :
      (xs : List A) (i j : ℕ) (v : A) → j ≢ i → get_elem? (set_elem xs i v) j ≡ get_elem? xs j
  get_elem?-set_elem [] i j v n = refl
  get_elem?-set_elem (x ∷ xs) zero zero v n = absurd (n refl)
  get_elem?-set_elem (x ∷ xs) zero (suc j) v n = refl
  get_elem?-set_elem (x ∷ xs) (suc i) zero v n = refl
  get_elem?-set_elem (x ∷ xs) (suc i) (suc j) v n = get_elem?-set_elem xs i j v (λ e. n (ap suc e))

  pub get_elem?_before :
      (xs ys : List A) (j : ℕ) (x : A) → get_elem? xs j ≡ some x → get_elem? (xs ++ ys) j ≡ some x
  get_elem?_before [] ys j x g = absurd (cc)
  get_elem?_before (y ∷ xs) ys zero x g = g
  get_elem?_before (y ∷ xs) ys (suc j) x g = get_elem?_before xs ys j x g
