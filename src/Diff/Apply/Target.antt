-- ===== src/Diff/Apply/Target.antt =====
-- Where a hunk is put: the search for a line that has drifted finds the nearest one in reach.
use open_pi.Prelude.{
  ℕ, zero, suc, ◌+◌, ◌-◌, ◌<◌, ◌≤◌, ◌≡◌, refl, ap, sym, subst, ◌≢◌, ◌⊎◌, inl, inr, Bool, true,
  false, ◌&&◌, Option, none, some, List, [], ◌∷◌, arith, ltb, leb, Bool-cases, ltb→lt, ltb→ge,
  lt→ltb, le→leb, length, get_elem?,
}
use open_pi.Text.{Text}
use open_pi.Text.Laws.{text_eq_iff, text_eq_refl}
use open_pi.Diff.Apply.{
  is_line, Search, search_radius, is_closer, distance, search_round, search_rounds, fuzzy,
  find_target,
}

-- the distance of two indices
abbrev pub gap : ℕ → ℕ → ℕ
gap i j = (i - j) + (j - i)

get_elem?-lt {ℓ} :
    {A : Type ℓ} (xs : List A) (i : ℕ) {x : A} → get_elem? xs i ≡ some x → i < length xs
get_elem?-lt [] i h = cc
get_elem?-lt (y ∷ xs) zero h = omega arith
get_elem?-lt (y ∷ xs) (suc i) h = omega (arith, get_elem?-lt xs i h)

module _ (lines : List Text) (first : Text) (target : ℕ) where
  -- the round looks at a line that is the wanted one
  abbrev hit : ℕ → Bool
  hit round =
      leb search_radius (target + round)
      && ltb (target + round - search_radius) (length lines)
      && is_line (get_elem? lines (target + round - search_radius)) first

  -- what the rounds below `n` have found
  abbrev Nothing : ℕ → Search → Type 0
  Nothing n s = (s.found_idx ≡ none) × (s.best_dist ≡ none) × ((k : ℕ) → k < n → hit k ≡ false)

  abbrev Nearest : ℕ → Search → Type 0
  Nearest n s =
      (best : ℕ) × (best < n)
      × (hit best ≡ true)
      × (s.found_idx ≡ some (target + best - search_radius))
      × (s.best_dist ≡ some (distance best))
      × ((k : ℕ) → k < n → hit k ≡ true → distance best ≤ distance k)

  abbrev Found : ℕ → Search → Type 0
  Found n s = Nothing n s ⊎ Nearest n s

  -- below `n + 1` is `n` or below `n`
  below-suc : {n k : ℕ} → k < n + 1 → (k ≡ n) ⊎ (k < n)
  below-suc h = grind arith

  round-miss : (n : ℕ) (s : Search) → hit n ≡ false → search_round lines first target n s ≡ s
  unfolding search_round
  round-miss n s h = rw h refl

  Found-miss : (n : ℕ) (s : Search) → hit n ≡ false → Found n s → Found (n + 1) s
  Found-miss n s h (inl (a, b, c)) = inl (
    a,
    b,
    λ k lt. elim (below-suc lt) [ inl e ↦ subst (λ m. hit m ≡ false) (sym e) h | inr l ↦ c k l ],
  )
  Found-miss n s h (inr (best, lt, here, a, b, c)) = inr (
    best,
    omega arith,
    here,
    a,
    b,
    λ k l hk. elim (below-suc l) [
      | inl e ↦ let f : hit k ≡ false = subst (λ m. hit m ≡ false) (sym e) h in cc
      | inr l ↦ c k l hk
    ],
  )

  -- a hit that is closer than what was found before is taken
  taken : ℕ → Search
  taken n = record { best_dist = some (distance n); found_idx = some (target + n - search_radius) }

  round-taken :
      (n : ℕ) (s : Search)
      → hit n ≡ true
      → is_closer (distance n) s.best_dist ≡ true
      → search_round lines first target n s ≡ taken n
  unfolding search_round taken
  round-taken n s h c = rw (h, c) refl

  round-farther :
      (n : ℕ) (s : Search)
      → hit n ≡ true
      → is_closer (distance n) s.best_dist ≡ false
      → search_round lines first target n s ≡ s
  unfolding search_round
  round-farther n s h c = rw (h, c) refl

  Nearest-taken :
      (n : ℕ)
      → hit n ≡ true
      → ((k : ℕ) → k < n → hit k ≡ true → distance n ≤ distance k)
      → Found (n + 1) (taken n)
  unfolding taken
  Nearest-taken n h c = inr (
    n,
    omega arith,
    h,
    refl,
    refl,
    λ k l hk. elim (below-suc l) [
      | inl e ↦ let d : distance k ≡ distance n = ap distance e in omega (arith, d)
      | inr l' ↦ c k l' hk
    ],
  )

  Found-hit :
      (n : ℕ) (s : Search)
      → hit n ≡ true
      → Found n s
      → Found (n + 1) (search_round lines first target n s)
  Found-hit n s h (inl (a, b, c)) =
      rw (round-taken n s h (rw b refl)) (Nearest-taken n h (λ k l hk. let f = c k l in cc))
  Found-hit n s h (inr (best, lt, here, a, b, c)) =
      elim (Bool-cases (ltb (distance n) (distance best))) [
        | inl closer ↦ rw (round-taken n s h (rw b closer)) (
            Nearest-taken n h
              (λ k l hk. omega (arith, ltb→lt (distance n) (distance best) closer, c k l hk)))
        | inr farther ↦ rw (round-farther n s h (rw b farther)) (
            inr (
              best,
              omega arith,
              here,
              a,
              b,
              λ k l hk. elim (below-suc l) [
                | inl e ↦
                    let d : distance k ≡ distance n = ap distance e in
                    omega (arith, ltb→ge (distance n) (distance best) farther, d)
                | inr l' ↦ c k l' hk
              ],
            ))
      ]

  Found-round :
      (n : ℕ) (s : Search) → Found n s → Found (n + 1) (search_round lines first target n s)
  Found-round n s f = elim (Bool-cases (hit n)) [
    | inl h ↦ Found-hit n s h f
    | inr h ↦ rw (round-miss n s h) (Found-miss n s h f)
  ]

  Found-rounds :
      (m n k : ℕ) (s : Search)
      → n + m ≡ k
      → Found n s
      → Found k (search_rounds lines first target m n s)
  unfolding search_rounds
  Found-rounds zero n k s e f = let same : n ≡ k = omega arith in subst (λ i. Found i s) same f
  Found-rounds (suc m) n k s e f =
      Found-rounds m (n + 1) k (search_round lines first target n s) (omega arith)
        (Found-round n s f)

  -- all rounds
  searched : Search
  searched = search_rounds lines first target 31 0 (record { best_dist = none; found_idx = none })

  searched-Found : Found 31 searched
  unfolding searched
  searched-Found = Found-rounds 31 0 31 _ refl (inl (refl, refl, λ k l. absurd (omega arith)))

-- the round that looks at the index `j`
round_at : (target j : ℕ) → gap j target ≤ 15 → (k : ℕ) × (k < 31) × (target + k ≡ j + 15)
round_at target j h = (j + 15 - target, omega arith, omega arith)

distance_gap : (target k j : ℕ) → 15 ≤ target + k → j ≡ target + k - 15 → distance k ≡ gap j target
distance_gap target k j h e = ground arith

is_line-some : (o : Option Text) (text : Text) → is_line o text ≡ true → o ≡ some text
is_line-some none text h = cc
is_line-some (some line) text h = ap some ((text_eq_iff line text).0 h)

module _ (lines : List Text) (first : Text) (target : ℕ) where
  hit-line :
      (k : ℕ)
      → hit lines first target k ≡ true
      → (15 ≤ target + k) × (get_elem? lines (target + k - 15) ≡ some first)
  hit-line k h =
      (ground arith, is_line-some (get_elem? lines (target + k - 15)) first (ground arith))

  line-hit :
      (k j : ℕ)
      → target + k ≡ j + 15
      → get_elem? lines j ≡ some first
      → hit lines first target k ≡ true
  line-hit k j e g =
      let at : target + k - 15 ≡ j = omega arith in
      rw
        (
          at,
          g,
          le→leb 15 (target + k) (omega arith),
          lt→ltb j (length lines) (get_elem?-lt lines j g),
          text_eq_refl first,
        )
        refl

-- the first expected line is at `i`, no other index in the source with that line is nearer, and
-- `i` is in reach
abbrev pub IsNearest : List Text → Text → ℕ → ℕ → Type 0
IsNearest lines first target i =
    (get_elem? lines i ≡ some first)
    × (gap i target ≤ 15)
    × ((j : ℕ) → get_elem? lines j ≡ some first → gap i target ≤ gap j target)

abbrev pub IsOutOfReach : List Text → Text → ℕ → Type 0
IsOutOfReach lines first target = (j : ℕ) → gap j target ≤ 15 → get_elem? lines j ≢ some first

module _ (lines : List Text) (first : Text) (target : ℕ) where
  -- what the search finds, if it has to search
  search-IsNearest :
      (best : ℕ)
      → best < 31
      → hit lines first target best ≡ true
      → ((k : ℕ) → k < 31 → hit lines first target k ≡ true → distance best ≤ distance k)
      → IsNearest lines first target (target + best - 15)
  search-IsNearest best lt here c =
      let (reach, line) = hit-line lines first target best here in
      let d = distance_gap target best (target + best - 15) reach refl in
      (
        line,
        omega arith,
        λ j g. elim (Bool-cases (leb (gap j target) 15)) [
          | inl near ↦
              let (k, below, at) = round_at target j (ground arith) in
              let e = distance_gap target k j (omega arith) (omega arith) in
              omega (arith, c k below (line-hit lines first target k j at g), d, e)
          | inr far ↦ let m : 15 < gap j target = ground arith in omega arith
        ],
      )

  fuzzy-cases :
      target < length lines
      → is_line (get_elem? lines target) first ≡ false
      → Found lines first target 31 (searched lines first target)
      → IsNearest lines first target (fuzzy lines first target)
        ⊎ ((fuzzy lines first target ≡ target) × IsOutOfReach lines first target)
  unfolding fuzzy searched
  fuzzy-cases lt other (inl (none_found, _, misses)) = inr (
    rw (lt→ltb target (length lines) lt, other, none_found) refl,
    λ j near g.
        let (k, below, at) = round_at target j near in
        let h = line-hit lines first target k j at g in let m = misses k below in cc,
  )
  fuzzy-cases lt other (inr (best, below, here, found, _, least)) =
      rw (lt→ltb target (length lines) lt, other, found)
        (inl (search-IsNearest best below here least))

  fuzzy-direct :
      target < length lines
      → is_line (get_elem? lines target) first ≡ true
      → fuzzy lines first target ≡ target
  unfolding fuzzy
  fuzzy-direct lt same = rw (lt→ltb target (length lines) lt, same) refl

  -- A hunk that starts inside the source is put at the nearest line, at most 15 lines away, that is
  -- the first one that it expects; if there is none, it is put where its header says.
  pub find_target-IsNearest :
      (rest : List Text)
      → target < length lines
      → IsNearest lines first target (find_target lines (first ∷ rest) target)
        ⊎ ((find_target lines (first ∷ rest) target ≡ target) × IsOutOfReach lines first target)
  unfolding find_target
  find_target-IsNearest rest lt = elim (Bool-cases (is_line (get_elem? lines target) first)) [
    | inl same ↦
        rw (fuzzy-direct lt same)
          (inl (is_line-some (get_elem? lines target) first same, omega arith, λ j g. omega arith))
    | inr other ↦ fuzzy-cases lt other (searched-Found lines first target)
  ]
