-- ===== src/Repetition/Copies.antt =====
-- Copies of a pattern at the end of a text, and the inner loop that counts them.
use open_pi.Prelude.{
  ℕ, zero, suc, ◌+◌, ◌-◌, ◌≤◌, ◌≡◌, refl, ap, sym, ◌∙◌, true, [], ◌∷◌, ◌++◌, leb, length, take,
  drop, arith, le→leb, append_assoc, append-nil, take_append, drop_append_self, length-append,
}
use open_pi.Text.{Text, text_eq}
use open_pi.Text.Laws.{eq_of_text_eq, text_eq_refl}
use open_pi.Repetition.{slice, has_copies}

-- the pattern, `n` times
abbrev pub copies : ℕ → Text → Text
copies zero p = []
copies (suc n) p = copies n p ++ p

pub take-drop : (n : ℕ) (s : Text) → take n s ++ drop n s ≡ s
take-drop zero s = refl
take-drop (suc n) [] = refl
take-drop (suc n) (c ∷ s) = ap (◌∷◌ c) (take-drop n s)

take_add : (a k : ℕ) (s : Text) → take (a + k) s ≡ take a s ++ take k (drop a s)
take_add zero k s = let e : 0 + k ≡ k = omega arith in rw e refl
take_add (suc a) zero [] = let e : suc a + 0 ≡ suc (a + 0) = omega arith in rw e refl
take_add (suc a) (suc k) [] = let e : suc a + suc k ≡ suc (a + suc k) = omega arith in rw e refl
take_add (suc a) k (c ∷ s) =
    let e : suc a + k ≡ suc (a + k) = omega arith in rw e (ap (◌∷◌ c) (take_add a k s))

-- what stands before `b` is what stands before `a` and the slice between
take-slice : (a b : ℕ) (s : Text) → a ≤ b → take b s ≡ take a s ++ slice a b s
take-slice a b s h =
    let e : b ≡ a + (b - a) = omega arith in ap (λ n. take n s) e ∙ take_add a (b - a) s

length-take : (n : ℕ) (s : Text) → n ≤ length s → length (take n s) ≡ n
length-take zero s h = refl
length-take (suc n) [] h = absurd (omega arith)
length-take (suc n) (c ∷ s) h = let ih = length-take n s (omega arith) in omega arith

pub length-drop : (n : ℕ) (s : Text) → length (drop n s) ≡ length s - n
length-drop zero s = omega arith
length-drop (suc n) [] = omega arith
length-drop (suc n) (c ∷ s) = let ih = length-drop n s in omega arith

-- lists that are put together from parts of the same lengths have the same parts
append_injective : (a b c d : Text) → length a ≡ length c → a ++ b ≡ c ++ d → (a ≡ c) × (b ≡ d)
append_injective a b c d l e = (
  sym (take_append a b)
      ∙ (ap (take (length a)) e ∙ (ap (λ n. take n (c ++ d)) l ∙ take_append c d)),
  sym (drop_append_self a b)
      ∙ (ap (drop (length a)) e ∙ (ap (λ n. drop n (c ++ d)) l ∙ drop_append_self c d)),
)

-- the units before `end` end in the copies
pub copies_found :
    (n len : ℕ) (p : Text) (end : ℕ) (tail : Text)
    → has_copies n len p end tail ≡ true
    → (pre : Text) × (take end tail ≡ pre ++ copies n p)
unfolding has_copies
copies_found zero len p end tail h = (take end tail, sym (append-nil (take end tail)))
copies_found (suc n) len p end tail h =
    let fits : leb len end ≡ true = ground arith in
    let same : text_eq (slice (end - len) end tail) p ≡ true = ground arith in
    let rest : has_copies n len p (end - len) tail ≡ true = ground arith in
    let (pre, e) = copies_found n len p (end - len) tail rest in
    (
      pre,
      take-slice (end - len) end tail (omega arith)
          ∙ (ap (λ t. take (end - len) tail ++ t) (eq_of_text_eq _ p same)
              ∙ (ap (λ t. t ++ p) e ∙ append_assoc pre (copies n p) p)),
    )

-- and the other way round
pub copies_are_found :
    (n : ℕ) (p pre : Text) (end : ℕ) (tail : Text)
    → end ≤ length tail
    → take end tail ≡ pre ++ copies n p
    → has_copies n (length p) p end tail ≡ true
unfolding has_copies
copies_are_found zero p pre end tail w e = refl
copies_are_found (suc n) p pre end tail w e =
    let whole : length (pre ++ (copies n p ++ p)) ≡ end =
      sym (ap length e) ∙ length-take end tail w in
    let parts : length (pre ++ (copies n p ++ p)) ≡ length (pre ++ copies n p) + length p =
      ap length (sym (append_assoc pre (copies n p) p)) ∙ length-append (pre ++ copies n p) p in
    let len_fits : length p ≤ end = omega arith in
    let before : length (take (end - length p) tail) ≡ end - length p =
      length-take (end - length p) tail (omega arith) in
    let (here, there) =
      append_injective (take (end - length p) tail) (slice (end - length p) end tail)
        (pre ++ copies n p) p (omega arith)
        (sym (take-slice (end - length p) end tail (omega arith))
          ∙ (e ∙ sym (append_assoc pre (copies n p) p))) in
    let same : text_eq (slice (end - length p) end tail) p ≡ true =
      ap (λ t. text_eq t p) there ∙ text_eq_refl p in
    let rest = copies_are_found n p pre (end - length p) tail (omega arith) here in
    let fits : leb (length p) end ≡ true = le→leb _ _ len_fits in ground arith
