-- ===== src/Repetition/Looping.antt =====
-- A loop is found exactly if the text ends in six copies of a pattern.
use open_pi.Prelude.{
  ℕ, ◌<◌, ◌≢◌, ◌↔◌, is_some, ltb→ge, ge→ltb, zero, suc, ◌+◌, ◌-◌, ◌*◌, ◌≤◌, ◌≡◌, refl, ap, sym, ◌∙◌,
  subst, true, false, Option, none, some, [], ◌∷◌, ◌++◌, ltb, leb, if◌then◌else◌, length, take,
  drop, any, arith, inl, inr, Bool-cases, le→leb, append_assoc, drop_append_self, length-append,
}
use open_pi.Text.{Text}
use open_pi.Repetition.{
  last_units, is_meaningful, has_copies, is_repeated, find_pattern, trimmed_or_self,
  detect_repetition_loop,
}
use open_pi.Repetition.Copies.{copies, take-drop, length-drop, copies_found, copies_are_found}

-- the text ends in six copies of a pattern of 2 to 30 units, of which one is more than white space
-- or the marks of a divider
pub record IsLooping (text : Text) : Type 0 where
  pub before : Text
  pub pattern : Text
  pub ends : text ≡ before ++ copies 6 pattern
  pub at_least_2 : 2 ≤ length pattern
  pub at_most_30 : length pattern ≤ 30
  pub meaningful : any is_meaningful pattern ≡ true

take-length : (s : Text) → take (length s) s ≡ s
take-length [] = refl
take-length (c ∷ s) = ap (◌∷◌ c) (take-length s)

last_units-length : (n : ℕ) (s : Text) → n ≤ length s → length (last_units n s) ≡ n
last_units-length n s h = let e = length-drop (length s - n) s in omega arith

long_enough : (len : ℕ) (tail : Text) → leb (len * 5) (length tail) ≡ true → len ≤ length tail
long_enough len tail h = let five : len * 5 ≤ length tail = ground arith in omega arith

-- a tail that a round recognises
is_repeated-IsLooping :
    (len : ℕ) (before tail : Text)
    → 2 ≤ len
    → len ≤ 30
    → is_repeated len tail ≡ true
    → IsLooping (before ++ tail)
unfolding is_repeated
is_repeated-IsLooping len before tail l m h =
    let long : leb (len * 5) (length tail) ≡ true = ground arith in
    let meant : any is_meaningful (last_units len tail) ≡ true = ground arith in
    let found : has_copies 6 len (last_units len tail) (length tail) tail ≡ true = ground arith in
    let (pre, e) = copies_found 6 len (last_units len tail) (length tail) tail found in
    let width : length (last_units len tail) ≡ len =
      last_units-length len tail (long_enough len tail long) in
    record {
      before = before ++ pre;
      pattern = last_units len tail;
      ends =
          ap (λ t. before ++ t) (sym (take-length tail) ∙ e)
          ∙ sym (append_assoc before pre (copies 6 (last_units len tail)));
      at_least_2 = omega arith;
      at_most_30 = omega arith;
      meaningful = meant;
    }

last_units_append : (a b : Text) (n : ℕ) → n ≡ length b → last_units n (a ++ b) ≡ b
last_units_append a b n e =
    let w = length-append a b in
    let k : length (a ++ b) - n ≡ length a = omega arith in
    ap (λ i. drop i (a ++ b)) k ∙ drop_append_self a b

length-copies : (n : ℕ) (p : Text) → length (copies n p) ≡ n * length p
length-copies zero p = omega arith
length-copies (suc n) p =
    let ih = length-copies n p in let w = length-append (copies n p) p in grind arith

-- a round recognises a tail of copies
is_repeated-copies :
    (p pre tail : Text)
    → tail ≡ pre ++ copies 6 p
    → any is_meaningful p ≡ true
    → is_repeated (length p) tail ≡ true
unfolding is_repeated
is_repeated-copies p pre tail e m =
    let width = length-copies 6 p in
    let whole = ap length e ∙ length-append pre (copies 6 p) in
    let long : length p * 6 ≤ length tail = omega arith in
    let last : last_units (length p) tail ≡ p =
      ap (last_units (length p)) (e ∙ sym (append_assoc pre (copies 5 p) p))
      ∙ last_units_append (pre ++ copies 5 p) p (length p) refl in
    let found : has_copies 6 (length p) p (length tail) tail ≡ true =
      copies_are_found 6 p pre (length tail) tail (omega arith) (take-length tail ∙ e) in
    let fits : leb (length p * 5) (length tail) ≡ true = le→leb _ _ (omega arith) in
    let meant : any is_meaningful (last_units (length p) tail) ≡ true =
      ap (any is_meaningful) last ∙ m in
    let found_last : has_copies 6 (length p) (last_units (length p) tail) (length tail) tail
        ≡ true =
      ap (λ q. has_copies 6 (length p) q (length tail) tail) last ∙ found in
    ground arith

-- the rounds find a pattern exactly if one of them recognises the tail
find_pattern-IsLooping :
    (n len : ℕ) (before tail : Text)
    → 2 ≤ len
    → len + n ≤ 31
    → is_some (find_pattern n len tail) ≡ true
    → IsLooping (before ++ tail)
unfolding find_pattern
find_pattern-IsLooping zero len before tail l m h = absurd (cc)
find_pattern-IsLooping (suc n) len before tail l m h = elim (Bool-cases (is_repeated len tail)) [
  | inl hit ↦ is_repeated-IsLooping len before tail l (omega arith) hit
  | inr miss ↦ find_pattern-IsLooping n (len + 1) before tail (omega arith) (omega arith) (
      ap (λ b. is_some (if b then some (last_units len tail) else find_pattern n (len + 1) tail))
        (sym miss)
      ∙ h)
]

find_pattern_finds :
    (n len k : ℕ) (tail : Text)
    → len ≤ k
    → k < len + n
    → is_repeated k tail ≡ true
    → is_some (find_pattern n len tail) ≡ true
unfolding find_pattern
find_pattern_finds zero len k tail l m h = absurd (omega arith)
find_pattern_finds (suc n) len k tail l m h = elim (Bool-cases (is_repeated len tail)) [
  | inl hit ↦
      ap (λ b. is_some (if b then some (last_units len tail) else find_pattern n (len + 1) tail))
        hit
  | inr miss ↦
      let later : len ≢ k = λ e.
        let again : is_repeated len tail ≡ true =
          subst (λ j. is_repeated j tail ≡ true) (sym e) h in
        cc in
      ap (λ b. is_some (if b then some (last_units len tail) else find_pattern n (len + 1) tail))
        miss
      ∙ find_pattern_finds n (len + 1) k tail (omega arith) (omega arith) h
]

drop_append_part : (n : ℕ) (a b : Text) → n ≤ length a → drop n (a ++ b) ≡ drop n a ++ b
drop_append_part zero a b h = refl
drop_append_part (suc n) [] b h = absurd (omega arith)
drop_append_part (suc n) (c ∷ a) b h = drop_append_part n a b (omega arith)

IsLooping-found :
    (text : Text) → IsLooping text → is_some (find_pattern 29 2 (last_units 250 text)) ≡ true
IsLooping-found text l =
    let width = length-copies 6 l.pattern in
    let whole = ap length l.ends ∙ length-append l.before (copies 6 l.pattern) in
    let l2 = l.at_least_2 in
    let l30 = l.at_most_30 in
    let tail_ends : last_units 250 text ≡ drop (length text - 250) l.before ++ copies 6 l.pattern =
      ap (drop (length text - 250)) l.ends
      ∙ drop_append_part (length text - 250) l.before (copies 6 l.pattern) (omega arith) in
    find_pattern_finds 29 2 (length l.pattern) (last_units 250 text) l2 (omega arith) (
      is_repeated-copies l.pattern (drop (length text - 250) l.before) (last_units 250 text)
        tail_ends l.meaningful)

-- a result for a text that is long enough
detected : Option Text → Option (Text × ℕ)
detected o = elim o [ none ↦ none | some pattern ↦ some (trimmed_or_self pattern, 6) ]

is_some-detected : (o : Option Text) → is_some (detected o) ≡ is_some o
unfolding detected
is_some-detected none = refl
is_some-detected (some p) = refl

detect_short :
    (text : Text) → ltb (length text) 24 ≡ true → is_some (detect_repetition_loop text) ≡ false
unfolding detect_repetition_loop detected
detect_short text h =
    ap (λ b. is_some (if b then none else detected (find_pattern 29 2 (last_units 250 text)))) h

detect_long :
    (text : Text)
    → ltb (length text) 24 ≡ false
    → is_some (detect_repetition_loop text) ≡ is_some (find_pattern 29 2 (last_units 250 text))
unfolding detect_repetition_loop detected
detect_long text h =
    ap (λ b. is_some (if b then none else detected (find_pattern 29 2 (last_units 250 text)))) h
    ∙ is_some-detected (find_pattern 29 2 (last_units 250 text))

detect_sound :
    (text : Text)
    → is_some (detect_repetition_loop text) ≡ true
    → (24 ≤ length text) × IsLooping text
detect_sound text h = elim (Bool-cases (ltb (length text) 24)) [
  | inl short ↦ let no_loop = detect_short text short in absurd (cc)
  | inr long ↦ (
    ltb→ge _ _ long,
    subst IsLooping (take-drop (length text - 250) text) (
        find_pattern-IsLooping 29 2 (take (length text - 250) text) (last_units 250 text)
          (omega arith) (omega arith) (sym (detect_long text long) ∙ h)),
  )
]

-- A loop is detected exactly if the text has at least 24 units and ends in six copies of a pattern
-- of 2 to 30 units that is not only white space and marks of dividers.
pub detect_repetition_loop-IsLooping :
    (text : Text)
    → (is_some (detect_repetition_loop text) ≡ true) ↔ ((24 ≤ length text) × IsLooping text)
detect_repetition_loop-IsLooping text =
    (detect_sound text, λ (w, l). detect_long text (ge→ltb _ _ w) ∙ IsLooping-found text l)
