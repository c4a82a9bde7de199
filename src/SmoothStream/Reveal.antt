-- ===== src/SmoothStream/Reveal.antt =====
-- The offset grows, stays in the text, is bounded in each frame, and reaches the end.
use open_pi.Prelude.{
  ℕ, zero, suc, ◌+◌, ◌-◌, ◌≤◌, ◌<◌, ◌≡◌, refl, true, false, arith, min, ltb, leb, length,
  if◌then◌else◌, inl, inr, Bool-cases, ltb→lt, ltb→ge,
}
use open_pi.Text.{Text}
use open_pi.SmoothStream.{
  characters_per_second, timed_step, backlog_step, step, splits_pair, next_streaming_text_offset,
}

characters_per_second-le : (r : ℕ) → characters_per_second r ≤ 1_800
unfolding characters_per_second
characters_per_second-le r = ground arith

timed_step-le : (r e : ℕ) → timed_step r e ≤ 90
unfolding timed_step
timed_step-le r e = grind (arith, characters_per_second-le r)

-- a frame shows at least one unit, and at most 96
step_bounds : (r e : ℕ) → (1 ≤ step r e) × (step r e ≤ 96)
unfolding step backlog_step
step_bounds r e = ground (arith, timed_step-le r e)

-- Before the end the offset grows, by at most 97 units, and stays in the text.
pub next_streaming_text_offset_bounds :
    (n : ℕ) (t : Text) (e : ℕ)
    → n < length t
    → (n < next_streaming_text_offset n t e)
      × (next_streaming_text_offset n t e ≤ n + 97)
      × (next_streaming_text_offset n t e ≤ length t)
unfolding next_streaming_text_offset
next_streaming_text_offset_bounds n t e h = ground (arith, step_bounds (length t - n) e)

-- At or past the end the offset is the end.
pub next_streaming_text_offset_end :
    (n : ℕ) (t : Text) (e : ℕ) → length t ≤ n → next_streaming_text_offset n t e ≡ length t
unfolding next_streaming_text_offset
next_streaming_text_offset_end n t e h = ground arith

-- behind the second half of a pair no pair is parted
splits_pair-suc : (t : Text) (k : ℕ) → splits_pair t k ≡ true → splits_pair t (k + 1) ≡ false
splits_pair-suc t k h = let before : k + 1 - 1 ≡ k = omega arith in rw before (ground arith)

splits_pair-moved :
    (t : Text) (k : ℕ) → splits_pair t (if splits_pair t k then k + 1 else k) ≡ false
splits_pair-moved t k = elim (Bool-cases (splits_pair t k)) [
  | inl h ↦ rw h (splits_pair-suc t k h)
  | inr h ↦ rw (h, h) refl
]

splits_pair-end : (t : Text) → splits_pair t (length t) ≡ false
splits_pair-end t = ground arith

-- The offset never parts a surrogate pair.
pub next_streaming_text_offset-whole :
    (n : ℕ) (t : Text) (e : ℕ) → splits_pair t (next_streaming_text_offset n t e) ≡ false
unfolding next_streaming_text_offset
next_streaming_text_offset-whole n t e = elim (Bool-cases (leb (length t) n)) [
  | inl h ↦ rw h (splits_pair-end t)
  | inr h ↦ rw h (splits_pair-moved t (min (length t) (n + step (length t - n) e)))
]

-- the offset after some frames, with the time of each
pub reveal : (ℕ → ℕ) → ℕ → Text → ℕ → ℕ
reveal elapsed zero t n = n
reveal elapsed (suc frames) t n =
    next_streaming_text_offset (reveal elapsed frames t n) t (elapsed frames)

reveal_bounds :
    (elapsed : ℕ → ℕ) (k : ℕ) (t : Text)
    → (min (length t) k ≤ reveal elapsed k t 0) × (reveal elapsed k t 0 ≤ length t)
unfolding reveal
reveal_bounds elapsed zero t = omega arith
reveal_bounds elapsed (suc k) t =
    let n = reveal elapsed k t 0 in
    let (low, high) = reveal_bounds elapsed k t in
    elim (Bool-cases (ltb n (length t))) [
      | inl h ↦
          let (grows, _, within) =
            next_streaming_text_offset_bounds n t (elapsed k) (ltb→lt n (length t) h) in
          omega arith
      | inr h ↦
          let le = ltb→ge n (length t) h in
          let at_end = next_streaming_text_offset_end n t (elapsed k) le in omega arith
    ]

-- Frame after frame the whole text is shown: as many frames as it has units are enough, whatever
-- time each takes, and later frames change nothing.
pub reveal-length :
    (elapsed : ℕ → ℕ) (k : ℕ) (t : Text) → length t ≤ k → reveal elapsed k t 0 ≡ length t
reveal-length elapsed k t h = let (low, high) = reveal_bounds elapsed k t in omega arith
