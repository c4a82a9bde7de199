-- ===== src/Titles/Length.antt =====
-- How long a title is.
use open_pi.Prelude.{
  ℕ, zero, suc, ◌≤◌, ◌≡◌, Bool, true, false, ◌||◌, Option, none, some, [], ◌∷◌, ◌++◌, length,
  length-append, take, if◌then◌else◌, arith, or_else,
}
use open_pi.Text.{Text, units, is_empty, trim, starts_with, includes}
use open_pi.Titles.{
  labelled, objective, role_name, subagent_title, shortened, named_title, names_subagent,
  instance_title, is_unnamed, first_given, prompt_title, without_heading, squeeze,
}

length-take : (n : ℕ) (s : Text) → length (take n s) ≤ n
length-take zero s = omega arith
length-take (suc n) [] = omega arith
length-take (suc n) (c ∷ s) = omega (arith, length-take n s)

-- what was matched behind a short label, or a short title
length-or_else :
    (label : Text) (v : Option Text) (title : Text)
    → length label ≤ 8
    → length title ≤ 32
    → length (or_else (labelled label v) title) ≤ 32
unfolding labelled
length-or_else label none title hl ht = ht
length-or_else label (some v) title hl ht =
    elim (is_empty (trim v))
      as (λ b. length (or_else (if b then none else some (label ++ take 24 (trim v))) title) ≤ 32) [
        | true ↦ ht
        | false ↦ omega (arith, length-append label (take 24 (trim v)), length-take 24 (trim v))
      ]

length-subagent_title : (raw : Text) → length (subagent_title raw) ≤ 32
unfolding subagent_title
length-subagent_title raw =
    length-or_else (units "审计: ") (objective raw) _ (omega arith)
      (length-or_else (units "子任务: ") (role_name raw) (units "后台审计任务") (omega arith) (omega arith))

length-shortened : (title : Text) → length (shortened title) ≤ 32
unfolding shortened
length-shortened title =
    let b : length (take 30 title ++ units "…") ≤ 32 =
      omega (arith, length-append (take 30 title) (units "…"), length-take 30 title) in
    ground arith

length-either :
    (b : Bool) (s t : Text) → length s ≤ 32 → length t ≤ 32 → length (if b then s else t) ≤ 32
length-either true s t hs ht = hs
length-either false s t hs ht = ht

length-named_title : (raw : Text) → length (named_title raw) ≤ 32
unfolding named_title
length-named_title raw =
    length-either
      (names_subagent raw
        || includes raw (units "Ephemeral")
        || starts_with raw (units "【Ephemeral"))
      _ _ (length-subagent_title raw)
      (length-either (includes raw (units "chatgpt.com/share/")) _ _ (omega arith)
        (length-shortened (prompt_title (without_heading (squeeze false raw)))))

-- The title of a conversation that has a name other than the default one has at most 32 units.
pub length-instance_title :
    (label cwd session_name : Option Text)
    → is_unnamed (trim (first_given session_name label)) ≡ false
    → length (instance_title label cwd session_name) ≤ 32
unfolding instance_title
length-instance_title label cwd session_name named =
    rw named (length-named_title (trim (first_given session_name label)))
