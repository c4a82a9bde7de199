-- ===== src/TurnProgress/Reduce/Verb.antt =====
-- `turnVerb`: the English verb for the activity of a turn.
use open_pi.Prelude.{
  ℕ, ◌≡◌, refl, ap, ◌∙◌, Bool, true, false, ◌||◌, ◌&&◌, ◌==◌, ◌+◌, Option, none, some, List, [],
  ◌∷◌, ◌++◌, arith, if◌then◌else◌, leb, or_else, get_or, count_if, if-then_else_lem,
}
use open_pi.Text.{Text, units, includes, to_lower, lower_unit}
use open_pi.TurnProgress.{
  Stage, submitted, starting, thinking, responding, tool, reviewing, settled, error, TurnProgress,
}

-- the verb for a tool, by what its name in lower case includes
unfoldable pub tool_verb : Text → Text
tool_verb name =
    if includes name (units "bash")
      || includes name (units "terminal")
      || includes name (units "exec")
    then units "Executing"
    else if includes name (units "read")
        || includes name (units "find")
        || includes name (units "grep")
        || includes name (units "search")
    then units "Investigating"
    else if includes name (units "edit")
        || includes name (units "write")
        || includes name (units "patch")
    then units "Refactoring"
    else if includes name (units "subagent")
    then units "Orchestrating"
    else if includes name (units "mcp")
    then units "Interfacing"
    else units "Operating"

-- the verb for a turn with nothing else to tell, by how long it takes
unfoldable pub waiting_verb : ℕ → Text
waiting_verb seconds =
    if leb 12 seconds
    then units "Illuminating"
    else if leb 6 seconds
    then units "Synthesizing"
    else if leb 3 seconds
    then units "Analyzing"
    else units "Reasoning"

unfoldable pub stage_verb : Stage → TurnProgress → ℕ → Text
stage_verb reviewing p seconds = units "Reviewing"
stage_verb tool p seconds = tool_verb (to_lower (or_else p.tool_name []))
stage_verb responding p seconds = units "Formulating"
stage_verb submitted p seconds = waiting_verb seconds
stage_verb starting p seconds = waiting_verb seconds
stage_verb thinking p seconds = waiting_verb seconds
stage_verb settled p seconds = waiting_verb seconds
stage_verb error p seconds = waiting_verb seconds

unfoldable pub turn_verb : Option TurnProgress → ℕ → Text
turn_verb none seconds = units "Reasoning"
turn_verb (some p) seconds = stage_verb p.stage p seconds

-- the verbs of a waiting turn, each from its second on
abbrev pub waiting_verbs : List Text
waiting_verbs =
    units "Reasoning" ∷ units "Analyzing" ∷ units "Synthesizing" ∷ units "Illuminating" ∷ []

abbrev pub waiting_seconds : List ℕ
waiting_seconds = 3 ∷ 6 ∷ 12 ∷ []

-- the stages in which the seconds choose the verb
abbrev pub is_waiting : Stage → Bool
is_waiting reviewing = false
is_waiting tool = false
is_waiting responding = false
is_waiting s = true

waiting_lem {ℓ} :
    {A : Type ℓ} (a b c d x : A) (n : ℕ)
    → (if leb 12 n then d else if leb 6 n then c else if leb 3 n then b else a)
      ≡ get_or (a ∷ b ∷ c ∷ d ∷ []) (count_if (λ k. leb k n) waiting_seconds) x
waiting_lem a b c d x n = ground arith

-- a unit that is lower case already
lower_unit-fixed :
    (c : ℕ)
    → (leb 65 c && leb c 90) ≡ false
    → (c == 0x212a) ≡ false
    → (c == 0x130) ≡ false
    → lower_unit c ≡ c ∷ []
unfolding lower_unit
lower_unit-fixed c h k l = ground arith

to_lower-append_unit :
    (c : ℕ) (s : Text) → to_lower (lower_unit c ++ s) ≡ lower_unit c ++ to_lower s
unfolding to_lower lower_unit
to_lower-append_unit c s =
    let Fixed : Text → Type 0 = λ t. to_lower (t ++ s) ≡ t ++ to_lower s in
    if-then_else_lem Fixed (leb 65 c && leb c 90) _ _
      (λ capital.
        ap (λ t. t ++ to_lower s)
          (lower_unit-fixed (c + 32) (ground arith) (ground arith) (ground arith)))
      (λ h.
        if-then_else_lem Fixed (c == 0x212a) _ _ (λ kelvin. refl)
          (λ k.
            if-then_else_lem Fixed (c == 0x130) _ _ (λ dotted. refl)
              (λ l. ap (λ t. t ++ to_lower s) (lower_unit-fixed c h k l))))

to_lower-to_lower : (s : Text) → to_lower (to_lower s) ≡ to_lower s
unfolding to_lower
to_lower-to_lower [] = refl
to_lower-to_lower (c ∷ s) =
    to_lower-append_unit c (to_lower s) ∙ ap (◌++◌ (lower_unit c)) (to_lower-to_lower s)

stage_verb-waiting :
    (s : Stage) (p : TurnProgress) (n : ℕ)
    → is_waiting s ≡ true
    → stage_verb s p n ≡ get_or waiting_verbs (count_if (λ k. leb k n) waiting_seconds) []
unfolding stage_verb waiting_verb
stage_verb-waiting submitted p n h = waiting_lem _ _ _ _ [] n
stage_verb-waiting starting p n h = waiting_lem _ _ _ _ [] n
stage_verb-waiting thinking p n h = waiting_lem _ _ _ _ [] n
stage_verb-waiting responding p n h = absurd (cc)
stage_verb-waiting tool p n h = absurd (cc)
stage_verb-waiting reviewing p n h = absurd (cc)
stage_verb-waiting settled p n h = waiting_lem _ _ _ _ [] n
stage_verb-waiting error p n h = waiting_lem _ _ _ _ [] n

-- In the stages that wait for the model the verb of a turn is the one among the four whose second,
-- 0, 3, 6 or 12, came last.
pub turn_verb_waiting :
    (p : TurnProgress) (seconds : ℕ)
    → is_waiting p.stage ≡ true
    → turn_verb (some p) seconds
      ≡ get_or waiting_verbs (count_if (λ k. leb k seconds) waiting_seconds) []
unfolding turn_verb
turn_verb_waiting p seconds h = stage_verb-waiting p.stage p seconds h

stage_verb-to_lower :
    (s : Stage) (p : TurnProgress) (name : Text) (n : ℕ)
    → stage_verb s (record p { tool_name = some (to_lower name) }) n
      ≡ stage_verb s (record p { tool_name = some name }) n
unfolding stage_verb
stage_verb-to_lower submitted p name n = refl
stage_verb-to_lower starting p name n = refl
stage_verb-to_lower thinking p name n = refl
stage_verb-to_lower responding p name n = refl
stage_verb-to_lower tool p name n = ap tool_verb (to_lower-to_lower name)
stage_verb-to_lower reviewing p name n = refl
stage_verb-to_lower settled p name n = refl
stage_verb-to_lower error p name n = refl

-- The letter case of the tool's name makes no difference to the verb.
pub turn_verb-to_lower :
    (p : TurnProgress) (name : Text) (seconds : ℕ)
    → turn_verb (some (record p { tool_name = some (to_lower name) })) seconds
      ≡ turn_verb (some (record p { tool_name = some name })) seconds
unfolding turn_verb
turn_verb-to_lower p name seconds = stage_verb-to_lower p.stage p name seconds
