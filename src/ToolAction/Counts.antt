-- ===== src/ToolAction/Counts.antt =====
-- The numbers in the summary of a trajectory.
use open_pi.Prelude.{
  ◌+◌, ◌≡◌, Bool, true, false, Option, none, some, List, [], ◌∷◌, length, count_if, count_if-append,
  arith,
}
use open_pi.ToolAction.{ActionType, read, write, edit, bash, search', other}
use open_pi.ToolAction.Trajectory.{Counts, count_action, count_actions}

abbrev pub is_file_action : Option ActionType → Bool
is_file_action (some read) = true
is_file_action (some edit) = true
is_file_action (some write) = true
is_file_action _ = false

abbrev pub is_search_action : Option ActionType → Bool
is_search_action (some search') = true
is_search_action _ = false

abbrev pub is_command_action : Option ActionType → Bool
is_command_action (some bash) = true
is_command_action _ = false

-- the counts after the actions, from those before
abbrev pub IsCounted : Counts → List (Option ActionType) → Counts → Type 0
IsCounted n actions m =
    (m.files ≡ n.files + count_if is_file_action actions)
    × (m.searches ≡ n.searches + count_if is_search_action actions)
    × (m.commands ≡ n.commands + count_if is_command_action actions)
    × (m.files + m.searches + m.commands + m.others
        ≡ n.files + n.searches + n.commands + n.others + length actions)

count_action-IsCounted :
    (n : Counts) (a : Option ActionType) → IsCounted n (a ∷ []) (count_action n a)
unfolding count_action
count_action-IsCounted n none = (omega arith, omega arith, omega arith, omega arith)
count_action-IsCounted n (some read) = (omega arith, omega arith, omega arith, omega arith)
count_action-IsCounted n (some write) = (omega arith, omega arith, omega arith, omega arith)
count_action-IsCounted n (some edit) = (omega arith, omega arith, omega arith, omega arith)
count_action-IsCounted n (some bash) = (omega arith, omega arith, omega arith, omega arith)
count_action-IsCounted n (some search') = (omega arith, omega arith, omega arith, omega arith)
count_action-IsCounted n (some other) = (omega arith, omega arith, omega arith, omega arith)

-- Each action is counted once: as work on a file, a search, a command, or something else.
pub count_actions-IsCounted :
    (n : Counts) (actions : List (Option ActionType))
    → IsCounted n actions (count_actions n actions)
unfolding count_actions
count_actions-IsCounted n [] = (omega arith, omega arith, omega arith, omega arith)
count_actions-IsCounted n (a ∷ actions) =
    let m : Counts = count_action n a in
    let (f, s, c, t) : IsCounted n (a ∷ []) m = count_action-IsCounted n a in
    let (f', s', c', t') : IsCounted m actions (count_actions m actions) =
      count_actions-IsCounted m actions in
    (
      omega (arith, count_if-append is_file_action (a ∷ []) actions),
      omega (arith, count_if-append is_search_action (a ∷ []) actions),
      omega (arith, count_if-append is_command_action (a ∷ []) actions),
      omega arith,
    )
