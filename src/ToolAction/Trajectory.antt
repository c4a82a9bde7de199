-- ===== src/ToolAction/Trajectory.antt =====
-- `computeTrajectorySummary`: what an agent does or did, in one line.
use open_pi.Prelude.{
  ℕ, ◌+◌, Bool, not, ◌&&◌, Option, none, some, List, [], ◌∷◌, ◌++◌, if◌then◌else◌, ltb, or_else,
}
use open_pi.Text.{Text, units, is_empty, join, to_lower}
use open_pi.Text.Decimal.{show}
use open_pi.ToolAction.{ActionType, read, write, edit, bash, search', other, includes_any}

-- the numbers of actions of each sort
pub record Counts : Type 0 where
  pub files : ℕ
  pub searches : ℕ
  pub commands : ℕ
  pub others : ℕ

-- one round of the loop; an action can be without a type
unfoldable pub count_action : Counts → Option ActionType → Counts
count_action n (some read) = record n { files = n.files + 1 }
count_action n (some edit) = record n { files = n.files + 1 }
count_action n (some write) = record n { files = n.files + 1 }
count_action n (some search') = record n { searches = n.searches + 1 }
count_action n (some bash) = record n { commands = n.commands + 1 }
count_action n (some other) = record n { others = n.others + 1 }
count_action n none = record n { others = n.others + 1 }

unfoldable pub count_actions : Counts → List (Option ActionType) → Counts
count_actions n [] = n
count_actions n (a ∷ actions) = count_actions (count_action n a) actions

-- `${n} file${n > 1 ? "s" : ""}`, and nothing for none
unfoldable pub counted : ℕ → Text → Text → List Text
counted n noun plural =
    if ltb 0 n then (show n ++ (b' ' ∷ (noun ++ (if ltb 1 n then plural else [])))) ∷ [] else []

unfoldable pub summary_parts : Counts → List Text
summary_parts n =
    let parts =
      counted n.files (units "file") (units "s")
      ++ (counted n.searches (units "search") (units "es")
          ++ counted n.commands (units "command") (units "s")) in
    elim parts [ [] ↦ counted n.others (units "action") (units "s") | part ∷ rest ↦ part ∷ rest ]

-- the line for a tool that is running
unfoldable pub active_summary : Text → Text
active_summary tool_name =
    let lower = to_lower tool_name in
    if includes_any lower (units "bash" ∷ units "run" ∷ units "terminal" ∷ units "exec" ∷ [])
    then units "Running bash command..."
    else if includes_any lower (units "search" ∷ units "grep" ∷ units "find" ∷ [])
    then units "Searching codebase..."
    else if includes_any lower (units "read" ∷ units "view" ∷ [])
    then units "Analyzing files..."
    else if includes_any lower (units "edit" ∷ units "write" ∷ [])
    then units "Applying edits..."
    else units "Running " ++ (tool_name ++ units "...")

-- the line for the actions so far
unfoldable pub actions_summary : List (Option ActionType) → Bool → Text
actions_summary [] is_working = if is_working then units "Working..." else units "Completed"
actions_summary (a ∷ actions) is_working =
    let n =
      count_actions (record { files = 0; searches = 0; commands = 0; others = 0 }) (a ∷ actions) in
    (if is_working then units "Exploring " else units "Explored ")
    ++ join (units ", ") (summary_parts n)

unfoldable pub compute_trajectory_summary : List (Option ActionType) → Bool → Option Text → Text
compute_trajectory_summary actions is_working active_tool_name =
    let tool_name = or_else active_tool_name [] in
    if is_working && not (is_empty tool_name)
    then active_summary tool_name
    else actions_summary actions is_working
