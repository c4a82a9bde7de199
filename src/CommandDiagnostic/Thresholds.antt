-- ===== src/CommandDiagnostic/Thresholds.antt =====
-- When a command is slow enough for a card.
use open_pi.Prelude.{
  ℕ, ◌≤◌, ◌≡◌, ◌↔◌, Bool, true, false, ◌&&◌, none, some, is_some, if◌then◌else◌, leb, arith,
}
use open_pi.Text.{Text}
use open_pi.CommandDiagnostic.{
  analyze_command_execution_state, has_phrase, build_phrases, install_phrases,
}

cards :
    (build install : Bool) (t : ℕ) {A : Type 0} (a b c : A)
    → (is_some (
          if build && leb 90 t
          then some a
          else if install && leb 60 t
          then some b
          else if leb 45 t
          then some c
          else none)
        ≡ true)
      ↔ (45 ≤ t)
cards true true t a b c = ground arith
cards true false t a b c = ground arith
cards false true t a b c = ground arith
cards false false t a b c = ground arith

-- A card is shown exactly for a command that has run for 45 seconds, whatever the command is.
pub analyze_command_execution_state-is_some :
    (command_text : Text) (elapsed_seconds : ℕ)
    → (is_some (analyze_command_execution_state command_text elapsed_seconds) ≡ true)
      ↔ (45 ≤ elapsed_seconds)
unfolding analyze_command_execution_state
analyze_command_execution_state-is_some command_text elapsed_seconds =
    cards (has_phrase build_phrases false command_text)
      (has_phrase install_phrases false command_text) elapsed_seconds _ _ _
