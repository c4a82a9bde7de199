-- ===== src/Repetition/Tests.antt =====
-- Tests of the detection of loops, and the property at a concrete input.
use open_pi.Prelude.{◌≡◌, ◌≤◌, ◌↔◌, refl, true, none, some, is_some, length}
use open_pi.Text.{Text, units, text_eq, is_space, trim, trim_start}
use open_pi.Repetition.{
  is_meaningful, has_copies, is_repeated, find_pattern, detect_repetition_loop,
}
use open_pi.Repetition.Looping.{IsLooping, detect_repetition_loop-IsLooping}

abbrev looping : Text
looping = units "so: and and and and and and "

and_found : detect_repetition_loop looping ≡ some (units "and", 6)
unfolding detect_repetition_loop find_pattern is_repeated has_copies is_meaningful trim trim_start
    is_space text_eq
and_found = refl

divider : detect_repetition_loop (units "------------------------------") ≡ none
unfolding detect_repetition_loop find_pattern is_repeated has_copies is_meaningful trim trim_start
    is_space text_eq
divider = refl

detect_repetition_loop-IsLooping_example :
    (is_some (detect_repetition_loop looping) ≡ true) ↔ ((24 ≤ length looping) × IsLooping looping)
detect_repetition_loop-IsLooping_example = detect_repetition_loop-IsLooping looping
