-- ===== src/Titles/Tests.antt =====
-- A subagent, a long prompt, and a conversation without a name.
use open_pi.Prelude.{◌≡◌, refl, none, some, false}
use open_pi.Text.{
  Text, units, text_eq, includes, starts_with, trim, trim_start, is_space, split, join,
}
use open_pi.Text.Tags.{starts_with_i}
use open_pi.Titles.{
  instance_title, is_unnamed, first_given, named_title, unnamed_title, short_workspace_path,
  last_two, names_subagent, skip_spaces, subagent_title, objective, find_field, field_here,
  after_colon, captured, labelled,
}

abbrev audit : Text
audit = units "Ephemeral Subagent Objective: check tests."

audit_title : instance_title (some audit) none none ≡ units "审计: check tests"
unfolding instance_title named_title names_subagent skip_spaces subagent_title objective find_field
    field_here after_colon captured labelled text_eq includes starts_with starts_with_i trim
    trim_start is_space
audit_title = refl

path_title : instance_title none (some (units "/a/b/c")) none ≡ units "b/c 会话"
unfolding instance_title unnamed_title short_workspace_path last_two text_eq starts_with split join
    trim trim_start is_space
path_title = refl

audit_named : is_unnamed (trim (first_given none (some audit))) ≡ false
unfolding text_eq trim trim_start is_space
audit_named = refl
