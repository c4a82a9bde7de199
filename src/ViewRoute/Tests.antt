-- ===== src/ViewRoute/Tests.antt =====
-- Tests of the view routes, and the properties at concrete inputs.
use open_pi.Prelude.{◌≡◌, refl, true, false, none, some}
use open_pi.Text.{units, text_eq}
use open_pi.ViewRoute.{
  is_view, has_view, route_segment, view_from_hash, landing_or_today, initial_view, hash_for_view,
}
use open_pi.ViewRoute.Routing.{view_from_hash-hash_for_view}

slash_ends : view_from_hash (units "#/git/") ≡ some (units "git")
unfolding is_view has_view text_eq route_segment view_from_hash
slash_ends = refl

longer_route : view_from_hash (units "#/git/log") ≡ none
unfolding is_view has_view text_eq route_segment view_from_hash
longer_route = refl

query_route : view_from_hash (units "#/git?x") ≡ none
unfolding is_view has_view text_eq route_segment view_from_hash
query_route = refl

chat_start : initial_view (units "#/chat") (some (units "git")) ≡ units "today"
unfolding is_view has_view text_eq route_segment view_from_hash landing_or_today initial_view
chat_start = refl

git-is_view : is_view (some (units "git")) ≡ true
unfolding is_view has_view text_eq
git-is_view = refl

git-chat : text_eq (units "git") (units "chat") ≡ false
unfolding text_eq
git-chat = refl

view_from_hash-hash_for_view_example :
    view_from_hash (hash_for_view (units "git")) ≡ some (units "git")
view_from_hash-hash_for_view_example = view_from_hash-hash_for_view (units "git") git-is_view
