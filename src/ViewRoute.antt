-- ===== src/ViewRoute.antt =====
-- apps/desktop/web/lib/view-route.ts: which view the window shows, from the URL's hash or from what
-- was stored. Views are texts, as the functions get and give them; `null` and `undefined` are
-- `none`.
pub mod Routing
mod Tests
use Prim.Native.String.{String}
use open_pi.Prelude.{
  ℕ, Bool, true, false, not, ◌&&◌, ◌||◌, Option, none, some, List, [], ◌∷◌, ◌++◌, ◌==◌,
  if◌then◌else◌, any, span,
}
use open_pi.Text.{Text, units, text_eq, is_empty}

abbrev pub view_values : List Text
view_values =
    units "today"
    ∷ units "chat"
    ∷ units "tasks"
    ∷ units "capabilities"
    ∷ units "settings"
    ∷ units "memory"
    ∷ units "intelligence"
    ∷ units "daemon"
    ∷ units "git"
    ∷ units "goals"
    ∷ units "activity"
    ∷ units "projects"
    ∷ []

-- `VIEW_VALUES.has(value)`
unfoldable pub has_view : Text → Bool
has_view value = any (λ v. text_eq v value) view_values

unfoldable pub is_view : Option Text → Bool
is_view none = false
is_view (some value) = has_view value

unfoldable pub normalize_view : Option Text → Text
normalize_view none = units "today"
normalize_view (some view) =
    if text_eq view (units "settings")
    then units "capabilities"
    else if is_view (some view)
    then view
    else units "today"

-- `[^/?#]`
abbrev pub is_segment_unit : ℕ → Bool
is_segment_unit c = not (c == b'/') && not (c == b'?') && not (c == b'#')

-- `\/?$`
abbrev pub is_route_end : Text → Bool
is_route_end [] = true
is_route_end (c ∷ []) = c == b'/'
is_route_end (c ∷ d ∷ s) = false

-- `/^#\/([^/?#]+)\/?$/.exec(hash)?.[1]`
unfoldable pub route_segment : Text → Option Text
route_segment [] = none
route_segment (c ∷ []) = none
route_segment (c ∷ d ∷ s) =
    let (segment, rest) = span is_segment_unit s in
    if c == b'#' && d == b'/' && not (is_empty segment) && is_route_end rest
    then some segment
    else none

unfoldable pub view_from_hash : Text → Option Text
view_from_hash hash = let view = route_segment hash in if is_view view then view else none

-- `routed && routed !== "chat"`, and likewise for the stored view
abbrev pub is_landing : Option Text → Bool
is_landing none = false
is_landing (some view) = not (is_empty view) && not (text_eq view (units "chat"))

unfoldable pub landing_or_today : Option Text → Text
landing_or_today none = units "today"
landing_or_today (some view) = if is_landing (some view) then view else units "today"

unfoldable pub initial_view : Text → Option Text → Text
initial_view [] none = units "today"
initial_view [] (some view) =
    if is_landing (some view) && is_view (some view) then view else units "today"
initial_view (c ∷ hash) persisted_view = landing_or_today (view_from_hash (c ∷ hash))

-- `#/${view}`
unfoldable pub hash_for_view : Text → Text
hash_for_view view = units "#/" ++ view
