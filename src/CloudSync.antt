-- ===== src/CloudSync.antt =====
-- apps/desktop/web/lib/cloud-sync-bridge.ts: the session that the daemon is told, and the timer of
-- the next refresh. Times are milliseconds. A call of the daemon that fails changes nothing here.
pub mod Timer
mod Tests
use open_pi.Prelude.{
  ℕ, ◌-◌, ◌*◌, max, Bool, true, false, not, ◌||◌, Option, none, some, List, [], ◌∷◌, ◌++◌, ◌==◌,
  if◌then◌else◌,
}
use open_pi.Text.{Text, is_empty}
use open_pi.Supabase.{SupabaseSession, SupabaseConfig}

-- the calls of the daemon
pub data Command : Type 0 where
  cloud_set_auth : SupabaseConfig → Text → ℕ → Command
  cloud_clear_auth : Command
  cloud_register_project : Text → Command

pub record Bridge : Type 0 where
  pub started : Bool
  pub refresh_timer : Option ℕ
  pub commands : List Command

-- the delay of the refresh; a difference below zero gives the least delay too
abbrev pub ms_until_refresh : ℕ → ℕ → ℕ
ms_until_refresh now expires_at = max 15000 (expires_at * 1000 - 120000 - now)

unfoldable pub schedule_refresh : ℕ → Option SupabaseSession → Bridge → Bridge
schedule_refresh now none b = record b { refresh_timer = none }
schedule_refresh now (some s) b = record b {
  refresh_timer = if s.expires_at == 0 then none else some (ms_until_refresh now s.expires_at);
}

unfoldable pub push_session : SupabaseConfig → ℕ → Option SupabaseSession → Bridge → Bridge
push_session config now none b =
    let quiet = schedule_refresh now none b in
    record quiet { commands = quiet.commands ++ cloud_clear_auth ∷ [] }
push_session config now (some s) b =
    schedule_refresh now (some s)
      (record b { commands = b.commands ++ cloud_set_auth config s.access_token s.expires_at ∷ [] })

-- the timer fires, and `refreshSession` has given its result; the timer is over in either case
unfoldable pub refresh_fired : SupabaseConfig → ℕ → Option SupabaseSession → Bridge → Bridge
refresh_fired config now none b = schedule_refresh now none b
refresh_fired config now (some next) b = push_session config now (some next) b

-- the listener of the client: whether there is a user, and the session
unfoldable pub auth_changed : SupabaseConfig → ℕ → Bool → Option SupabaseSession → Bridge → Bridge
auth_changed config now has_user session b =
    push_session config now (if has_user then session else none) b

abbrev pub register : Option Text → Bridge → Bridge
register none b = b
register (some workspace) b =
    if is_empty workspace
    then b
    else record b { commands = b.commands ++ cloud_register_project workspace ∷ [] }

-- `initCloudSyncBridge`, with the workspace of the local storage
unfoldable pub init_cloud_sync_bridge :
    Bool → SupabaseConfig → ℕ → Option SupabaseSession → Option Text → Bridge → Bridge
init_cloud_sync_bridge is_native config now session workspace b =
    if b.started || not is_native
    then b
    else register workspace (push_session config now session (record b { started = true }))

pub data BridgeEvent : Type 0 where
  opened : Bool → Option SupabaseSession → Option Text → BridgeEvent
  changed : Bool → Option SupabaseSession → BridgeEvent
  fired : Option SupabaseSession → BridgeEvent

unfoldable pub step_bridge : SupabaseConfig → Bridge → ℕ × BridgeEvent → Bridge
step_bridge config b (now, opened is_native session workspace) =
    init_cloud_sync_bridge is_native config now session workspace b
step_bridge config b (now, changed has_user session) = auth_changed config now has_user session b
step_bridge config b (now, fired next) = refresh_fired config now next b

unfoldable pub run_bridge : SupabaseConfig → Bridge → List (ℕ × BridgeEvent) → Bridge
run_bridge config b [] = b
run_bridge config b (e ∷ es) = run_bridge config (step_bridge config b e) es
