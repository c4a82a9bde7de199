-- ===== src/CloudSync/Tests.antt =====
-- A session that is pushed when the window opens, and signed out later.
use open_pi.Prelude.{refl, ℕ, ◌≡◌, true, false, none, some, List, [], ◌∷◌}
use open_pi.Text.{units}
use open_pi.JsValue.{string}
use open_pi.Supabase.{SupabaseConfig, SupabaseSession}
use open_pi.CloudSync.{
  cloud_set_auth, cloud_register_project, cloud_clear_auth, step_bridge, init_cloud_sync_bridge,
  schedule_refresh, refresh_fired, auth_changed, push_session, BridgeEvent, opened, changed, fired,
  run_bridge,
}
use open_pi.CloudSync.Timer.{idle}

abbrev project : SupabaseConfig
project = record { url = units "https://a.b"; anon_key = units "key" }

abbrev session : SupabaseSession
session = record {
  access_token = units "A";
  refresh_token = units "R";
  expires_at = 3600;
  user = string (units "me");
}

abbrev events : List (ℕ × BridgeEvent)
events =
    (0, opened true (some session) (some (units "/work")))
    ∷ (3480000, fired (some session))
    ∷ (3480001, changed false none)
    ∷ []

told :
    (run_bridge project idle events).commands
    ≡ cloud_set_auth project (units "A") 3600
      ∷ cloud_register_project (units "/work")
      ∷ cloud_set_auth project (units "A") 3600
      ∷ cloud_clear_auth
      ∷ []
unfolding run_bridge step_bridge init_cloud_sync_bridge push_session schedule_refresh refresh_fired
    auth_changed
told = refl
