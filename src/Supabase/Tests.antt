-- ===== src/Supabase/Tests.antt =====
-- A client that signs in, and one that signs out while a refresh is on its way.
use open_pi.Prelude.{◌≡◌, refl, true, false, none, some, List, [], ◌∷◌}
use open_pi.Text.{units, text_eq, trim, trim_start, is_space}
use open_pi.JsValue.{JsValue, null, string, object, end, field, property}
use open_pi.Supabase.{
  SupabaseConfig, SupabaseSession, Client, new_client, load_config, is_configured, start_refresh,
  get_session, notify_auth_state_change, persist_session, logging_out,
}
use open_pi.Supabase.Requests.{
  thrown, answer, session_of, start_sign_out, finish_sign_out, refreshed_user, finish_refresh,
  finish_request, receive, ClientEvent, sign_in, sign_out, read_session, refresh_session, wait,
  reply, step_client, run_client,
}
use open_pi.Supabase.Persisted.{IsPersisted, run_client-new_client-IsPersisted}
use open_pi.Supabase.SignedOut.{leave, look, hear, leaving, IsSignedOut, run_client-IsSignedOut}

abbrev project : SupabaseConfig
project = record { url = units "https://a.b"; anon_key = units "key" }

abbrev session : SupabaseSession
session = record {
  access_token = units "A";
  refresh_token = units "R";
  expires_at = 100;
  user = string (units "me");
}

abbrev tokens : JsValue
tokens = object (
    field (units "access_token") (string (units "B")) (
      field (units "refresh_token") (string (units "S"))
        (field (units "user") (string (units "me")) end)))

-- the session is read when it is due, the user signs out, the server confirms, and then the reply to
-- the refresh arrives
abbrev late_reply : List ClientEvent
late_reply =
    read_session ∷ sign_out ∷ reply 1 (answer true null) ∷ reply 0 (answer true tokens) ∷ []

signed_in_again :
    (run_client (new_client project none (some session) true 50000) late_reply).current_session
    ≡ some (record {
      access_token = units "B";
      refresh_token = units "S";
      expires_at = 3650;
      user = string (units "me");
    })
unfolding run_client step_client new_client load_config get_session start_refresh is_configured trim
    trim_start is_space start_sign_out receive finish_request finish_sign_out persist_session
    notify_auth_state_change finish_refresh refreshed_user session_of property text_eq
signed_in_again = refl

abbrev visit : List ClientEvent
visit =
    sign_in
    ∷ reply 0 (answer true tokens)
    ∷ wait 4000000
    ∷ read_session
    ∷ refresh_session
    ∷ reply 0 (thrown (units "offline"))
    ∷ sign_out
    ∷ []

run_client-new_client-IsPersisted_example :
    IsPersisted (run_client (new_client project none none true 0) visit)
run_client-new_client-IsPersisted_example =
    run_client-new_client-IsPersisted project none none 0 visit

abbrev outside : Client
outside = record {
  config = project;
  current_session = none;
  stored_session = none;
  stored_config = none;
  storage_works = true;
  now = 0;
  sent = record { request = logging_out; url = units "https://a.b"; token = some (units "A") } ∷ [];
  heard = [];
}

run_client-IsSignedOut_example :
    IsSignedOut (run_client outside (reply 0 (answer false tokens) ∷ read_session ∷ sign_out ∷ []))
run_client-IsSignedOut_example =
    run_client-IsSignedOut outside (reply 0 (answer false tokens) ∷ read_session ∷ sign_out ∷ [])
      (hear, (look, (leave, tt))) (refl, (leaving, tt))
