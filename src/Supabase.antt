-- ===== src/Supabase.antt =====
-- apps/desktop/web/lib/supabase-client.ts: the session of the user and the requests that set it. An
-- asynchronous method is two functions: what it does until it waits for the server, and what it does
-- with the reply. The reply is a value of the server, so it is an argument. `JSON` and the storage
-- keep a session as it is, where the storage works. Times are milliseconds.
pub mod Requests
pub mod Persisted
pub mod SignedOut
mod Tests
use Prim.Native.String.{String}
use open_pi.Prelude.{
  ℕ, ◌+◌, ◌-◌, ◌*◌, ◌/◌, Bool, true, false, not, ◌&&◌, ◌||◌, Option, none, some, List, [], ◌∷◌,
  ◌++◌, ltb, ◌==◌, span, or_else, if◌then◌else◌,
}
use open_pi.Text.{Text, units, is_empty, trim}
use open_pi.JsValue.{JsValue, null, or_value}
use mathlib.Core.List.{reverse}

pub record SupabaseSession : Type 0 where
  pub access_token : Text
  pub refresh_token : Text
  pub expires_at : ℕ  -- seconds
  pub user : JsValue

pub record SupabaseConfig : Type 0 where
  pub url : Text
  pub anon_key : Text

-- the requests that wait for a reply, with what their methods still need
pub data Request : Type 0 where
  signing_up signing_in logging_out refreshing updating : Request
  verifying : Text → Text → ℕ → Request

-- a request as it is sent: its address, and the token in its header
pub record Sent : Type 0 where
  pub request : Request
  pub url : Text
  pub token : Option Text

pub record Client : Type 0 where
  pub config : SupabaseConfig
  pub current_session : Option SupabaseSession
  pub stored_session : Option SupabaseSession
  pub stored_config : Option SupabaseConfig
  pub storage_works : Bool
  pub now : ℕ
  pub sent : List Sent
  pub heard : List JsValue

unfoldable pub is_configured : Client → Bool
is_configured c = not (is_empty (trim c.config.url)) && not (is_empty (trim c.config.anon_key))

-- `s.replace(/\/+$/, "")`
unfoldable pub without_slashes : Text → Text
without_slashes s = reverse (span (λ c. c == b'/') (reverse s)).1

abbrev pub clean_config : SupabaseConfig → SupabaseConfig
clean_config config = record {
  url = without_slashes (trim config.url);
  anon_key = trim config.anon_key;
}

unfoldable pub save_config : SupabaseConfig → Client → Client
save_config config c = record c {
  config = clean_config config;
  stored_config = if c.storage_works then some (clean_config config) else c.stored_config;
}

-- what the storage holds, or the built-in configuration
unfoldable pub load_config : SupabaseConfig → Option SupabaseConfig → SupabaseConfig
load_config default none = default
load_config default (some saved) =
    if not (is_empty saved.url) && not (is_empty saved.anon_key)
    then clean_config saved
    else default

-- a client that is made with what the storage holds
unfoldable pub new_client :
    SupabaseConfig → Option SupabaseConfig → Option SupabaseSession → Bool → ℕ → Client
new_client default stored_config stored_session storage_works now = record {
  config = load_config default stored_config;
  current_session = stored_session;
  stored_session = stored_session;
  stored_config = stored_config;
  storage_works = storage_works;
  now = now;
  sent = [];
  heard = [];
}

-- a request is sent to the path
abbrev pub send : Request → Text → Option Text → Client → Client
send request path token c = record c {
  sent = c.sent ++ record { request = request; url = c.config.url ++ path; token = token } ∷ [];
}

-- `session?.field` is truthy
abbrev pub has_token : (SupabaseSession → Text) → Option SupabaseSession → Bool
has_token field none = false
has_token field (some s) = not (is_empty (field s))

-- `refreshSession`, until it waits
unfoldable pub start_refresh : Client → Client
start_refresh c =
    if has_token (λ s. s.refresh_token) c.current_session && is_configured c
    then send refreshing (units "/auth/v1/token?grant_type=refresh_token") none c
    else c

-- `expires_at && Date.now() / 1000 > expires_at - 60`
abbrev pub is_due : ℕ → Option SupabaseSession → Bool
is_due now none = false
is_due now (some s) = not (s.expires_at == 0) && ltb (s.expires_at * 1000) (now + 60000)

-- `getSession`: the session, and a refresh that goes on in the background
unfoldable pub get_session : Client → Client × Option SupabaseSession
get_session c = (if is_due c.now c.current_session then start_refresh c else c, c.current_session)

abbrev pub user_of : Option SupabaseSession → JsValue
user_of none = null
user_of (some s) = or_value s.user null

-- `notifyAuthStateChange`
unfoldable pub notify_auth_state_change : Client → Client
notify_auth_state_change c =
    let (asked, session) = get_session c in
    record asked { heard = asked.heard ++ user_of session ∷ [] }

unfoldable pub persist_session : Option SupabaseSession → Client → Client
persist_session session c = notify_auth_state_change (record c {
  current_session = session;
  stored_session = if c.storage_works then session else c.stored_session;
})
