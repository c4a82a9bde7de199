-- ===== src/Supabase/Persisted.antt =====
-- apps/desktop/web/lib/supabase-client.ts: the session in memory, the one in the storage, and what
-- the listeners heard.
use open_pi.Prelude.{
  ℕ, ◌≡◌, refl, sym, ap, inl, inr, ◌⊎◌, Bool, true, false, ◌&&◌, ◌||◌, not, Option, none, some,
  List, [], ◌∷◌, ◌++◌, or_else, Option-cases, get_elem?, if◌then◌else◌, if-then_else_lem,
}
use open_pi.Text.{units, is_empty, includes}
use open_pi.JsValue.{JsValue, get, truthy}
use open_pi.Supabase.{
  SupabaseSession, SupabaseConfig, Request, signing_up, signing_in, logging_out, refreshing,
  updating, verifying, Sent, Client, is_configured, has_token, start_refresh, is_due, get_session,
  user_of, notify_auth_state_change, persist_session, save_config, new_client,
}
use open_pi.Supabase.Requests.{
  Outcome, awaiting, session_of, Reply, thrown, answer, start_sign_up, start_sign_in,
  finish_sign_up, finish_sign_in, start_oauth, finish_oauth, start_sign_out, finish_sign_out,
  refreshed_user, finish_refresh, start_update, with_user, finish_update, finish_request,
  without_at, receive, ClientEvent, sign_up, sign_in, sign_out, read_session, refresh_session,
  update_profile, come_back, configure, wait, reply, step_client, run_client,
}

-- the last value of the list
abbrev pub EndsIn : JsValue → List JsValue → Type 0
EndsIn v vs = (before : List JsValue) × (vs ≡ before ++ v ∷ [])

-- the storage holds the session in memory, and what the listeners heard last, if anything, is its
-- user
abbrev pub IsPersisted : Client → Type 0
IsPersisted c =
    (c.storage_works ≡ true)
    × (c.stored_session ≡ c.current_session)
    × ((c.heard ≡ []) ⊎ EndsIn (user_of c.current_session) c.heard)

start_refresh_lem :
    (P : Client → Type 0) (c : Client)
    → P c
    → ((sent : List Sent) → P (record c { sent = sent }))
    → P (start_refresh c)
unfolding start_refresh
start_refresh_lem P c h k =
    if-then_else_lem P (has_token (λ s. s.refresh_token) c.current_session && is_configured c) _ c
      (λ e. k _) (λ e. h)

-- reading the session changes at most the requests
pub get_session_lem :
    (P : Client → Type 0) (c : Client)
    → P c
    → ((sent : List Sent) → P (record c { sent = sent }))
    → P (get_session c).0
unfolding get_session
get_session_lem P c h k =
    if-then_else_lem P (is_due c.now c.current_session) _ c (λ e. start_refresh_lem P c h k)
      (λ e. h)

pub persist_session-IsPersisted :
    (s : Option SupabaseSession) (c : Client)
    → c.storage_works ≡ true
    → IsPersisted (persist_session s c)
unfolding persist_session notify_auth_state_change
persist_session-IsPersisted s c works =
    let v : Client = record c {
      current_session = s;
      stored_session = if c.storage_works then s else c.stored_session;
    } in
    let (kept, (same, mine)) =
      get_session_lem
        (λ u.
          (u.storage_works ≡ true)
          × ((u.stored_session ≡ u.current_session) × (u.current_session ≡ s)))
        v (works, (rw works refl, refl)) (λ sent. (works, (rw works refl, refl))) in
    let asked = (get_session v).0 in
    let told : (get_session v).1 ≡ asked.current_session = (unfold get_session in sym mine) in
    (kept, same, inr (asked.heard, ap (λ t. asked.heard ++ user_of t ∷ []) told))

with_user-IsPersisted :
    (user : JsValue) (o : Option SupabaseSession) (c : Client)
    → IsPersisted c
    → IsPersisted (with_user user o c)
with_user-IsPersisted user none c h = h
with_user-IsPersisted user (some s) c h = persist_session-IsPersisted _ c h.0

refreshed-IsPersisted :
    (body : JsValue) (o : Option JsValue) (c : Client)
    → IsPersisted c
    → IsPersisted
        (elim o [ none ↦ c | some user ↦ persist_session (some (session_of c.now body user)) c ])
refreshed-IsPersisted body none c h = h
refreshed-IsPersisted body (some user) c h = persist_session-IsPersisted _ c h.0

finish_request-IsPersisted :
    (q : Request) (r : Reply) (c : Client) → IsPersisted c → IsPersisted (finish_request q r c)
unfolding finish_request finish_sign_up finish_sign_in finish_sign_out finish_refresh finish_update
    finish_oauth
finish_request-IsPersisted signing_up (thrown e) c h = h
finish_request-IsPersisted signing_up (answer false body) c h = h
finish_request-IsPersisted signing_up (answer true body) c h =
    if-then_else_lem (λ (p : Client × Outcome). IsPersisted p.0)
      (truthy (get body (units "access_token"))) _ (c, awaiting body)
      (λ e. persist_session-IsPersisted _ c h.0) (λ e. h)
finish_request-IsPersisted signing_in (thrown e) c h = h
finish_request-IsPersisted signing_in (answer false body) c h = h
finish_request-IsPersisted signing_in (answer true body) c h = persist_session-IsPersisted _ c h.0
finish_request-IsPersisted logging_out r c h = persist_session-IsPersisted none c h.0
finish_request-IsPersisted refreshing (thrown e) c h = h
finish_request-IsPersisted refreshing (answer false body) c h = h
finish_request-IsPersisted refreshing (answer true body) c h =
    refreshed-IsPersisted body (refreshed_user body c.current_session) c h
finish_request-IsPersisted updating (thrown e) c h = h
finish_request-IsPersisted updating (answer false body) c h = h
finish_request-IsPersisted updating (answer true body) c h =
    with_user-IsPersisted body c.current_session c h
finish_request-IsPersisted (verifying token refresh expires_in) (thrown e) c h = h
finish_request-IsPersisted (verifying token refresh expires_in) (answer false body) c h = h
finish_request-IsPersisted (verifying token refresh expires_in) (answer true body) c h =
    persist_session-IsPersisted _ c h.0

receive-IsPersisted : (i : ℕ) (r : Reply) (c : Client) → IsPersisted c → IsPersisted (receive i r c)
unfolding receive
receive-IsPersisted i r c h = elim (Option-cases (get_elem? c.sent i)) [
  | inl out ↦ rw (out, receive) h
  | inr (s, found) ↦
      rw (found, receive)
        (finish_request-IsPersisted s.request r (record c { sent = without_at i c.sent }) h)
]

-- what a method that can refuse does to the client
abbrev Holds : Client × Outcome → Type 0
Holds p = IsPersisted p.0

either_client : (b : Bool) (v w : Client × Outcome) → Holds v → Holds w → Holds (if b then v else w)
either_client b v w h k = if-then_else_lem Holds b v w (λ e. h) (λ e. k)

step_client-IsPersisted :
    (c : Client) (e : ClientEvent) → IsPersisted c → IsPersisted (step_client c e)
unfolding step_client start_sign_up start_sign_in start_sign_out start_oauth start_update
    save_config
step_client-IsPersisted c sign_up h = either_client (is_configured c) _ _ h h
step_client-IsPersisted c sign_in h = either_client (is_configured c) _ _ h h
step_client-IsPersisted c sign_out h =
    if-then_else_lem IsPersisted
      (has_token (λ s. s.access_token) c.current_session && is_configured c) _ _ (λ e. h)
      (λ e. persist_session-IsPersisted none c h.0)
step_client-IsPersisted c read_session h = get_session_lem IsPersisted c h (λ sent. h)
step_client-IsPersisted c refresh_session h = start_refresh_lem IsPersisted c h (λ sent. h)
step_client-IsPersisted c update_profile h =
    either_client (has_token (λ s. s.access_token) c.current_session && is_configured c) _ _ h h
step_client-IsPersisted c (come_back params hash) h =
    either_client
      (is_empty hash
        || not (includes hash (units "access_token="))
        || is_empty (or_else params.access_token []))
      _ _ h h
step_client-IsPersisted c (configure config) h = h
step_client-IsPersisted c (wait ms) h = h
step_client-IsPersisted c (reply i r) h = receive-IsPersisted i r c h

run_client-IsPersisted :
    (c : Client) (es : List ClientEvent) → IsPersisted c → IsPersisted (run_client c es)
unfolding run_client
run_client-IsPersisted c [] h = h
run_client-IsPersisted c (e ∷ es) h =
    run_client-IsPersisted (step_client c e) es (step_client-IsPersisted c e h)

-- If the storage works, then after any calls and replies, in any order, the storage of a new client
-- holds the session in memory, and the listeners heard its user last, or nothing yet.
pub run_client-new_client-IsPersisted :
    (default : SupabaseConfig) (config : Option SupabaseConfig) (session : Option SupabaseSession)
    (now : ℕ) (es : List ClientEvent)
    → IsPersisted (run_client (new_client default config session true now) es)
run_client-new_client-IsPersisted default config session now es =
    run_client-IsPersisted (new_client default config session true now) es
      (unfold new_client in (refl, refl, inl refl))
