-- ===== src/Supabase/SignedOut.antt =====
-- apps/desktop/web/lib/supabase-client.ts: a client without a session, and the requests that cannot
-- bring one.
use open_pi.Prelude.{
  ℕ, zero, suc, ◌≡◌, refl, subst, inl, inr, true, false, ◌&&◌, Option, none, some, List, [], ◌∷◌,
  take, drop, get_elem?, All, All-append, Option-cases, if-then_else_lem,
}
use open_pi.JsValue.{JsValue}
use open_pi.Supabase.{
  start_refresh, SupabaseSession, SupabaseConfig, Request, logging_out, updating, Sent, Client,
  is_configured, has_token, get_session, notify_auth_state_change, persist_session, save_config,
}
use open_pi.Supabase.Requests.{
  Outcome, Reply, thrown, answer, start_sign_out, finish_sign_out, start_update, with_user,
  finish_update, finish_request, without_at, receive, ClientEvent, sign_out, read_session,
  refresh_session, update_profile, configure, wait, reply, step_client, run_client,
}
use open_pi.Recap.Bounded.{take-All}

-- requests whose replies set no session
pub data IsIdle : Request → Type 0 where
  leaving : IsIdle logging_out
  editing : IsIdle updating

abbrev pub IsIdleSent : Sent → Type 0
IsIdleSent s = IsIdle s.request

-- no session, and no request that can set one
abbrev pub IsSignedOut : Client → Type 0
IsSignedOut c = (c.current_session ≡ none) × All IsIdleSent c.sent

-- an event that is no call to sign in
pub data IsQuiet : ClientEvent → Type 0 where
  leave : IsQuiet sign_out
  look : IsQuiet read_session
  renew : IsQuiet refresh_session
  edit : IsQuiet update_profile
  set_up : {config : SupabaseConfig} → IsQuiet (configure config)
  pause : {ms : ℕ} → IsQuiet (wait ms)
  hear : {i : ℕ} {r : Reply} → IsQuiet (reply i r)

drop-All {ℓ κ} : {A : Type ℓ} (P : A → Type κ) (n : ℕ) (xs : List A) → All P xs → All P (drop n xs)
drop-All P zero xs h = h
drop-All P (suc n) [] h = tt
drop-All P (suc n) (x ∷ xs) (h, hs) = drop-All P n xs hs

get_elem?-All {ℓ κ} :
    {A : Type ℓ} (P : A → Type κ) (xs : List A) (i : ℕ) (x : A)
    → All P xs
    → get_elem? xs i ≡ some x
    → P x
get_elem?-All P [] i x h e = absurd (cc)
get_elem?-All P (y ∷ xs) zero x (h, hs) e = let same : y ≡ x = cc in subst P same h
get_elem?-All P (y ∷ xs) (suc i) x (h, hs) e = get_elem?-All P xs i x hs e

-- without a session no refresh goes out
get_session_out : (c : Client) → c.current_session ≡ none → (get_session c).0 ≡ c
unfolding get_session
get_session_out c e = rw e refl

start_refresh_out : (c : Client) → c.current_session ≡ none → start_refresh c ≡ c
unfolding start_refresh
start_refresh_out c e = rw e refl

persist_session-IsSignedOut :
    (c : Client) → All IsIdleSent c.sent → IsSignedOut (persist_session none c)
unfolding persist_session notify_auth_state_change get_session
persist_session-IsSignedOut c h = (refl, h)

with_user_out :
    (user : JsValue) (o : Option SupabaseSession) (c : Client) → o ≡ none → with_user user o c ≡ c
with_user_out user none c e = refl
with_user_out user (some s) c e = absurd (cc)

finish_request-IsSignedOut :
    (q : Request) (r : Reply) (c : Client)
    → IsIdle q
    → IsSignedOut c
    → IsSignedOut (finish_request q r c)
unfolding finish_request finish_sign_out finish_update
finish_request-IsSignedOut _ r c leaving h = persist_session-IsSignedOut c h.1
finish_request-IsSignedOut _ (thrown e) c editing h = h
finish_request-IsSignedOut _ (answer false body) c editing h = h
finish_request-IsSignedOut _ (answer true body) c editing h =
    rw (with_user_out body c.current_session c h.0) h

receive-IsSignedOut : (i : ℕ) (r : Reply) (c : Client) → IsSignedOut c → IsSignedOut (receive i r c)
unfolding receive
receive-IsSignedOut i r c h = elim (Option-cases (get_elem? c.sent i)) [
  | inl out ↦ rw (out, receive) h
  | inr (s, found) ↦
      rw (found, receive)
        (finish_request-IsSignedOut s.request r (record c { sent = without_at i c.sent })
          (get_elem?-All IsIdleSent c.sent i s h.1 found)
          (
            h.0,
            All-append IsIdleSent (take i c.sent) (drop (suc i) c.sent)
                (take-All IsIdleSent i c.sent h.1) (drop-All IsIdleSent (suc i) c.sent h.1),
          ))
]

step_client-IsSignedOut :
    (c : Client) (e : ClientEvent) → IsQuiet e → IsSignedOut c → IsSignedOut (step_client c e)
unfolding step_client start_sign_out start_update save_config
step_client-IsSignedOut c _ leave h =
    if-then_else_lem IsSignedOut
      (has_token (λ s. s.access_token) c.current_session && is_configured c) _ _
      (λ e. (h.0, All-append IsIdleSent c.sent _ h.1 (leaving, tt)))
      (λ e. persist_session-IsSignedOut c h.1)
step_client-IsSignedOut c _ renew h = rw (start_refresh_out c h.0) h
step_client-IsSignedOut c _ look h = rw (get_session_out c h.0) h
step_client-IsSignedOut c _ edit h =
    if-then_else_lem (λ (p : Client × Outcome). IsSignedOut p.0)
      (has_token (λ s. s.access_token) c.current_session && is_configured c) _ _
      (λ e. (h.0, All-append IsIdleSent c.sent _ h.1 (editing, tt))) (λ e. h)
step_client-IsSignedOut c _ set_up h = h
step_client-IsSignedOut c _ pause h = h
step_client-IsSignedOut c _ (hear {i} {r}) h = receive-IsSignedOut i r c h

-- Without a session, and with no requests that wait but logouts and updates of the profile, events
-- other than calls to sign in bring no session, whatever the replies are.
pub run_client-IsSignedOut :
    (c : Client) (es : List ClientEvent)
    → All IsQuiet es
    → IsSignedOut c
    → IsSignedOut (run_client c es)
unfolding run_client
run_client-IsSignedOut c [] q h = h
run_client-IsSignedOut c (e ∷ es) (q, qs) h =
    run_client-IsSignedOut (step_client c e) es qs (step_client-IsSignedOut c e q h)
