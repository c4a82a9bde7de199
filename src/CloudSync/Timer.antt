-- ===== src/CloudSync/Timer.antt =====
-- apps/desktop/web/lib/cloud-sync-bridge.ts: when the timer waits and what the daemon knows then.
use open_pi.Prelude.{
  ℕ, ◌+◌, ◌*◌, ◌≤◌, ◌≡◌, ◌≢◌, refl, ◌∙◌, inl, inr, ◌⊎◌, Bool, true, false, not, ◌||◌, Option, none,
  some, List, [], ◌∷◌, ◌++◌, ◌==◌, arith, if◌then◌else◌, if-then_else_lem,
}
use open_pi.Text.{Text, is_empty}
use open_pi.Supabase.{SupabaseSession, SupabaseConfig}
use open_pi.CloudSync.{
  Command, cloud_set_auth, cloud_clear_auth, cloud_register_project, Bridge, ms_until_refresh,
  schedule_refresh, push_session, refresh_fired, auth_changed, register, init_cloud_sync_bridge,
  BridgeEvent, opened, changed, fired, step_bridge, run_bridge,
}

-- whether the daemon has a session after the calls, given whether it had one before
unfoldable pub has_auth : Bool → List Command → Bool
has_auth before [] = before
has_auth before (cloud_set_auth config token expires_at ∷ cs) = has_auth true cs
has_auth before (cloud_clear_auth ∷ cs) = has_auth false cs
has_auth before (cloud_register_project workspace ∷ cs) = has_auth before cs

-- The refresh goes out two minutes before the session ends, and never sooner than in 15 seconds.
pub push_session_timer :
    (config : SupabaseConfig) (now : ℕ) (s : SupabaseSession) (b : Bridge)
    → s.expires_at ≢ 0
    → (delay : ℕ) × ((push_session config now (some s) b).refresh_timer ≡ some delay)
      × (15000 ≤ delay)
      × ((now + delay + 120000 ≡ s.expires_at * 1000) ⊎ (delay ≡ 15000))
unfolding push_session schedule_refresh
push_session_timer config now s b lives =
    let set : (s.expires_at == 0) ≡ false = ground arith in
    (ms_until_refresh now s.expires_at, rw set refl, ground arith, ground arith)

-- a timer waits only while the daemon has a session
abbrev pub IsTold : Bridge → Type 0
IsTold b = (b.refresh_timer ≡ none) ⊎ (has_auth false b.commands ≡ true)

has_auth-append :
    (before : Bool) (cs ds : List Command)
    → has_auth before (cs ++ ds) ≡ has_auth (has_auth before cs) ds
unfolding has_auth
has_auth-append before [] ds = refl
has_auth-append before (cloud_set_auth config token expires_at ∷ cs) ds = has_auth-append true cs ds
has_auth-append before (cloud_clear_auth ∷ cs) ds = has_auth-append false cs ds
has_auth-append before (cloud_register_project workspace ∷ cs) ds = has_auth-append before cs ds

push_session-IsTold :
    (config : SupabaseConfig) (now : ℕ) (session : Option SupabaseSession) (b : Bridge)
    → IsTold (push_session config now session b)
unfolding push_session schedule_refresh
push_session-IsTold config now none b = inl refl
push_session-IsTold config now (some s) b =
    inr (has_auth-append false b.commands _ ∙ (unfold has_auth in refl))

register-IsTold : (workspace : Option Text) (b : Bridge) → IsTold b → IsTold (register workspace b)
register-IsTold none b h = h
register-IsTold (some workspace) b h =
    if-then_else_lem IsTold (is_empty workspace) b _ (λ e. h) (λ e. registered h)
  where
    registered :
        IsTold b
        → IsTold (record b { commands = b.commands ++ cloud_register_project workspace ∷ [] })
    registered (inl e) = inl e
    registered (inr e) = inr (has_auth-append false b.commands _ ∙ (unfold has_auth in e))

step_bridge-IsTold :
    (config : SupabaseConfig) (b : Bridge) (e : ℕ × BridgeEvent)
    → IsTold b
    → IsTold (step_bridge config b e)
unfolding step_bridge init_cloud_sync_bridge auth_changed refresh_fired schedule_refresh
step_bridge-IsTold config b (now, opened is_native session workspace) h =
    if-then_else_lem IsTold (b.started || not is_native) b _ (λ e. h)
      (λ e. register-IsTold workspace _ (push_session-IsTold config now session _))
step_bridge-IsTold config b (now, changed has_user session) h =
    push_session-IsTold config now (if has_user then session else none) b
step_bridge-IsTold config b (now, fired none) h = inl refl
step_bridge-IsTold config b (now, fired (some next)) h =
    push_session-IsTold config now (some next) b

abbrev pub idle : Bridge
idle = record { started = false; refresh_timer = none; commands = [] }

run_bridge-IsTold :
    (config : SupabaseConfig) (b : Bridge) (es : List (ℕ × BridgeEvent))
    → IsTold b
    → IsTold (run_bridge config b es)
unfolding run_bridge
run_bridge-IsTold config b [] h = h
run_bridge-IsTold config b (e ∷ es) h =
    run_bridge-IsTold config (step_bridge config b e) es (step_bridge-IsTold config b e h)

-- From the start on, a refresh waits only while the daemon has a session.
pub run_bridge-idle-IsTold :
    (config : SupabaseConfig) (es : List (ℕ × BridgeEvent)) → IsTold (run_bridge config idle es)
run_bridge-idle-IsTold config es = run_bridge-IsTold config idle es (inl refl)
