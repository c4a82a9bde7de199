-- ===== src/Supabase/Requests.antt =====
-- apps/desktop/web/lib/supabase-client.ts: the methods of the client, and the events that a client
-- goes through. A body `null`, whose fields cannot be read, counts as thrown; a lifetime in a reply
-- is a number where it is given, and a token that is missing is empty.
use open_pi.Prelude.{
  ℕ, zero, suc, ◌+◌, ◌/◌, Bool, true, false, not, ◌&&◌, ◌||◌, Option, none, some, List, [], ◌∷◌,
  ◌++◌, take, drop, or_else, get_elem?, if◌then◌else◌,
}
use open_pi.Text.{Text, units, is_empty, includes, starts_with}
use open_pi.JsValue.{JsValue, get, as_string, as_number, is_text, truthy}
use open_pi.Supabase.{
  start_refresh, SupabaseSession, SupabaseConfig, Request, signing_up, signing_in, logging_out,
  refreshing, updating, verifying, Sent, Client, is_configured, send, has_token, get_session,
  persist_session, save_config,
}

-- what comes back from the server: the message of an error that is thrown, or a body with the
-- success of the request
pub data Reply : Type 0 where
  thrown : Text → Reply
  answer : Bool → JsValue → Reply

-- what a method returns
pub data Outcome : Type 0 where
  nothing : Outcome
  failure : Text → Outcome
  signed_in : JsValue → SupabaseSession → Outcome
  awaiting : JsValue → Outcome
  profile : JsValue → Outcome

-- `data.field`, where it is a text that is not empty, or the other text
abbrev pub error_or : JsValue → Text → Text → Text
error_or body key other = elim (as_string (get body key)) [
  | none ↦ other
  | some s ↦ if is_empty s then other else s
]

abbrev pub text_field : JsValue → Text → Text
text_field body key = or_else (as_string (get body key)) []

-- `data.expires_in || 3600`
abbrev pub lifetime : Option ℕ → ℕ
lifetime none = 3600
lifetime (some zero) = 3600
lifetime (some (suc n)) = suc n

-- the session of a reply
unfoldable pub session_of : ℕ → JsValue → JsValue → SupabaseSession
session_of now body user = record {
  access_token = text_field body (units "access_token");
  refresh_token = text_field body (units "refresh_token");
  expires_at = now / 1000 + lifetime (as_number (get body (units "expires_in")));
  user = user;
}

abbrev pub not_configured : Text
not_configured = units "尚未配置 Supabase 项目地址与 Anon Key，请先配置。"

-- `signUp` and `signIn`, until they wait
unfoldable pub start_sign_up : Client → Client × Outcome
start_sign_up c =
    if is_configured c
    then (send signing_up (units "/auth/v1/signup") none c, nothing)
    else (c, failure not_configured)

unfoldable pub start_sign_in : Client → Client × Outcome
start_sign_in c =
    if is_configured c
    then (send signing_in (units "/auth/v1/token?grant_type=password") none c, nothing)
    else (c, failure not_configured)

abbrev pub network_error : Text → Text
network_error e = units "网络请求失败: " ++ e

unfoldable pub sign_up_error : JsValue → Text
sign_up_error body = error_or body (units "msg") (
    error_or body (units "message")
      (error_or body (units "error_description") (units "注册失败，请检查邮箱与密码格式。")))

unfoldable pub sign_in_error : JsValue → Text
sign_in_error body = error_or body (units "error_description") (
    error_or body (units "msg") (
      error_or body (units "message") (
        if is_text (get body (units "error")) (units "invalid_grant")
        then units "邮箱或密码错误，请重试。"
        else units "登录失败")))

-- the session is kept and returned
abbrev pub enter : JsValue → SupabaseSession → Client → Client × Outcome
enter user session c = (persist_session (some session) c, signed_in user session)

unfoldable pub finish_sign_up : Reply → Client → Client × Outcome
finish_sign_up (thrown e) c = (c, failure (network_error e))
finish_sign_up (answer false body) c = (c, failure (sign_up_error body))
finish_sign_up (answer true body) c =
    let user = get body (units "user") in
    if truthy (get body (units "access_token"))
    then enter user (session_of c.now body user) c
    else (c, awaiting body)

unfoldable pub finish_sign_in : Reply → Client → Client × Outcome
finish_sign_in (thrown e) c = (c, failure (units "登录" ++ network_error e))
finish_sign_in (answer false body) c = (c, failure (sign_in_error body))
finish_sign_in (answer true body) c =
    let user = get body (units "user") in enter user (session_of c.now body user) c

-- `handleOAuthCallbackFromHash`: the parameters of the address, as `URLSearchParams` reads them
pub record HashParams : Type 0 where
  pub access_token : Option Text
  pub refresh_token : Option Text
  pub expires_in : ℕ

-- the part of the hash that is read
abbrev pub hash_query : Text → Text
hash_query h = if starts_with h (units "#") then drop 1 h else h

unfoldable pub start_oauth : (Text → HashParams) → Text → Client → Client × Outcome
start_oauth read hash c =
    let params = read (hash_query hash) in
    let token = or_else params.access_token [] in
    if is_empty hash || not (includes hash (units "access_token=")) || is_empty token
    then (c, nothing)
    else (
      send (verifying token (or_else params.refresh_token []) params.expires_in)
          (units "/auth/v1/user") (some token) c,
      nothing,
    )

unfoldable pub finish_oauth : Text → Text → ℕ → Reply → Client → Client × Outcome
finish_oauth token refresh expires_in (thrown e) c = (c, failure (units "OAuth 认证失败: " ++ e))
finish_oauth token refresh expires_in (answer false body) c =
    (c, failure (units "无法验证 OAuth 用户身份信息"))
finish_oauth token refresh expires_in (answer true body) c =
    enter body
      (record {
        access_token = token;
        refresh_token = refresh;
        expires_at = c.now / 1000 + expires_in;
        user = body;
      })
      c

-- `signOut`: the session goes when the server has replied, or at once without a request
unfoldable pub start_sign_out : Client → Client
start_sign_out c =
    if has_token (λ s. s.access_token) c.current_session && is_configured c
    then send logging_out (units "/auth/v1/logout") (token_of c.current_session) c
    else persist_session none c
  where
    token_of : Option SupabaseSession → Option Text
    token_of none = none
    token_of (some s) = some s.access_token

unfoldable pub finish_sign_out : Client → Client
finish_sign_out c = persist_session none c

-- the user of a refreshed session; without a session there is none to take over, and the method fails
unfoldable pub refreshed_user : JsValue → Option SupabaseSession → Option JsValue
refreshed_user body current =
    if truthy (get body (units "user"))
    then some (get body (units "user"))
    else elim current [ none ↦ none | some s ↦ some s.user ]

unfoldable pub finish_refresh : Reply → Client → Client
finish_refresh (thrown e) c = c
finish_refresh (answer false body) c = c
finish_refresh (answer true body) c = elim (refreshed_user body c.current_session) [
  | none ↦ c
  | some user ↦ persist_session (some (session_of c.now body user)) c
]

-- `updateUserProfile`
unfoldable pub start_update : Client → Client × Outcome
start_update c =
    if has_token (λ s. s.access_token) c.current_session && is_configured c
    then (
      send updating (units "/auth/v1/user") (some (or_else (token_of c.current_session) [])) c,
      nothing,
    )
    else (c, failure (units "尚未登录或未配置 Supabase"))
  where
    token_of : Option SupabaseSession → Option Text
    token_of none = none
    token_of (some s) = some s.access_token

abbrev pub with_user : JsValue → Option SupabaseSession → Client → Client
with_user user none c = c
with_user user (some s) c = persist_session (some (record s { user = user })) c

unfoldable pub finish_update : Reply → Client → Client × Outcome
finish_update (thrown e) c = (c, failure (units "更新资料请求失败: " ++ e))
finish_update (answer false body) c =
    (c, failure (error_or body (units "msg") (error_or body (units "message") (units "更新用户档案失败"))))
finish_update (answer true body) c = (with_user body c.current_session c, profile body)

-- what a reply does to the client
unfoldable pub finish_request : Request → Reply → Client → Client
finish_request signing_up r c = (finish_sign_up r c).0
finish_request signing_in r c = (finish_sign_in r c).0
finish_request logging_out r c = finish_sign_out c
finish_request refreshing r c = finish_refresh r c
finish_request updating r c = (finish_update r c).0
finish_request (verifying token refresh expires_in) r c =
    (finish_oauth token refresh expires_in r c).0

-- the requests without the one that got its reply
abbrev pub without_at : ℕ → List Sent → List Sent
without_at i sent = take i sent ++ drop (suc i) sent

-- the reply to the request at the index arrives; the replies come in any order
unfoldable pub receive : ℕ → Reply → Client → Client
receive i r c = elim (get_elem? c.sent i) [
  | none ↦ c
  | some s ↦ finish_request s.request r (record c { sent = without_at i c.sent })
]

pub data ClientEvent : Type 0 where
  sign_up sign_in sign_out read_session refresh_session update_profile : ClientEvent
  come_back : HashParams → Text → ClientEvent
  configure : SupabaseConfig → ClientEvent
  wait : ℕ → ClientEvent
  reply : ℕ → Reply → ClientEvent

unfoldable pub step_client : Client → ClientEvent → Client
step_client c sign_up = (start_sign_up c).0
step_client c sign_in = (start_sign_in c).0
step_client c sign_out = start_sign_out c
step_client c read_session = (get_session c).0
step_client c refresh_session = start_refresh c
step_client c update_profile = (start_update c).0
step_client c (come_back params hash) = (start_oauth (λ query. params) hash c).0
step_client c (configure config) = save_config config c
step_client c (wait ms) = record c { now = c.now + ms }
step_client c (reply i r) = receive i r c

unfoldable pub run_client : Client → List ClientEvent → Client
run_client c [] = c
run_client c (e ∷ es) = run_client (step_client c e) es
