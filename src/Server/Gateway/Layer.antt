-- ===== src/Server/Gateway/Layer.antt =====
-- mcp/mod.rs, `auth_layer`: a request reaches its handler, with the role that it was given, or is
-- answered here. Each lock is taken for one call; there is no await between the calls, and here the
-- layer is one step. What the outside decides during it is a `Moment`.
use at_pc.Common.{
  Str, ascii, Bool, not, ◌&&◌, ◌||◌, Option, none, some, Eq, starts_with, if◌then◌else◌, ℕ,
}
use at_pc.Protocol.{Role, admin, role_le}
use at_pc.Server.KeyStore.{Principal}
use at_pc.Server.KeyStore.Store.{Crates, verify}
use at_pc.Server.RateLimit.{
  RateLimitDecision, allowed, rate_limited, banned, check_at, record_failure_at, record_success,
}
use at_pc.Server.RateLimit.Quota.{check_and_record_at}
use at_pc.Server.Sessions.{validate_session}
use at_pc.Server.Gateway.Access.{
  ServerConfig, is_auth_exempt, handler_min_role, has_credentials, get_role_for_token,
}
use at_pc.Server.Gateway.Credential.{CredentialSource, extract_credential}
use at_pc.Server.Gateway.State.{
  McpHttpState, Peer, Request, Moment, Answer, next_exempt, next_with, address_banned,
  rate_exceeded, device_token_used, lacks_scope, unauthorized, role_too_low, quota_exceeded,
  peer_loopback, token_of, is_query, is_given, audit_auth_failure, Resolved, nobody, of_principal,
  Lookup, found, is_device, no_scope, bad_key, judge, no_active_keys, key_of,
}

-- A session token is looked up among the sessions.
unfoldable pub session_stage :
    {Ip : Type 0} → McpHttpState Ip → Str → Moment → McpHttpState Ip × Resolved
session_stage s token m =
    let (sessions, p) = validate_session s.session_store token m.at_session in
    if starts_with (ascii "atpc_sess_") token
    then (record s { session_store = sessions }, of_principal p)
    else (s, nobody)

module _ (c : Crates) {Ip : Type 0} where
  verify_in : McpHttpState Ip → Resolved → Str → Moment → McpHttpState Ip × Lookup
  verify_in s known token m = elim s.keystore [
    | none ↦ (s, found known)
    | some ks ↦
        let (ks', result) = verify c ks token m.at_verify m.date m.saved in
        (record s { keystore = some ks' }, judge known result)
  ]

  -- A token that has no role yet is a key of the key store.
  unfoldable pub key_stage : McpHttpState Ip → Resolved → Str → Moment → McpHttpState Ip × Lookup
  unfolding verify_in
  key_stage s known token m = elim known.role [
    | some r ↦ (s, found known)
    | none ↦ verify_in s known token m
  ]

  unfoldable pub lookup : McpHttpState Ip → Option Str → Moment → McpHttpState Ip × Lookup
  unfolding session_stage key_stage
  lookup s none m = (s, found nobody)
  lookup s (some token) m = let (s', known) = session_stage s token m in key_stage s' known token m

-- A token that has no role yet is a credential of the configuration file.
unfoldable pub config_role : ServerConfig → Option Str → Option Role → Option Role
config_role config token (some r) = some r
config_role config none none = none
config_role config (some token) none =
    if has_credentials config then get_role_for_token config token else none

abbrev pub allow_local_admin : {Ip : Type 0} → McpHttpState Ip → Bool → Bool
allow_local_admin s loopback =
    s.config.insecure_no_auth
    || (loopback && (not (has_credentials s.config) && no_active_keys s.keystore))

unfoldable pub local_role : {Ip : Type 0} → McpHttpState Ip → Bool → Option Role → Option Role
local_role s loopback (some r) = some r
local_role s loopback none = if allow_local_admin s loopback then some admin else none

-- The quota of the key, and the call of the handler.
unfoldable pub spend_quota :
    {Ip : Type 0}
    → McpHttpState Ip
    → Option (Str × CredentialSource)
    → Role
    → Option Principal
    → Moment
    → McpHttpState Ip × Answer
spend_quota s credential role principal m =
    let (tracker, quota) = check_and_record_at s.quota_tracker (key_of principal) m.at_quota in
    (
      record s { quota_tracker = tracker },
      if quota.allowed
          then next_with role (token_of credential) principal quota (is_query credential)
          else quota_exceeded quota,
    )

-- The role that the path asks for, then the quota.
unfoldable pub gate :
    {Ip : Type 0}
    → McpHttpState Ip
    → Request Ip
    → Option (Str × CredentialSource)
    → Role
    → Option Principal
    → Moment
    → McpHttpState Ip × Answer
unfolding spend_quota
gate s req credential role principal m = elim (handler_min_role req.path req.method) [
  | none ↦ spend_quota s credential role principal m
  | some min ↦
      if role_le min role
      then spend_quota s credential role principal m
      else (s, role_too_low min role)
]

-- The decision of the last test as the number of seconds that a refusal tells.
abbrev pub limited_secs : RateLimitDecision → Option ℕ
limited_secs allowed = none
limited_secs (rate_limited secs) = some secs
limited_secs (banned secs) = some secs

abbrev pub banned_secs : RateLimitDecision → Option ℕ
banned_secs allowed = none
banned_secs (rate_limited secs) = none
banned_secs (banned secs) = some secs

abbrev pub refusal : Bool → Option ℕ → Answer
refusal given none = unauthorized given
refusal given (some secs) = rate_exceeded secs

module _ {Ip : Type 0} ⦃ip_eq : Eq Ip⦄ where
  -- The failure is recorded only if a token was given and the limiter allows more.
  count_refused : McpHttpState Ip → Peer Ip → Bool → Moment → McpHttpState Ip × Option ℕ
  count_refused s p given m =
      let (l, d) = check_at s.rate_limiter p.ip m.at_check in
      let (l', d') = record_failure_at l p.ip m.at_failure in
      elim (limited_secs d) [
        | some secs ↦ (record s { rate_limiter = l }, some secs)
        | none ↦
            if given
            then (record s { rate_limiter = l' }, limited_secs d')
            else (record s { rate_limiter = l }, none)
      ]

  unfoldable pub reject :
      McpHttpState Ip → Request Ip → Option Str → Moment → McpHttpState Ip × Answer
  unfolding count_refused
  reject s req token m = elim req.peer [
    | none ↦ (audit_auth_failure s token none m, refusal (is_given token) none)
    | some p ↦
        let (s', secs) = count_refused s p (is_given token) m in
        (audit_auth_failure s' token (some p) m, refusal (is_given token) secs)
  ]

  unfoldable pub succeed : McpHttpState Ip → Option (Peer Ip) → McpHttpState Ip
  succeed s none = s
  succeed s (some p) = record s { rate_limiter = record_success s.rate_limiter p.ip }

  -- From `let role = match resolved_role` on.
  unfoldable pub conclude :
      McpHttpState Ip
      → Request Ip
      → Option (Str × CredentialSource)
      → Option Role
      → Option Principal
      → Moment
      → McpHttpState Ip × Answer
  unfolding gate reject succeed
  conclude s req credential (some role) principal m =
      gate (succeed s req.peer) req credential role principal m
  conclude s req credential none principal m = reject s req (token_of credential) m

  -- The part after the look-up of the key.
  unfoldable pub resolved :
      McpHttpState Ip
      → Request Ip
      → Option (Str × CredentialSource)
      → Lookup
      → Moment
      → McpHttpState Ip × Answer
  unfolding conclude config_role local_role reject
  resolved s req credential is_device m = (s, device_token_used)
  resolved s req credential no_scope m = (s, lacks_scope)
  resolved s req credential bad_key m = reject s req (token_of credential) m
  resolved s req credential (found known) m =
      conclude s req credential
        (local_role s (peer_loopback req.peer)
          (config_role s.config (token_of credential) known.role))
        known.principal m

  unfoldable pub pre_check :
      McpHttpState Ip → Option (Peer Ip) → Moment → McpHttpState Ip × Option ℕ
  pre_check s none m = (s, none)
  pre_check s (some p) m =
      let (l, d) = check_at s.rate_limiter p.ip m.at_pre_check in
      (record s { rate_limiter = l }, banned_secs d)

module _ (c : Crates) {Ip : Type 0} ⦃ip_eq : Eq Ip⦄ where
  -- The part after the pre-check of the limiter.
  unfoldable pub authenticate_request :
      McpHttpState Ip → Request Ip → Moment → McpHttpState Ip × Answer
  unfolding lookup resolved
  authenticate_request s req m =
      let credential = extract_credential req.headers req.query_string in
      let (s', outcome) = lookup c s (token_of credential) m in resolved s' req credential outcome m

  unfoldable pub auth_layer : McpHttpState Ip → Request Ip → Moment → McpHttpState Ip × Answer
  unfolding pre_check authenticate_request
  auth_layer s req m =
      let (s', ban) = pre_check s req.peer m in
      let (s'', answer) = authenticate_request s' req m in
      if is_auth_exempt req.path req.method (peer_loopback req.peer)
      then (s, next_exempt)
      else elim ban [ some secs ↦ (s', address_banned secs) | none ↦ (s'', answer) ]
