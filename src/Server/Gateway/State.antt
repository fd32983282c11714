-- ===== src/Server/Gateway/State.antt =====
-- mcp/mod.rs: the state and the requests of `auth_layer`, its answers, and the audit record of a
-- refused credential.
use at_pc.Common.{
  ℕ, Str, ascii, Bool, true, false, not, ◌||◌, Option, none, some, List, [], ◌∷◌, ◌++◌,
  if◌then◌else◌,
}
use at_pc.Time.{Instant}
use at_pc.Protocol.{Role}
use at_pc.Server.Audit.Redact.{redact_token}
use at_pc.Server.KeyStore.{
  Principal, device_token, kind_beq, has_scope, AuthResult, ok, err, invalid_format, key_not_found,
  hash_mismatch, revoked, expired, wrong_kind, missing_scope, device_mismatch,
}
use at_pc.Server.KeyStore.Store.{KeyStore, DateTime, has_active_keys}
use at_pc.Server.RateLimit.{AuthRateLimiter}
use at_pc.Server.RateLimit.Quota.{KeyQuotaTracker, QuotaResult}
use at_pc.Server.Sessions.{SessionStore}
use at_pc.Server.Gateway.Access.{ServerConfig}
use at_pc.Server.Gateway.Credential.{CredentialSource, Headers}

-- The record of `audit_auth_failure`; its other fields are constants.
pub record AuthFailure : Type 0 where
  pub id : Str
  pub timestamp : Str
  pub token_prefix : Option Str
  pub client_ip : Option Str
  pub action : Str
  pub status : Str
  pub error : Str

-- The fields of `McpHttpState` that the layer uses, and what the audit logger was given.
pub record McpHttpState (Ip : Type 0) : Type 0 where
  pub config : ServerConfig
  pub keystore : Option KeyStore
  pub rate_limiter : AuthRateLimiter Ip
  pub session_store : SessionStore
  pub quota_tracker : KeyQuotaTracker
  pub audit_logger : Option (List AuthFailure)

pub record Peer (Ip : Type 0) : Type 0 where
  pub ip : Ip
  pub is_loopback : Bool
  pub text : Str

pub record Request (Ip : Type 0) : Type 0 where
  pub path : Str
  pub method : Str
  pub query_string : Option Str
  pub headers : Headers
  pub peer : Option (Peer Ip)

-- The readings of the clocks, in the order of the calls, whether the key store's write succeeds, and
-- the id and time of an audit record.
pub record Moment : Type 0 where
  pub at_pre_check : Instant
  pub at_session : Instant
  pub at_verify : Instant
  pub date : DateTime
  pub saved : Bool
  pub at_check : Instant
  pub at_failure : Instant
  pub at_quota : Instant
  pub audit_id : Str
  pub audit_time : Str

-- The two ways to the handler, with the request's extensions (role, token, principal), the quota that
-- the response's headers show and whether it warns of a credential in the query; and the refusals.
pub data Answer : Type 0 where
  next_exempt : Answer
  next_with : Role → Option Str → Option Principal → QuotaResult → Bool → Answer
  address_banned rate_exceeded : ℕ → Answer
  device_token_used lacks_scope : Answer
  unauthorized : Bool → Answer
  role_too_low : Role → Role → Answer
  quota_exceeded : QuotaResult → Answer

-- The status of a refusal.
unfoldable pub status : Answer → Option ℕ
status next_exempt = none
status (next_with role token principal quota warns) = none
status (address_banned secs) = some 429
status (rate_exceeded secs) = some 429
status device_token_used = some 403
status lacks_scope = some 403
status (unauthorized given) = some 401
status (role_too_low min role) = some 403
status (quota_exceeded quota) = some 429

abbrev pub peer_loopback : {Ip : Type 0} → Option (Peer Ip) → Bool
peer_loopback none = true
peer_loopback (some p) = p.is_loopback

abbrev pub token_of : Option (Str × CredentialSource) → Option Str
token_of none = none
token_of (some (token, source)) = some token

abbrev pub is_query : Option (Str × CredentialSource) → Bool
is_query none = false
is_query (some (token, CredentialSource.header)) = false
is_query (some (token, CredentialSource.cookie)) = false
is_query (some (token, CredentialSource.query)) = true

abbrev map_redact : Option Str → Option Str
map_redact none = none
map_redact (some token) = some (redact_token token)

abbrev peer_text : {Ip : Type 0} → Option (Peer Ip) → Option Str
peer_text none = none
peer_text (some p) = some p.text

abbrev pub is_given {ℓ} : {A : Type ℓ} → Option A → Bool
is_given none = false
is_given (some a) = true

abbrev logged : Option (List AuthFailure) → AuthFailure → Option (List AuthFailure)
logged none failure = none
logged (some written) failure = some (written ++ failure ∷ [])

unfoldable pub audit_auth_failure :
    {Ip : Type 0} → McpHttpState Ip → Option Str → Option (Peer Ip) → Moment → McpHttpState Ip
audit_auth_failure s token peer m = record s {
  audit_logger = logged s.audit_logger (record {
    id = ascii "audit-" ++ m.audit_id;
    timestamp = m.audit_time;
    token_prefix = map_redact token;
    client_ip = peer_text peer;
    action = ascii "AUTH_FAILED";
    status = ascii "DENIED";
    error = if is_given token then ascii "invalid credential" else ascii "missing credential";
  });
}

-- `resolved_role` and `principal_opt`.
pub record Resolved : Type 0 where
  pub role : Option Role
  pub principal : Option Principal

abbrev pub nobody : Resolved
nobody = record { role = none; principal = none }

abbrev pub of_principal : Option Principal → Resolved
of_principal none = nobody
of_principal (some p) = record { role = p.role; principal = some p }

-- The key store's part: go on, or one of the early returns.
pub data Lookup : Type 0 where
  found : Resolved → Lookup
  is_device no_scope bad_key : Lookup

-- The arms of the `match` on `ks.verify(token)`.
unfoldable pub judge : Resolved → AuthResult Principal → Lookup
judge known (ok p) =
    if kind_beq p.kind device_token
    then is_device
    else if not
        (has_scope p (ascii "mcp") || has_scope p (ascii "console") || has_scope p (ascii "*"))
    then no_scope
    else found (of_principal (some p))
judge known (err key_not_found) = found known
judge known (err invalid_format) = found known
judge known (err hash_mismatch) = bad_key
judge known (err revoked) = bad_key
judge known (err expired) = bad_key
judge known (err wrong_kind) = bad_key
judge known (err missing_scope) = bad_key
judge known (err device_mismatch) = bad_key

abbrev pub no_active_keys : Option KeyStore → Bool
no_active_keys none = false
no_active_keys (some ks) = not (has_active_keys ks)

abbrev pub key_of : Option Principal → Str
key_of none = ascii "legacy"
key_of (some p) = p.id
