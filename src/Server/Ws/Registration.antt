-- ===== src/Server/Ws/Registration.antt =====
-- ws/handler.rs, `handle_stream_with_peer` up to the registration of the agent, and
-- `wait_for_registration`. Whether the acknowledgement can be sent is an argument.
pub mod Joins
use at_pc.Common.{
  ℕ, Str, ascii, Bool, true, false, ◌||◌, Option, none, some, List, [], ◌∷◌, ◌++◌, ◌≡◌, ◌↔◌, Eq,
  ◌==◌, str_eq, if◌then◌else◌,
}
use at_pc.Time.{Instant}
use at_pc.Protocol.{TerminalInfo}
use at_pc.Protocol.Messages.{AgentToServerMessage, register, heartbeat, tool_result, disconnect}
use at_pc.Server.Audit.Redact.{redact_token}
use at_pc.Server.Gateway.State.{Peer}
use at_pc.Server.RateLimit.{
  AuthRateLimiter, RateLimitDecision, allowed, rate_limited, banned, check_at, record_success,
}
use at_pc.Server.Registry
use at_pc.Server.Registry.{TerminalRegistry}

-- The audit record of an accepted registration; its other fields are constants.
pub record Baseline : Type 0 where
  pub id : Str
  pub timestamp : Str
  pub token_prefix : Option Str
  pub client_ip : Option Str
  pub terminal_id : Str
  pub credential_present : Bool

-- The fields of `WsServerState` that a registration uses, and what the audit logger was given.
pub record WsServerState (Ip Metrics Sender : Type 0) : Type 0 where
  pub registry : TerminalRegistry Metrics Sender
  pub rate_limiter : AuthRateLimiter Ip
  pub audit_logger : Option (List Baseline)

-- What the first read gives.
pub data First (Metrics Value : Type 0) : Type 0 where
  timed_out read_error stream_closed not_text unparsable : First Metrics Value
  message : AgentToServerMessage Metrics Value → First Metrics Value

pub data RegistrationError : Type 0 where
  timeout read_failed closed_before expected_text parse_failed rate_limit_exceeded must_be_register
        ack_failed :
      RegistrationError

pub data Registered : Type 0 where
  ok : TerminalInfo → ℕ → Registered
  err : RegistrationError → Registered

-- The clocks of the two calls, whether the acknowledgement can be sent, and the audit record's id and time.
pub record Arrival : Type 0 where
  pub at_connect : Instant
  pub at_check : Instant
  pub at_register : Instant
  pub wall_clock : ℕ
  pub ack_sent : Bool
  pub audit_id : Str
  pub audit_time : Str

abbrev map_redact : Option Str → Option Str
map_redact none = none
map_redact (some token) = some (redact_token token)

abbrev is_given : Option Str → Bool
is_given none = false
is_given (some token) = true

abbrev peer_text : {Ip : Type 0} → Option (Peer Ip) → Option Str
peer_text none = none
peer_text (some p) = some p.text

abbrev logged : Option (List Baseline) → Baseline → Option (List Baseline)
logged none b = none
logged (some written) b = some (written ++ b ∷ [])

-- `Banned { .. } | RateLimited { .. }`
abbrev pub is_limited : RateLimitDecision → Bool
is_limited allowed = false
is_limited (rate_limited secs) = true
is_limited (banned secs) = true

abbrev pub is_banned : RateLimitDecision → Bool
is_banned allowed = false
is_banned (rate_limited secs) = false
is_banned (banned secs) = true

module _ {Ip Metrics Sender : Type 0} ⦃ip_eq : Eq Ip⦄ where
  abbrev check_peer :
      WsServerState Ip Metrics Sender
      → (RateLimitDecision → Bool)
      → Option (Peer Ip)
      → Instant
      → WsServerState Ip Metrics Sender × Bool
  check_peer s refuses none now = (s, false)
  check_peer s refuses (some p) now =
      let (l, d) = check_at s.rate_limiter p.ip now in (record s { rate_limiter = l }, refuses d)

  forgive : WsServerState Ip Metrics Sender → Option (Peer Ip) → WsServerState Ip Metrics Sender
  forgive s none = s
  forgive s (some p) = record s { rate_limiter = record_success s.rate_limiter p.ip }

  log_baseline :
      WsServerState Ip Metrics Sender
      → Option (Peer Ip)
      → TerminalInfo
      → Option Str
      → Arrival
      → WsServerState Ip Metrics Sender
  log_baseline s peer info auth_token a = record s {
    audit_logger = logged s.audit_logger (record {
      id = ascii "audit-" ++ a.audit_id;
      timestamp = a.audit_time;
      token_prefix = map_redact auth_token;
      client_ip = peer_text peer;
      terminal_id = info.terminal_id;
      credential_present = is_given auth_token;
    });
  }

  -- The arm of `Register`; the registration stays when the acknowledgement cannot be sent.
  accept :
      WsServerState Ip Metrics Sender
      → Option (Peer Ip)
      → Sender
      → Arrival
      → TerminalInfo
      → Option Str
      → WsServerState Ip Metrics Sender × Registered
  unfolding forgive log_baseline
  accept s peer tx a info auth_token =
      let s' = forgive (log_baseline s peer info auth_token a) peer in
      let (registry, session_id) =
        Registry.register s'.registry info tx a.at_register a.wall_clock in
      (record s' { registry = registry }, if a.ack_sent then ok info session_id else err ack_failed)

  -- The part after the first message was parsed.
  unfoldable pub answer_first :
      {Value : Type 0}
      → WsServerState Ip Metrics Sender
      → Option (Peer Ip)
      → Sender
      → Arrival
      → AgentToServerMessage Metrics Value
      → WsServerState Ip Metrics Sender × Registered
  unfolding accept
  answer_first s peer tx a (register info auth_token) = accept s peer tx a info auth_token
  answer_first s peer tx a (heartbeat id metrics) = (s, err must_be_register)
  answer_first s peer tx a (tool_result id success result error ms) = (s, err must_be_register)
  answer_first s peer tx a (disconnect id reason) = (s, err must_be_register)

  unfoldable pub wait_for_registration :
      {Value : Type 0}
      → WsServerState Ip Metrics Sender
      → Option (Peer Ip)
      → Sender
      → Arrival
      → First Metrics Value
      → WsServerState Ip Metrics Sender × Registered
  unfolding answer_first
  wait_for_registration s peer tx a timed_out = (s, err timeout)
  wait_for_registration s peer tx a read_error = (s, err read_failed)
  wait_for_registration s peer tx a stream_closed = (s, err closed_before)
  wait_for_registration s peer tx a not_text = (s, err expected_text)
  wait_for_registration s peer tx a unparsable = (s, err parse_failed)
  wait_for_registration s peer tx a (message msg) =
      let (s', limited) = check_peer s is_limited peer a.at_check in
      if limited then (s', err rate_limit_exceeded) else answer_first s' peer tx a msg

-- The answer to the upgrade request, by its path.
pub data Upgrade : Type 0 where
  health not_found enrollment agent : Upgrade

unfoldable pub upgrade : Str → Str → Str → Upgrade
upgrade path ws_path enrollment_path =
    if path == ascii "/health"
    then health
    else if path == enrollment_path
    then enrollment
    else if path == ws_path
    then agent
    else not_found

pub data Connected : Type 0 where
  refused : Connected
  upgraded : Upgrade → Connected
  joined : Registered → Connected

module _ {Ip Metrics Sender : Type 0} ⦃ip_eq : Eq Ip⦄ where
  joining :
      {Value : Type 0}
      → WsServerState Ip Metrics Sender
      → Option (Peer Ip)
      → Sender
      → Arrival
      → First Metrics Value
      → Upgrade
      → WsServerState Ip Metrics Sender × Connected
  joining s peer tx a first agent =
      let (s', result) = wait_for_registration s peer tx a first in (s', joined result)
  joining s peer tx a first other = (s, upgraded other)

  -- `handle_stream_with_peer` up to the loop over the frames; `enrollment` goes on in another function.
  unfoldable pub connect :
      {Value : Type 0}
      → WsServerState Ip Metrics Sender
      → Option (Peer Ip)
      → Sender
      → Arrival
      → First Metrics Value
      → Upgrade
      → WsServerState Ip Metrics Sender × Connected
  unfolding joining wait_for_registration
  connect s peer tx a first path =
      let (s', is_refused) = check_peer s is_banned peer a.at_connect in
      if is_refused then (s', refused) else joining s' peer tx a first path
