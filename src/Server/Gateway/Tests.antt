-- ===== src/Server/Gateway/Tests.antt =====
-- Runs of the authentication layer of mcp/mod.rs on small inputs, over addresses that are numbers.
use at_pc.Common.{
  ℕ, zero, suc, ◌+◌, ◌<◌, ◌≡◌, refl, inl, inr, Str, ascii, Bool, true, false, Option, none, some,
  List, [], ◌∷◌, ◌++◌, arith, nat_eq, str_eq, str_beq, count, keep, ends_with, trim, is_whitespace,
  eq_ignore_ascii_case, is_empty, starts_with, strip_prefix, split, to_ascii_uppercase, any,
  split_once, Scalar,
}
use at_pc.Map
use at_pc.Time.{Instant, from_secs}
use at_pc.Protocol.{viewer, role_le}
use at_pc.Server.KeyStore.{secret_key, KeyRecord, ok}
use at_pc.Server.KeyStore.Store.{Crates, KeyStore, Draws, DateTime, revoke, done}
use at_pc.Server.KeyStore.Credential.{
  format_credential, parse_credential, is_crockford, is_secret_byte,
}
use at_pc.Server.KeyStore.Run.{Op, rotates, run as run_ops}
use at_pc.Server.RateLimit.{
  AuthRateLimiter, Call, fails, checks, succeeds, perform, run, ban_answer, check_at, retry_after,
  record_success,
}
use at_pc.Server.RateLimit.Entry.{entry_at}
use at_pc.Server.RateLimit.Auth.{Thirtieth}
use at_pc.Server.RateLimit.Quota
use at_pc.Server.RateLimit.Quota.{QuotaResult}
use at_pc.Server.Sessions.{new_sessions}
use at_pc.Server.Gateway.Access.{
  handler_min_role, is_auth_exempt, has_credentials, get_role_for_token,
}
use at_pc.Server.Gateway.Credential.{query, percent_decode, extract_credential}
use at_pc.Server.Gateway.Credential.Query.{percent_encode, query_token}
use at_pc.Server.Gateway.State.{
  McpHttpState, Peer, Request, Moment, next_with, address_banned, token_of,
}
use at_pc.Server.Gateway.Layer.{auth_layer}
use at_pc.Server.Gateway.Admitted.{credential_of, Entitled, Charged, NotBanned, Suffices, admitted}
use at_pc.Server.Gateway.Refused.{Refuses, revoked_key_refused}
use at_pc.Server.Gateway.Limits.{with_limiter, ban_stops, limited_still_admits}

percent_encode_run : percent_encode (ascii "a&/" ++ 0x4f60 ∷ []) ≡ ascii "a%26%2F%E4%BD%A0"
unfolding percent_encode at_pc.Common.bytes
percent_encode_run = refl

-- As in the repository's tests.
percent_decode_run : percent_decode (ascii "hello+world%21") ≡ some (ascii "hello world!")
unfolding percent_decode at_pc.Common.bytes at_pc.Common.from_utf8
percent_decode_run = refl

percent_decode_short : percent_decode (ascii "50%2") ≡ none
unfolding percent_decode at_pc.Common.bytes
percent_decode_short = refl

scalar : (c : ℕ) → c < 0xd800 → Scalar c
scalar c h = (omega arith, inl h)

query_token_example :
    extract_credential
      (record { authorization = none; cookie_header = none })
      (some ((ascii "token=" ++ percent_encode (ascii "a&")) ++ b'&' ∷ ascii "pin=x"))
    ≡ some (ascii "a&", query)
unfolding trim is_whitespace is_empty
query_token_example =
    query_token (ascii "a&") (ascii "pin=x")
      (scalar b'a' (omega arith), (scalar b'&' (omega arith), tt)) refl refl

abbrev read_time : Str → Option DateTime
read_time [] = none
read_time (t ∷ ts) = some t

abbrev toy : Crates
toy = record {
  sha256 = λ bytes. bytes;
  base64url = λ bytes. bytes;
  to_rfc3339 = λ t. t ∷ [];
  parse_rfc3339 = read_time;
}

abbrev peer : Peer ℕ
peer = record { ip = 7; is_loopback = false; text = ascii "192.0.2.7:4711" }

abbrev at_second : ℕ → Moment
at_second n = record {
  at_pre_check = from_secs n;
  at_session = from_secs n;
  at_verify = from_secs n;
  date = from_secs n;
  saved = true;
  at_check = from_secs n;
  at_failure = from_secs n;
  at_quota = from_secs n;
  audit_id = ascii "call";
  audit_time = ascii "now";
}

abbrev server : McpHttpState ℕ
server = record {
  config = record {
    auth_token = none;
    roles = (ascii "tok", viewer) ∷ [];
    insecure_no_auth = false;
  };
  keystore = none;
  rate_limiter = [];
  session_store = new_sessions 60;
  quota_tracker = Quota.new 2 (from_secs 60);
  audit_logger = some [];
}

abbrev listing : Request ℕ
listing = record {
  path = ascii "/api/terminals";
  method = ascii "GET";
  query_string = none;
  headers = record { authorization = some (ascii "Bearer tok"); cookie_header = none };
  peer = some peer;
}

abbrev first_quota : QuotaResult
first_quota = record { allowed = true; limit = 2; remaining = 1; reset_secs = 60 }

listing_run :
    (auth_layer toy server listing (at_second 100)).1
    ≡ next_with viewer (some (ascii "tok")) none first_quota false
unfolding auth_layer is_auth_exempt str_beq ends_with check_at Map.get extract_credential trim
    is_whitespace eq_ignore_ascii_case is_empty starts_with strip_prefix has_credentials
    get_role_for_token handler_min_role split to_ascii_uppercase record_success Map.remove
    Quota.check_and_record_at Quota.new Quota.admit Map.insert role_le keep
listing_run = refl

admitted_example :
    Entitled toy server listing (at_second 100) viewer none
    × NotBanned [] listing.peer (at_second 100)
    × Suffices (handler_min_role listing.path listing.method) viewer
    × Charged server (at_second 100) none first_quota
admitted_example =
    admitted toy server listing (at_second 100) viewer (some (ascii "tok")) none first_quota false
      listing_run

abbrev times : ℕ → Instant → List Instant
times zero t = []
times (suc n) t = t ∷ times n t

-- Address 7 had ten failures in this minute.
abbrev limited : AuthRateLimiter ℕ
limited = (7, record { failures = times 10 (from_secs 95); banned_until = none }) ∷ []

limited_still_admits_example :
    (auth_layer toy (with_limiter limited server) listing (at_second 100)).1
    ≡ next_with viewer (some (ascii "tok")) none first_quota false
unfolding check_at Map.get at_pc.Server.RateLimit.check_entry count
limited_still_admits_example =
    limited_still_admits toy (with_limiter limited server) listing (at_second 100) viewer
      (some (ascii "tok")) none first_quota false refl listing_run

-- Address 7 has 29 failures at second 5.
abbrev pressed : AuthRateLimiter ℕ
pressed = (7, record { failures = times 29 (from_secs 5); banned_until = none }) ∷ []

pressed-Thirtieth : Thirtieth (entry_at pressed 7) (from_secs 6)
unfolding Map.get ban_answer count
pressed-Thirtieth = (refl, omega arith)

abbrev others : List (Call ℕ)
others = record { kind = succeeds; ip = 8; at = from_secs 8 } ∷ []

abbrev pressing : McpHttpState ℕ
pressing = with_limiter (run (perform pressed fails 7 (from_secs 6)).0 others) server

ban_stops_example : auth_layer toy pressing listing (at_second 900) ≡ (
  with_limiter (check_at pressing.rate_limiter 7 (from_secs 900)).0 pressing,
  address_banned (retry_after (from_secs 906) (from_secs 900)),
)
unfolding at_pc.Server.Gateway.Access.is_auth_exempt str_beq at_pc.Common.ends_with
ban_stops_example =
    ban_stops toy pressing listing (at_second 900) peer pressed (from_secs 6) others refl
      pressed-Thirtieth ((omega arith, inl (λ e. cc)), tt) refl (omega arith) refl

-- A key that was revoked at second 5, in a store on which its rotation was tried since.
abbrev key_b : KeyRecord
key_b = record {
  id = ascii "bbbbbbbb";
  name = ascii "b";
  kind = secret_key;
  role = some viewer;
  scopes = ascii "mcp" ∷ [];
  device_id = none;
  salt = [];
  hash = [];
  hash_algo = ascii "sha256-salt-v1";
  created_at = 1 ∷ [];
  expires_at = none;
  revoked_at = none;
  last_used_at = none;
}

abbrev store : KeyStore
store = record { records = (key_b.id, key_b) ∷ []; disk = []; last_persisted_used = [] }

abbrev draws : Draws
draws = record { ids = none ∷ []; secret = none; salt = none }

abbrev attempts : List Op
attempts = rotates (ascii "bbbbbbbb") (some 0) draws 7 true ∷ []

abbrev secret_b : Str
secret_b = ascii "AAAAAAAAAAAAAAAAAAAAAAAAAAAAAAAAAAAAAAAAAAA"

abbrev token_b : Str
token_b = format_credential secret_key (ascii "bbbbbbbb") secret_b

abbrev with_keys : McpHttpState ℕ
with_keys = record server {
  keystore = some (run_ops toy (revoke toy store (ascii "bbbbbbbb") 5 true).0 attempts);
}

abbrev keyed : Request ℕ
keyed = record listing { headers = record { authorization = some token_b; cookie_header = none } }

revoke_run : (revoke toy store (ascii "bbbbbbbb") 5 true).1 ≡ done tt
unfolding revoke Map.get str_beq at_pc.Server.KeyStore.Store.is_last_admin
    at_pc.Server.KeyStore.Store.is_active_admin at_pc.Protocol.role_beq
    at_pc.Server.KeyStore.Store.commit
revoke_run = refl

keyed_token : token_of (credential_of keyed) ≡ some token_b
unfolding extract_credential trim format_credential is_whitespace eq_ignore_ascii_case is_empty
keyed_token = refl

token_b_parsed : parse_credential token_b ≡ ok (secret_key, ascii "bbbbbbbb", secret_b)
unfolding parse_credential strip_prefix format_credential split_once str_beq is_crockford any
    is_secret_byte
token_b_parsed = refl

keyed_asked : is_auth_exempt keyed.path keyed.method false ≡ false
unfolding is_auth_exempt str_beq ends_with
keyed_asked = refl

revoked_key_refused_example : Refuses (auth_layer toy with_keys keyed (at_second 100)).1
revoked_key_refused_example =
    revoked_key_refused toy with_keys keyed (at_second 100) store (ascii "bbbbbbbb") 5 true attempts
      token_b secret_key secret_b revoke_run (tt, tt) refl keyed_token token_b_parsed keyed_asked
