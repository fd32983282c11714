-- ===== src/Server/Sessions.antt =====
-- crates/server/src/session.rs: the sessions of the browser console. The base64url encoding is a
-- parameter; random bytes and `Instant::now()` are arguments.
pub mod Laws
pub mod Tests
use at_pc.Common.{
  ℕ, ◌+◌, Str, ascii, Bool, true, false, List, [], ◌∷◌, ◌++◌, Option, none, some, ltb, str_eq,
  if◌then◌else◌,
}
use at_pc.Map
use at_pc.Map.{Map}
use at_pc.Time.{Instant, Duration}
use at_pc.Server.KeyStore.{Principal}

pub record SessionRecord : Type 0 where
  pub id : Str
  pub principal : Principal
  pub created_at : Instant
  pub expires_at : Instant

pub record SessionStore : Type 0 where
  pub ttl : Duration
  pub sessions : Map Str SessionRecord

-- `SessionStore::new`
abbrev pub new_sessions : Duration → SessionStore
new_sessions ttl = record { ttl = ttl; sessions = [] }

abbrev pub is_alive : Instant → Str → SessionRecord → Bool
is_alive now id v = ltb now v.expires_at

-- `base64url` is `URL_SAFE_NO_PAD.encode`.
unfoldable pub create_session :
    (List ℕ → Str) → SessionStore → Principal → List ℕ → Instant → SessionStore × Str
create_session base64url s principal bytes now =
    let token = ascii "atpc_sess_" ++ base64url bytes in
    let new : SessionRecord = record {
      id = token;
      principal = principal;
      created_at = now;
      expires_at = now + s.ttl;
    } in
    (record s { sessions = Map.insert token new (Map.retain (is_alive now) s.sessions) }, token)

abbrev pub session_principal : Option SessionRecord → Instant → Option Principal
session_principal none now = none
session_principal (some v) now = if ltb now v.expires_at then some v.principal else none

abbrev pub drop_unless : SessionStore → Str → Option Principal → SessionStore
drop_unless s token none = record s { sessions = Map.remove token s.sessions }
drop_unless s token (some p) = s

unfoldable pub validate_session : SessionStore → Str → Instant → SessionStore × Option Principal
validate_session s token now =
    let principal = session_principal (Map.get token s.sessions) now in
    (drop_unless s token principal, principal)

unfoldable pub revoke_session : SessionStore → Str → SessionStore
revoke_session s token = record s { sessions = Map.remove token s.sessions }
