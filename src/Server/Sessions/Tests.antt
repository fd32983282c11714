-- ===== src/Server/Sessions/Tests.antt =====
-- session.rs: sessions at concrete inputs, with an encoding that leaves the bytes as they are.
use at_pc.Common.{ℕ, ◌≡◌, ◌≢◌, Str, ascii, none, some, List, [], ◌∷◌, ◌++◌, arith}
use at_pc.Time.{from_secs}
use at_pc.Protocol.{admin}
use at_pc.Server.KeyStore.{secret_key, Principal}
use at_pc.Server.Sessions.{SessionStore, new_sessions, validate_session, revoke_session}
use at_pc.Server.Sessions.Laws.{creates, run, revoked_stays}

abbrev principal : Principal
principal = record {
  id = ascii "k";
  name = ascii "n";
  kind = secret_key;
  role = some admin;
  scopes = [];
  device_id = none;
}

abbrev plain : List ℕ → Str
plain bytes = bytes

abbrev empty : SessionStore
empty = new_sessions (from_secs 60)

tokens_differ : (ascii "atpc_sess_" ++ plain (1 ∷ [])) ≢ (ascii "atpc_sess_" ++ plain (2 ∷ []))
tokens_differ e = ground arith

revoked_stays_example :
    (validate_session
      (run plain
        (revoke_session empty (ascii "atpc_sess_" ++ 2 ∷ []))
        (creates principal (1 ∷ []) 5 ∷ []))
      (ascii "atpc_sess_" ++ 2 ∷ [])
      9).1
    ≡ none
revoked_stays_example =
    revoked_stays plain empty (ascii "atpc_sess_" ++ 2 ∷ []) 9 (creates principal (1 ∷ []) 5 ∷ [])
      tt (tokens_differ, tt)
