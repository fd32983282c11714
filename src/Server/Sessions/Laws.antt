-- ===== src/Server/Sessions/Laws.antt =====
-- session.rs: a session is valid for its time to live, and never again once it is revoked.
use at_pc.Common.{
  ap, ◌∙◌, ℕ, ◌+◌, ◌<◌, ◌≡◌, ◌≢◌, Str, ascii, Option, none, some, List, [], ◌∷◌, ◌++◌, arith, All,
  str_eq, ==_ne, ==_iff, ltb, if◌then◌else◌,
}
use at_pc.Map
use at_pc.Map.{Map}
use at_pc.Map.Laws.{get-insert_self, get-insert_ne, get-remove, get-remove_self}
use at_pc.Map.Distinct.{Distinct, get-retain, insert-Distinct, remove-Distinct, retain-Distinct}
use at_pc.Time.{Instant}
use at_pc.Server.KeyStore.{Principal}
use at_pc.Server.Sessions.{
  SessionRecord, SessionStore, is_alive, create_session, session_principal, drop_unless,
  validate_session, revoke_session,
}

pub data Op : Type 0 where
  creates : Principal → List ℕ → Instant → Op
  validates : Str → Instant → Op
  revokes : Str → Op

module _ (base64url : List ℕ → Str) where
  abbrev pub token_of : List ℕ → Str
  token_of bytes = ascii "atpc_sess_" ++ base64url bytes

  unfoldable pub step : SessionStore → Op → SessionStore
  step s (creates principal bytes now) = (create_session base64url s principal bytes now).0
  step s (validates token now) = (validate_session s token now).0
  step s (revokes token) = revoke_session s token

  unfoldable pub run : SessionStore → List Op → SessionStore
  run s [] = s
  run s (o ∷ os) = run (step s o) os

  -- The operation does not draw this token.
  abbrev pub DrawsOther : Str → Op → Type 0
  DrawsOther token (creates principal bytes now) = token_of bytes ≢ token
  DrawsOther token _ = Unit

  -- Nor does it revoke this token, and it runs before the session ends.
  abbrev pub Spares : Str → Instant → Op → Type 0
  Spares token end (creates principal bytes now) = (token_of bytes ≢ token) × now < end
  Spares token end (validates token' now) = now < end
  Spares token end (revokes token') = token' ≢ token

  drop-Distinct :
      (s : SessionStore) (token : Str) (o : Option Principal)
      → Distinct s.sessions
      → Distinct (drop_unless s token o).sessions
  drop-Distinct s token none d = remove-Distinct token s.sessions d
  drop-Distinct s token (some p) d = d

  step-Distinct : (s : SessionStore) (o : Op) → Distinct s.sessions → Distinct (step s o).sessions
  unfolding step create_session validate_session revoke_session
  step-Distinct s (creates principal bytes now) d =
      insert-Distinct (token_of bytes) _ _ (retain-Distinct (is_alive now) s.sessions d)
  step-Distinct s (validates token now) d = drop-Distinct s token _ d
  step-Distinct s (revokes token) d = remove-Distinct token s.sessions d

  step_gone :
      (s : SessionStore) (o : Op) (token : Str)
      → Distinct s.sessions
      → DrawsOther token o
      → Map.get token s.sessions ≡ none
      → Map.get token (step s o).sessions ≡ none
  unfolding step create_session validate_session revoke_session
  step_gone s (creates principal bytes now) token d u h =
      get-insert_ne (token_of bytes) token _ _ u
      ∙ (ground (arith, get-retain (is_alive now) token s.sessions d, h))
  step_gone s (validates token' now) token d u h =
      ground (arith, get-remove token' token s.sessions)
  step_gone s (revokes token') token d u h = ground (arith, get-remove token' token s.sessions)

  run_gone :
      (s : SessionStore) (os : List Op) (token : Str)
      → Distinct s.sessions
      → All (DrawsOther token) os
      → Map.get token s.sessions ≡ none
      → Map.get token (run s os).sessions ≡ none
  unfolding run
  run_gone s [] token d u h = h
  run_gone s (o ∷ os) token d u h =
      run_gone (step s o) os token (step-Distinct s o d) u.1 (step_gone s o token d u.0 h)

  -- A session that was revoked is not valid at any later time, whatever ran since, unless the same
  -- random bytes are drawn again.
  pub revoked_stays :
      (s : SessionStore) (token : Str) (now : Instant) (os : List Op)
      → Distinct s.sessions
      → All (DrawsOther token) os
      → (validate_session (run (revoke_session s token) os) token now).1 ≡ none
  unfolding validate_session revoke_session
  revoked_stays s token now os d u =
      ap (λ o. session_principal o now)
        (run_gone (revoke_session s token) os token (remove-Distinct token s.sessions d) u
          (get-remove_self token s.sessions))

  step_there :
      (s : SessionStore) (o : Op) (token : Str) (v : SessionRecord)
      → Distinct s.sessions
      → Spares token v.expires_at o
      → Map.get token s.sessions ≡ some v
      → Map.get token (step s o).sessions ≡ some v
  unfolding step create_session validate_session revoke_session
  step_there s (creates principal bytes now) token v d (u, l) h =
      get-insert_ne (token_of bytes) token _ _ u
      ∙ (ground (arith, get-retain (is_alive now) token s.sessions d, h))
  step_there s (validates token' now) token v d u h =
      ground (arith, get-remove token' token s.sessions, ==_iff token' token)
  step_there s (revokes token') token v d u h =
      ground (arith, get-remove token' token s.sessions, ==_ne token' token u)

  run_there :
      (s : SessionStore) (os : List Op) (token : Str) (v : SessionRecord)
      → Distinct s.sessions
      → All (Spares token v.expires_at) os
      → Map.get token s.sessions ≡ some v
      → Map.get token (run s os).sessions ≡ some v
  unfolding run
  run_there s [] token v d u h = h
  run_there s (o ∷ os) token v d u h =
      run_there (step s o) os token v (step-Distinct s o d) u.1 (step_there s o token v d u.0 h)

  -- A session that was created, and neither revoked nor drawn again since, gives its principal before
  -- its time to live is over, and nothing from then on. Condition: what ran in between ran before that.
  pub create-validate :
      (s : SessionStore) (principal : Principal) (bytes : List ℕ) (at now : Instant) (os : List Op)
      → Distinct s.sessions
      → All (Spares (token_of bytes) (at + s.ttl)) os
      → let (s', token) = create_session base64url s principal bytes at in
        (validate_session (run s' os) token now).1
        ≡ (if ltb now (at + s.ttl) then some principal else none)
  unfolding create_session validate_session
  create-validate s principal bytes at now os d u =
      ap (λ o. session_principal o now)
        (run_there (create_session base64url s principal bytes at).0 os (token_of bytes) _
          (insert-Distinct (token_of bytes) _ _ (retain-Distinct (is_alive at) s.sessions d)) u
          (get-insert_self (token_of bytes) _ _))
