-- ===== src/Server/Gateway/Refused.antt =====
-- mcp/mod.rs, `auth_layer`: a revoked key gets nothing from any route that asks for a credential.
use at_pc.Common.{
  ℕ, ◌≡◌, refl, sym, subst, ◌∙◌, Str, ascii, Bool, true, false, Option, none, some, List, ◌++◌,
  arith, ◌⊎◌, inl, inr, Bool-cases, Option-cases, Eq, All, starts_with, strip_prefix,
  strip_prefix-eq, split_once, str_eq, str_beq,
}
use at_pc.Map
use at_pc.Time.{Instant}
use at_pc.Server.KeyStore.{KeyKind, ok, err, invalid_format}
use at_pc.Server.KeyStore.Credential.{parse_credential}
use at_pc.Server.KeyStore.Store.{Crates, KeyStore, DateTime, verify, authenticate, revoke, done}
use at_pc.Server.KeyStore.Run.{Op, run}
use at_pc.Server.KeyStore.Revoked.{Revoked, Spares, run-Revoked, revoke-Revoked}
use at_pc.Server.Gateway.Access.{is_auth_exempt}
use at_pc.Server.Gateway.State.{
  McpHttpState, Peer, Request, Moment, Answer, status, peer_loopback, token_of, is_given, Resolved,
  Lookup, nobody, bad_key, judge,
}
use at_pc.Server.Gateway.Layer.{
  refusal, session_stage, key_stage, lookup, reject, resolved, pre_check, authenticate_request,
  auth_layer,
}
use at_pc.Server.Gateway.Admitted.{credential_of}

starts_with-eq : (p t : Str) → starts_with p t ≡ true → (r : Str) × (t ≡ p ++ r)
unfolding starts_with
starts_with-eq p t h = elim (Option-cases (strip_prefix p t)) [
  | inl e ↦ absurd (ground arith)
  | inr (r, e) ↦ (r, strip_prefix-eq p t r e)
]

parse_session : (r : Str) → parse_credential (ascii "atpc_sess_" ++ r) ≡ err invalid_format
unfolding parse_credential strip_prefix split_once str_beq
parse_session r = refl

-- No session token is a key.
key_is_no_session :
    (t : Str) (k : KeyKind × Str × Str)
    → parse_credential t ≡ ok k
    → starts_with (ascii "atpc_sess_") t ≡ false
key_is_no_session t k h = elim (Bool-cases (starts_with (ascii "atpc_sess_") t)) [
  | inr b ↦ b
  | inl b ↦
      let (r, e) = starts_with-eq (ascii "atpc_sess_") t b in
      let e' : parse_credential t ≡ err invalid_format = rw e (parse_session r) in absurd (cc)
]

module _ (c : Crates) where
  judge-Revoked :
      (ks : KeyStore) (t : Str) (k : KeyKind) (id secret : Str) (inst : Instant) (now : DateTime)
      (saved : Bool) (known : Resolved)
      → parse_credential t ≡ ok (k, id, secret)
      → Revoked ks.records id
      → judge known (verify c ks t inst now saved).1 ≡ bad_key
  unfolding judge verify authenticate
  judge-Revoked ks t k id secret inst now saved known p h =
      elim (Option-cases (Map.get id ks.records)) [
        | inl e ↦ absurd (ground arith)
        | inr (r, e) ↦ ground arith
      ]

  lookup-Revoked :
      {Ip : Type 0} (s : McpHttpState Ip) (ks : KeyStore) (t : Str) (k : KeyKind) (id secret : Str)
      (m : Moment)
      → s.keystore ≡ some ks
      → parse_credential t ≡ ok (k, id, secret)
      → Revoked ks.records id
      → (lookup c s (some t) m).1 ≡ bad_key
  unfolding lookup session_stage key_stage
  lookup-Revoked s ks t k id secret m e p h = ground (
    arith,
    key_is_no_session t (k, id, secret) p,
    judge-Revoked ks t k id secret m.at_verify m.date m.saved nobody p h,
  )

-- The credential is refused (401), or the address is (429).
abbrev pub Refuses : Answer → Type 0
Refuses answer = (status answer ≡ some 401) ⊎ (status answer ≡ some 429)

refusal-Refuses : (given : Bool) (secs : Option ℕ) → Refuses (refusal given secs)
unfolding status
refusal-Refuses given none = inl refl
refusal-Refuses given (some secs) = inr refl

module _ {Ip : Type 0} ⦃ip_eq : Eq Ip⦄ where
  reject-Refuses :
      (s : McpHttpState Ip) (req : Request Ip) (token : Option Str) (m : Moment)
      → Refuses (reject s req token m).1
  unfolding reject
  reject-Refuses s req token m = elim (Option-cases req.peer) [
    | inl e ↦ rw (e, reject) (refusal-Refuses (is_given token) none)
    | inr (p, e) ↦ rw (e, reject) (refusal-Refuses (is_given token) _)
  ]

  pre_check-keystore :
      (s : McpHttpState Ip) (peer : Option (Peer Ip)) (m : Moment)
      → (pre_check s peer m).0.keystore ≡ s.keystore
  unfolding pre_check
  pre_check-keystore s none m = refl
  pre_check-keystore s (some p) m = refl

module _ (c : Crates) {Ip : Type 0} ⦃ip_eq : Eq Ip⦄ where
  authenticate_request-bad_key :
      (s : McpHttpState Ip) (req : Request Ip) (m : Moment)
      → (lookup c s (token_of (credential_of req)) m).1 ≡ bad_key
      → Refuses (authenticate_request c s req m).1
  unfolding authenticate_request resolved
  authenticate_request-bad_key s req m h =
      let s' = (lookup c s (token_of (credential_of req)) m).0 in
      subst (λ (l : Lookup). Refuses (resolved s' req (credential_of req) l m).1) (sym h)
        (reject-Refuses s' req (token_of (credential_of req)) m)

  auth_layer-Refuses :
      (s : McpHttpState Ip) (req : Request Ip) (m : Moment)
      → is_auth_exempt req.path req.method (peer_loopback req.peer) ≡ false
      → Refuses (authenticate_request c (pre_check s req.peer m).0 req m).1
      → Refuses (auth_layer c s req m).1
  unfolding auth_layer status
  auth_layer-Refuses s req m e h = elim (Option-cases (pre_check s req.peer m).1) [
    | inl n ↦ rw (e, n) h
    | inr (secs, n) ↦ rw (e, n) (inr refl)
  ]

  -- After `revoke` returned `Ok` for a key, and whatever other operations ran on the key store since,
  -- every request with a credential of that key's id on a route that asks for one is answered 401 or
  -- 429, until the record is deleted: whatever the credential's kind and secret, the configuration and
  -- the sessions.
  pub revoked_key_refused :
      (s : McpHttpState Ip) (req : Request Ip) (m : Moment) (ks : KeyStore) (id : Str)
      (at : DateTime) (saved : Bool) (os : List Op) (t : Str) (k : KeyKind) (secret : Str)
      → (revoke c ks id at saved).1 ≡ done tt
      → All (Spares id) os
      → s.keystore ≡ some (run c (revoke c ks id at saved).0 os)
      → token_of (credential_of req) ≡ some t
      → parse_credential t ≡ ok (k, id, secret)
      → is_auth_exempt req.path req.method (peer_loopback req.peer) ≡ false
      → Refuses (auth_layer c s req m).1
  revoked_key_refused s req m ks id at saved os t k secret r u e given p asked =
      let s' = (pre_check s req.peer m).0 in
      auth_layer-Refuses s req m asked (
        authenticate_request-bad_key s' req m (
          rw given (
            lookup-Revoked c s' (run c (revoke c ks id at saved).0 os) t k id secret m
              (pre_check-keystore s req.peer m ∙ e) p
              (run-Revoked c _ os id u (revoke-Revoked c ks id at saved r)))))
