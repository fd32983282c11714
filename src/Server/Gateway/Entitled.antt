-- ===== src/Server/Gateway/Entitled.antt =====
-- mcp/mod.rs, `auth_layer`: which credentials give which role. The layer's look-ups are read backwards,
-- from the role to its reason.
use at_pc.Common.{
  ◌≡◌, refl, ap, subst, ◌∙◌, Str, ascii, Bool, true, false, not, ◌||◌, Option, none, some, [], ◌∷◌,
  arith, ◌⊎◌, inl, inr, Bool-cases, Option-cases, any, starts_with, str_eq,
}
use at_pc.Map
use at_pc.Map.{Map}
use at_pc.Time.{Instant}
use at_pc.Protocol.{Role, admin}
use at_pc.Server.KeyStore.{
  Principal, KeyRecord, secret_key, has_scope, AuthResult, AuthError, ok, err,
}
use at_pc.Server.KeyStore.Store.{
  Crates, KeyStore, DateTime, verify, has_active_keys, touch_last_used, principal_of, is_none,
}
use at_pc.Server.KeyStore.Store.{authenticate, id_in}
use at_pc.Server.KeyStore.Credential.{parse_credential}
use at_pc.Server.KeyStore.Run.{AuthResult-cases}
use at_pc.Server.KeyStore.Verify.{Opens, verify_exact}
use at_pc.Server.Sessions.{SessionStore, validate_session}
use at_pc.Server.Gateway.Access.{ServerConfig, has_credentials, get_role_for_token}
use at_pc.Server.Gateway.State.{McpHttpState, Moment, Resolved, found, judge, no_active_keys}
use at_pc.Server.Gateway.Layer.{session_stage, key_stage, lookup, config_role, local_role}

-- The scopes that open the HTTP interface.
abbrev pub MayEnter : Principal → Type 0
MayEnter p =
    (has_scope p (ascii "mcp") || has_scope p (ascii "console") || has_scope p (ascii "*")) ≡ true

-- A live session of a principal with the role, who is the one that is charged.
abbrev pub BySession : SessionStore → Str → Moment → Role → Option Principal → Type 0
BySession sessions token m role who =
    (p : Principal) × (starts_with (ascii "atpc_sess_") token ≡ true)
    × ((validate_session sessions token m.at_session).1 ≡ some p)
    × (p.role ≡ some role)
    × (who ≡ some p)

-- A secret key of the key store with the role and a scope of the HTTP interface,
-- which is the one that is charged.
abbrev pub ByKey : Crates → Option KeyStore → Str → Moment → Role → Option Principal → Type 0
ByKey c keystore token m role who =
    (ks : KeyStore) × (r : KeyRecord) × (keystore ≡ some ks)
    × Opens c ks.records token m.date r
    × (r.kind ≡ secret_key)
    × MayEnter (principal_of r)
    × (r.role ≡ some role)
    × (who ≡ some (principal_of r))

-- A token of the configuration file.
abbrev pub ByConfig : ServerConfig → Str → Role → Type 0
ByConfig config token role =
    (has_credentials config ≡ true) × (get_role_for_token config token ≡ some role)

-- No credential is asked for: by configuration, or from this machine while none exists.
abbrev pub ByLocal : ServerConfig → Option KeyStore → Bool → Role → Type 0
ByLocal config keystore loopback role =
    (role ≡ admin)
    × ((config.insecure_no_auth ≡ true)
        ⊎ ((loopback ≡ true) × (has_credentials config ≡ false) × (no_active_keys keystore ≡ true)))

-- A token that the sessions or the key store know with the role.
abbrev ByToken :
    Crates → SessionStore → Option KeyStore → Option Str → Moment → Role → Option Principal → Type 0
ByToken c sessions keystore token m role who =
    (t : Str) × (token ≡ some t) × (BySession sessions t m role who ⊎ ByKey c keystore t m role who)

judge_err :
    (known known' : Resolved) (e : AuthError) → judge known (err e) ≡ found known' → known' ≡ known
unfolding judge
judge_err known known' e h = ground (arith, h)

judge-found :
    (known known' : Resolved) (result : AuthResult Principal) (role : Role)
    → known.role ≡ none
    → judge known result ≡ found known'
    → known'.role ≡ some role
    → (p : Principal) × (result ≡ ok p)
      × (p.kind ≡ secret_key)
      × MayEnter p
      × (p.role ≡ some role)
      × (known'.principal ≡ some p)
unfolding judge
judge-found known known' (ok p) role n e h =
    (p, refl, ground (arith, e), ground (arith, e), ground (arith, e), ground (arith, e))
judge-found known known' (err e) role n j h = absurd (ground (arith, judge_err known known' e j))

any-modify :
    (p : KeyRecord → Bool) (f : KeyRecord → KeyRecord) (id : Str) (m : Map Str KeyRecord)
    → ((r : KeyRecord) → p (f r) ≡ p r)
    → any p (Map.values (Map.modify id f m)) ≡ any p (Map.values m)
unfolding any Map.values Map.modify
any-modify p f id [] h = refl
any-modify p f id ((j, r) ∷ m) h = ground (arith, any-modify p f id m h, h r)

has_active_keys-touch :
    (c : Crates) (ks : KeyStore) (id : Str) (inst : Instant) (now : DateTime) (saved : Bool)
    → has_active_keys (touch_last_used c ks id inst now saved) ≡ has_active_keys ks
unfolding has_active_keys touch_last_used
has_active_keys-touch c ks id inst now saved = ground (
  arith,
  any-modify (λ r. is_none r.revoked_at) (λ r. record r { last_used_at = some (c.to_rfc3339 now) })
      id ks.records (λ r. refl),
)

has_active_keys-verify :
    (c : Crates) (ks : KeyStore) (token : Str) (inst : Instant) (now : DateTime) (saved : Bool)
    → has_active_keys (verify c ks token inst now saved).0 ≡ has_active_keys ks
unfolding verify
has_active_keys-verify c ks token inst now saved =
    elim (AuthResult-cases (authenticate c ks.records token now)) [
      | inl (e, q) ↦ rw (q, verify)
      | inr (r, q) ↦
          rw (q, verify)
            (has_active_keys-touch c ks (id_in (parse_credential token)) inst now saved)
    ]

module _ {Ip : Type 0} where
  -- The sessions are all that the first look-up changes.
  abbrev SameKeys : McpHttpState Ip → McpHttpState Ip → Type 0
  SameKeys s' s = (s'.keystore ≡ s.keystore) × (s'.config ≡ s.config)

  session_stage-SameKeys :
      (s : McpHttpState Ip) (t : Str) (m : Moment) → SameKeys (session_stage s t m).0 s
  unfolding session_stage
  session_stage-SameKeys s t m = ground arith

  session_stage-BySession :
      (s : McpHttpState Ip) (t : Str) (m : Moment) (role : Role)
      → (session_stage s t m).1.role ≡ some role
      → BySession s.session_store t m role (session_stage s t m).1.principal
  unfolding session_stage
  session_stage-BySession s t m role h = elim (Bool-cases (starts_with (ascii "atpc_sess_") t)) [
    | inr b ↦ absurd (ground arith)
    | inl b ↦ elim (Option-cases (validate_session s.session_store t m.at_session).1) [
      | inl v ↦ absurd (ground arith)
      | inr (p, v) ↦ (p, b, v, ground arith, ground arith)
    ]
  ]

module _ (c : Crates) {Ip : Type 0} where
  key_stage-found :
      (s : McpHttpState Ip) (known known' : Resolved) (t : Str) (m : Moment) (role : Role)
      → known.role ≡ none
      → (key_stage c s known t m).1 ≡ found known'
      → known'.role ≡ some role
      → ByKey c s.keystore t m role known'.principal
  unfolding key_stage
  key_stage-found s known known' t m role n e h = elim (Option-cases s.keystore) [
    | inl k ↦ absurd (ground arith)
    | inr (ks, k) ↦
        let j : judge known (verify c ks t m.at_verify m.date m.saved).1 ≡ found known' =
          ground (arith, e) in
        let (p, ok_p, kind, scope, pr, who) = judge-found known known' _ role n j h in
        let (r, opens, same) = (verify_exact c ks t m.at_verify m.date m.saved p).0 ok_p in
        (
          ks,
          r,
          k,
          opens,
          ground arith,
          subst MayEnter same scope,
          ground arith,
          who ∙ ap (λ (x : Principal). some x) same,
        )
  ]

  no_active_keys-key_stage :
      (s : McpHttpState Ip) (known : Resolved) (t : Str) (m : Moment)
      → no_active_keys (key_stage c s known t m).0.keystore ≡ no_active_keys s.keystore
  unfolding key_stage
  no_active_keys-key_stage s known t m = elim (Option-cases known.role) [
    | inr (r, e) ↦ rw e
    | inl e ↦ elim (Option-cases s.keystore) [
      | inl k ↦ rw (e, k, key_stage)
      | inr (ks, k) ↦
          rw (e, k, key_stage) (ap not (has_active_keys-verify c ks t m.at_verify m.date m.saved))
    ]
  ]

  key_stage-known :
      (s : McpHttpState Ip) (known : Resolved) (t : Str) (m : Moment) (role : Role)
      → known.role ≡ some role
      → key_stage c s known t m ≡ (s, found known)
  unfolding key_stage
  key_stage-known s known t m role e = rw e

  pub lookup-SameKeys :
      (s : McpHttpState Ip) (token : Option Str) (m : Moment)
      → (no_active_keys (lookup c s token m).0.keystore ≡ no_active_keys s.keystore)
        × ((lookup c s token m).0.config ≡ s.config)
  unfolding lookup key_stage
  lookup-SameKeys s none m = (refl, refl)
  lookup-SameKeys s (some t) m =
      let (k, e) = session_stage-SameKeys s t m in
      (
        no_active_keys-key_stage (session_stage s t m).0 (session_stage s t m).1 t m
            ∙ ap no_active_keys k,
        ground arith,
      )

  pub lookup-quota :
      (s : McpHttpState Ip) (token : Option Str) (m : Moment)
      → (lookup c s token m).0.quota_tracker ≡ s.quota_tracker
  unfolding lookup session_stage key_stage
  lookup-quota s none m = refl
  lookup-quota s (some t) m = ground arith

  -- A role that the look-ups gave is the role of a session or of a key.
  pub lookup-found :
      (s : McpHttpState Ip) (token : Option Str) (m : Moment) (known : Resolved) (role : Role)
      → (lookup c s token m).1 ≡ found known
      → known.role ≡ some role
      → ByToken c s.session_store s.keystore token m role known.principal
  unfolding lookup
  lookup-found s none m known role e h = absurd (ground arith)
  lookup-found s (some t) m known role e h = elim (Option-cases (session_stage s t m).1.role) [
    | inl n ↦ (
      t,
      refl,
      inr (
          subst (λ (k : Option KeyStore). ByKey c k t m role known.principal)
            (session_stage-SameKeys s t m).0
            (key_stage-found (session_stage s t m).0 (session_stage s t m).1 known t m role n e h)),
    )
    | inr (r, n) ↦ (
      t,
      refl,
      inl (
          let stays = key_stage-known (session_stage s t m).0 (session_stage s t m).1 t m r n in
          let same : (session_stage s t m).1 ≡ known = ground (arith, stays, e) in
          subst (λ (k : Resolved). BySession s.session_store t m role k.principal) same
            (session_stage-BySession s t m role (ap (λ (k : Resolved). k.role) same ∙ h))),
    )
  ]

pub config_role-some :
    (config : ServerConfig) (token : Option Str) (known : Option Role) (role : Role)
    → config_role config token known ≡ some role
    → (known ≡ some role) ⊎ ((t : Str) × (token ≡ some t) × ByConfig config t role)
unfolding config_role
config_role-some config token (some r) role h = inl h
config_role-some config none none role h = absurd (ground arith)
config_role-some config (some t) none role h = inr (t, refl, ground arith)

pub local_role-some :
    {Ip : Type 0} (s : McpHttpState Ip) (loopback : Bool) (known : Option Role) (role : Role)
    → local_role s loopback known ≡ some role
    → (known ≡ some role) ⊎ ByLocal s.config s.keystore loopback role
unfolding local_role
local_role-some s loopback (some r) role h = inl h
local_role-some s loopback none role h = inr (
  ground arith,
  elim (Bool-cases s.config.insecure_no_auth) [ inl i ↦ inl i | inr i ↦ inr (ground arith) ],
)
