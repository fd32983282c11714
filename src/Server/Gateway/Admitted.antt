-- ===== src/Server/Gateway/Admitted.antt =====
-- mcp/mod.rs, `auth_layer`: why a request that reaches its handler with a role was let through.
use at_pc.Common.{
  ◌≡◌, ◌≢◌, refl, ap, subst, ◌∙◌, Str, Bool, true, false, Option, none, some, arith, ◌⊎◌, inl, inr,
  Bool-cases, Option-cases, Eq,
}
use at_pc.Protocol.{Role, role_le}
use at_pc.Server.KeyStore.{Principal}
use at_pc.Server.KeyStore.Store.{Crates, KeyStore}
use at_pc.Server.RateLimit.{AuthRateLimiter, check_at}
use at_pc.Server.RateLimit.Quota.{QuotaResult, check_and_record_at}
use at_pc.Server.Gateway.Access.{ServerConfig, is_auth_exempt, handler_min_role}
use at_pc.Server.Gateway.Credential.{CredentialSource, extract_credential}
use at_pc.Server.Gateway.State.{
  McpHttpState, Peer, Request, Moment, next_with, peer_loopback, token_of, key_of, Resolved, Lookup,
  found, is_device, no_scope, bad_key, no_active_keys,
}
use at_pc.Server.Gateway.Layer.{
  lookup, config_role, local_role, spend_quota, gate, reject, succeed, conclude, resolved,
  pre_check, banned_secs, authenticate_request, auth_layer,
}
use at_pc.Server.Gateway.Entitled.{
  BySession, ByKey, ByConfig, ByLocal, lookup-found, lookup-quota, lookup-SameKeys,
  config_role-some, local_role-some,
}

abbrev pub credential_of : {Ip : Type 0} → Request Ip → Option (Str × CredentialSource)
credential_of req = extract_credential req.headers req.query_string

-- Why the role is the request's: its token is a session's, a key's or the configuration's, or no
-- credential is asked for.
abbrev pub Entitled :
    {Ip : Type 0}
    → Crates
    → McpHttpState Ip
    → Request Ip
    → Moment
    → Role
    → Option Principal
    → Type 0
Entitled c s req m role who =
    ((t : Str) × (token_of (credential_of req) ≡ some t)
      × (BySession s.session_store t m role who
          ⊎ (ByKey c s.keystore t m role who ⊎ ByConfig s.config t role)))
    ⊎ ByLocal s.config s.keystore (peer_loopback req.peer) role

-- The quota's answer for the key of the principal, in whose count the request now is.
abbrev pub Charged :
    {Ip : Type 0} → McpHttpState Ip → Moment → Option Principal → QuotaResult → Type 0
Charged s m who quota =
    (quota ≡ (check_and_record_at s.quota_tracker (key_of who) m.at_quota).1)
    × (quota.allowed ≡ true)

-- The role meets what the path asks for.
abbrev pub Suffices : Option Role → Role → Type 0
Suffices none role = Unit
Suffices (some min) role = role_le min role ≡ true

-- The limiter does not ban the address.
abbrev pub NotBanned :
    {Ip : Type 0} ⦃ip_eq : Eq Ip⦄ → AuthRateLimiter Ip → Option (Peer Ip) → Moment → Type 0
NotBanned l none m = Unit
NotBanned l (some p) m = banned_secs (check_at l p.ip m.at_pre_check).1 ≡ none

spend_quota-next :
    {Ip : Type 0} (s : McpHttpState Ip) (credential : Option (Str × CredentialSource))
    (role role' : Role) (principal principal' : Option Principal) (m : Moment) (token : Option Str)
    (quota : QuotaResult) (warns : Bool)
    → (spend_quota s credential role principal m).1 ≡ next_with role' token principal' quota warns
    → (role ≡ role') × (principal ≡ principal') × Charged s m principal' quota
unfolding spend_quota
spend_quota-next s credential role role' principal principal' m token quota warns h =
    (ground (arith, h), ground (arith, h), (ground (arith, h), ground (arith, h)))

gate-next :
    {Ip : Type 0} (s : McpHttpState Ip) (req : Request Ip)
    (credential : Option (Str × CredentialSource)) (role role' : Role)
    (principal principal' : Option Principal) (m : Moment) (token : Option Str)
    (quota : QuotaResult) (warns : Bool)
    → (gate s req credential role principal m).1 ≡ next_with role' token principal' quota warns
    → (role ≡ role')
      × Suffices (handler_min_role req.path req.method) role'
      × (principal ≡ principal')
      × Charged s m principal' quota
unfolding gate
gate-next s req credential role role' principal principal' m token quota warns h =
    let spent = spend_quota-next s credential role role' principal principal' m token quota warns in
    elim (Option-cases (handler_min_role req.path req.method)) [
      | inl e ↦ let (r, w, a) = spent (ground (arith, e, h)) in (r, rw e tt, w, a)
      | inr (min, e) ↦ elim (Bool-cases (role_le min role)) [
        | inr b ↦ absurd (ground (arith, e, h))
        | inl b ↦ let (r, w, a) = spent (ground (arith, e, h)) in (r, rw e (rw (← r) b), w, a)
      ]
    ]

local-Untouched :
    (role : Role) (loopback : Bool) (config' config : ServerConfig) (keys' keys : Option KeyStore)
    → no_active_keys keys' ≡ no_active_keys keys
    → config' ≡ config
    → ByLocal config' keys' loopback role
    → ByLocal config keys loopback role
local-Untouched role loopback config' config keys' keys k f b =
    (b.0, elim b.1 [ inl i ↦ inl (ground arith) | inr i ↦ inr (ground arith) ])

module _ {Ip : Type 0} ⦃ip_eq : Eq Ip⦄ where
  -- A refusal is no way to the handler.
  pub reject-next :
      (s : McpHttpState Ip) (req : Request Ip) (token : Option Str) (m : Moment) (role : Role)
      (t : Option Str) (p : Option Principal) (quota : QuotaResult) (warns : Bool)
      → (reject s req token m).1 ≢ next_with role t p quota warns
  unfolding reject
  reject-next s req token m role t p quota warns h = ground (arith, h)

  succeed-Charged :
      (s : McpHttpState Ip) (peer : Option (Peer Ip)) (m : Moment) (p : Option Principal)
      (quota : QuotaResult)
      → Charged (succeed s peer) m p quota
      → Charged s m p quota
  unfolding succeed
  succeed-Charged s none m p quota h = h
  succeed-Charged s (some q) m p quota h = h

  -- The role that reached the handler, behind the look-ups.
  resolved-next :
      (s : McpHttpState Ip) (req : Request Ip) (credential : Option (Str × CredentialSource))
      (l : Lookup) (m : Moment) (role : Role) (t : Option Str) (p : Option Principal)
      (quota : QuotaResult) (warns : Bool)
      → (resolved s req credential l m).1 ≡ next_with role t p quota warns
      → (known : Resolved) × (l ≡ found known)
        × (local_role s
              (peer_loopback req.peer)
              (config_role s.config (token_of credential) known.role)
            ≡ some role)
        × Suffices (handler_min_role req.path req.method) role
        × (known.principal ≡ p)
        × Charged s m p quota
  unfolding resolved conclude
  resolved-next s req credential is_device m role t p quota warns h = absurd (ground (arith, h))
  resolved-next s req credential no_scope m role t p quota warns h = absurd (ground (arith, h))
  resolved-next s req credential bad_key m role t p quota warns h =
      absurd (reject-next s req (token_of credential) m role t p quota warns h)
  resolved-next s req credential (found known) m role t p quota warns h =
      elim (Option-cases (
        local_role s (peer_loopback req.peer)
          (config_role s.config (token_of credential) known.role))) [
            | inl e ↦ absurd (
                reject-next s req (token_of credential) m role t p quota warns
                  (ground (arith, e, h)))
            | inr (r, e) ↦
                let (same, suffices, who, a) =
                  gate-next (succeed s req.peer) req credential r role known.principal p m t quota
                    warns (ground (arith, e, h)) in
                (
                  known,
                  refl,
                  e ∙ ap (λ (x : Role). some x) same,
                  suffices,
                  who,
                  succeed-Charged s req.peer m p quota a,
                )
          ]

  -- The first test of the limiter changes nothing that gives a role.
  pre_check-Entitled :
      (c : Crates) (s : McpHttpState Ip) (req : Request Ip) (peer : Option (Peer Ip)) (m : Moment)
      (role : Role) (who : Option Principal)
      → Entitled c (pre_check s peer m).0 req m role who
      → Entitled c s req m role who
  unfolding pre_check
  pre_check-Entitled c s req none m role who e = e
  pre_check-Entitled c s req (some p) m role who e = e

  pre_check-quota :
      (s : McpHttpState Ip) (peer : Option (Peer Ip)) (m : Moment)
      → (pre_check s peer m).0.quota_tracker ≡ s.quota_tracker
  unfolding pre_check
  pre_check-quota s none m = refl
  pre_check-quota s (some p) m = refl

  pre_check-NotBanned :
      (s : McpHttpState Ip) (peer : Option (Peer Ip)) (m : Moment)
      → (pre_check s peer m).1 ≡ none
      → NotBanned s.rate_limiter peer m
  unfolding pre_check
  pre_check-NotBanned s none m h = tt
  pre_check-NotBanned s (some p) m h = h

module _ (c : Crates) {Ip : Type 0} ⦃ip_eq : Eq Ip⦄ where
  pub auth_layer-next :
      (s : McpHttpState Ip) (req : Request Ip) (m : Moment) (role : Role) (t : Option Str)
      (p : Option Principal) (quota : QuotaResult) (warns : Bool)
      → (auth_layer c s req m).1 ≡ next_with role t p quota warns
      → (is_auth_exempt req.path req.method (peer_loopback req.peer) ≡ false)
        × ((pre_check s req.peer m).1 ≡ none)
        × ((authenticate_request c (pre_check s req.peer m).0 req m).1
            ≡ next_with role t p quota warns)
  unfolding auth_layer
  auth_layer-next s req m role t p quota warns h =
      elim (Bool-cases (is_auth_exempt req.path req.method (peer_loopback req.peer))) [
        | inl e ↦ absurd (ground (arith, e, h))
        | inr e ↦ elim (Option-cases (pre_check s req.peer m).1) [
          | inl n ↦ (e, n, ground (arith, e, n, h))
          | inr (secs, n) ↦ absurd (ground (arith, e, n, h))
        ]
      ]

  -- The role that the look-ups and the fallbacks gave has a reason.
  resolved-Entitled :
      (s : McpHttpState Ip) (req : Request Ip) (m : Moment) (known : Resolved) (role : Role)
      → (lookup c s (token_of (credential_of req)) m).1 ≡ found known
      → local_role (lookup c s (token_of (credential_of req)) m).0 (peer_loopback req.peer) (
          config_role
            (lookup c s (token_of (credential_of req)) m).0.config
            (token_of (credential_of req))
            known.role)
        ≡ some role
      → Entitled c s req m role known.principal
  resolved-Entitled s req m known role l h =
      let token = token_of (credential_of req) in
      let (keys, config) = lookup-SameKeys c s token m in
      elim (local_role-some (lookup c s token m).0 (peer_loopback req.peer) _ role h) [
        | inr b ↦ inr (local-Untouched role _ _ _ _ _ keys config b)
        | inl k ↦ elim (config_role-some (lookup c s token m).0.config token known.role role k) [
          | inl r ↦
              let (t, e, b) = lookup-found c s token m known role l r in
              inl (t, e, elim b [ inl session ↦ inl session | inr key ↦ inr (inl key) ])
          | inr (t, e, b) ↦
              inl (t, e, inr (inr (subst (λ (f : ServerConfig). ByConfig f t role) config b)))
        ]
      ]

  -- A request reaches its handler with a role only if its address is not banned, the role meets what
  -- the path and the method ask for, the quota of the principal that comes with it allows it (of the
  -- key "legacy" if there is none), and there is a reason for the role: its token belongs to a live
  -- session of that role, whose principal then comes with it; or it opens a secret key of that role,
  -- with a scope of the HTTP interface, that is neither revoked nor expired, and the principal is that
  -- key's; or it is a token of that role in the configuration; or no token is asked for, because the
  -- configuration says so, or because the request comes from this machine while there are no
  -- credentials and no active keys, and then the role is admin.
  pub admitted :
      (s : McpHttpState Ip) (req : Request Ip) (m : Moment) (role : Role) (t : Option Str)
      (p : Option Principal) (quota : QuotaResult) (warns : Bool)
      → (auth_layer c s req m).1 ≡ next_with role t p quota warns
      → Entitled c s req m role p
        × NotBanned s.rate_limiter req.peer m
        × Suffices (handler_min_role req.path req.method) role
        × Charged s m p quota
  admitted s req m role t p quota warns h =
      let (asked, unbanned, h') = auth_layer-next s req m role t p quota warns h in
      let s' = (pre_check s req.peer m).0 in
      let credential = credential_of req in
      let (known, l, r, suffices, who, a) =
        resolved-next (lookup c s' (token_of credential) m).0 req credential
          (lookup c s' (token_of credential) m).1 m role t p quota warns
          (unfold authenticate_request in h') in
      (
        subst (λ x. Entitled c s req m role x) who
            (pre_check-Entitled c s req req.peer m role known.principal
              (resolved-Entitled s' req m known role l r)),
        pre_check-NotBanned s req.peer m unbanned,
        suffices,
        (
          subst (λ tracker. quota ≡ (check_and_record_at tracker (key_of p) m.at_quota).1)
              (lookup-quota c s' (token_of credential) m ∙ pre_check-quota s req.peer m) a.0,
          a.1,
        ),
      )
