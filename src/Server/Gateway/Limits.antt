-- ===== src/Server/Gateway/Limits.antt =====
-- mcp/mod.rs, `auth_layer` and the limiter of addresses: what a ban stops, and what the rate limit
-- does not.
use at_pc.Common.{
  ℕ, ◌+◌, ◌<◌, ◌≡◌, refl, sym, ap, subst, ◌∙◌, Str, Bool, false, Option, none, some, List, [],
  arith, inl, inr, Option-cases, Eq, All,
}
use at_pc.Time.{Instant, from_secs}
use at_pc.Protocol.{Role}
use at_pc.Server.KeyStore.{Principal}
use at_pc.Server.KeyStore.Store.{Crates}
use at_pc.Server.RateLimit.{
  AuthRateLimiter, RateLimitDecision, banned, check_at, retry_after, perform, run, Call, fails,
  checks,
}
use at_pc.Server.RateLimit.Entry.{entry_at}
use at_pc.Server.RateLimit.Auth.{Thirtieth, Before, ban_lasts}
use at_pc.Server.RateLimit.Quota.{QuotaResult}
use at_pc.Server.Gateway.Access.{is_auth_exempt, handler_min_role}
use at_pc.Server.Gateway.Credential.{CredentialSource}
use at_pc.Server.Gateway.State.{
  McpHttpState, Peer, Request, Moment, next_with, address_banned, peer_loopback, token_of, Lookup,
  found, is_device, no_scope, bad_key,
}
use at_pc.Server.Gateway.Layer.{
  session_stage, key_stage, lookup, local_role, config_role, spend_quota, gate, succeed, conclude,
  resolved, pre_check, authenticate_request, auth_layer,
}
use at_pc.Server.Gateway.Admitted.{auth_layer-next, credential_of, NotBanned, reject-next}

abbrev pub with_limiter : {Ip : Type 0} → AuthRateLimiter Ip → McpHttpState Ip → McpHttpState Ip
with_limiter l s = record s { rate_limiter = l }

module _ {Ip : Type 0} ⦃ip_eq : Eq Ip⦄ where
  check_at-perform :
      (l : AuthRateLimiter Ip) (ip : Ip) (now : Instant) (d : RateLimitDecision)
      → (perform l checks ip now).1 ≡ some d
      → (check_at l ip now).1 ≡ d
  unfolding perform
  check_at-perform l ip now d h = cc

  pre_check-banned :
      (s : McpHttpState Ip) (peer : Option (Peer Ip)) (p : Peer Ip) (m : Moment) (secs : ℕ)
      → peer ≡ some p
      → (check_at s.rate_limiter p.ip m.at_pre_check).1 ≡ banned secs
      → pre_check s peer m
        ≡ (with_limiter (check_at s.rate_limiter p.ip m.at_pre_check).0 s, some secs)
  unfolding pre_check
  pre_check-banned s none p m secs e h = absurd (cc)
  pre_check-banned s (some q) p m secs e h = ground (arith, e, h)

module _ (c : Crates) {Ip : Type 0} ⦃ip_eq : Eq Ip⦄ where
  -- Once an address that is under no ban has its thirtieth failure within ten minutes, every request
  -- from it in the following 900 seconds that needs a credential is answered `address_banned` (429)
  -- with the seconds left, a valid credential or not, and changes nothing but the limiter: whatever the
  -- limiter was asked in between, save for a success of this address.
  pub ban_stops :
      (s : McpHttpState Ip) (req : Request Ip) (m : Moment) (p : Peer Ip) (l : AuthRateLimiter Ip)
      (start : Instant) (cs : List (Call Ip))
      → req.peer ≡ some p
      → Thirtieth (entry_at l p.ip) start
      → All (Before p.ip (start + from_secs 900)) cs
      → s.rate_limiter ≡ run (perform l fails p.ip start).0 cs
      → m.at_pre_check < start + from_secs 900
      → is_auth_exempt req.path req.method (peer_loopback req.peer) ≡ false
      → auth_layer c s req m ≡ (
        with_limiter (check_at s.rate_limiter p.ip m.at_pre_check).0 s,
        address_banned (retry_after (start + from_secs 900) m.at_pre_check),
      )
  unfolding auth_layer
  ban_stops s req m p l start cs e h a same k asked =
      let secs = retry_after (start + from_secs 900) m.at_pre_check in
      let answer : (perform s.rate_limiter checks p.ip m.at_pre_check).1 ≡ some (banned secs) =
        rw same (ban_lasts l p.ip start m.at_pre_check cs h a k) in
      let ban = check_at-perform s.rate_limiter p.ip m.at_pre_check (banned secs) answer in
      let first = pre_check-banned s req.peer p m secs e ban in
      rw (asked, first) (ap (λ (r : McpHttpState Ip × Option ℕ). (r.0, address_banned secs)) first)

-- Behind the limiter's first test, the way to the handler does not ask the limiter.
module _ (c : Crates) {Ip : Type 0} where
  lookup-with_limiter :
      (s : McpHttpState Ip) (l : AuthRateLimiter Ip) (token : Option Str) (m : Moment)
      → lookup c (with_limiter l s) token m
        ≡ (with_limiter l (lookup c s token m).0, (lookup c s token m).1)
  unfolding lookup session_stage key_stage
  lookup-with_limiter s l none m = refl
  lookup-with_limiter s l (some t) m = ground arith

gate-with_limiter :
    {Ip : Type 0} (s : McpHttpState Ip) (l : AuthRateLimiter Ip) (req : Request Ip)
    (credential : Option (Str × CredentialSource)) (role : Role) (p : Option Principal) (m : Moment)
    → (gate (with_limiter l s) req credential role p m).1 ≡ (gate s req credential role p m).1
unfolding gate spend_quota
gate-with_limiter s l req credential role p m =
    elim (Option-cases (handler_min_role req.path req.method)) [
      | inl e ↦ rw (e, gate)
      | inr (min, e) ↦ rw (e, gate) (ground arith)
    ]

module _ {Ip : Type 0} ⦃ip_eq : Eq Ip⦄ where
  conclude-with_limiter :
      (s : McpHttpState Ip) (l : AuthRateLimiter Ip) (req : Request Ip)
      (credential : Option (Str × CredentialSource)) (role : Role) (p : Option Principal)
      (m : Moment)
      → (conclude (with_limiter l s) req credential (some role) p m).1
        ≡ (gate s req credential role p m).1
  unfolding conclude succeed
  conclude-with_limiter s l req credential role p m = elim (Option-cases req.peer) [
    | inl e ↦ rw (e, succeed) (gate-with_limiter s l req credential role p m)
    | inr (q, e) ↦ rw (e, succeed) (gate-with_limiter s _ req credential role p m)
  ]

  local_role-with_limiter :
      (s : McpHttpState Ip) (l : AuthRateLimiter Ip) (loopback : Bool) (known : Option Role)
      → local_role (with_limiter l s) loopback known ≡ local_role s loopback known
  unfolding local_role
  local_role-with_limiter s l loopback none = refl
  local_role-with_limiter s l loopback (some r) = refl

  conclude_moves :
      (s : McpHttpState Ip) (l l' : AuthRateLimiter Ip) (req : Request Ip)
      (credential : Option (Str × CredentialSource)) (resolved_role : Option Role)
      (principal : Option Principal) (m : Moment) (role : Role) (t : Option Str)
      (p : Option Principal) (quota : QuotaResult) (warns : Bool)
      → (conclude (with_limiter l s) req credential resolved_role principal m).1
        ≡ next_with role t p quota warns
      → (conclude (with_limiter l' s) req credential resolved_role principal m).1
        ≡ next_with role t p quota warns
  conclude_moves s l l' req credential (some r) principal m role t p quota warns h =
      conclude-with_limiter s l' req credential r principal m
      ∙ sym (conclude-with_limiter s l req credential r principal m)
      ∙ h
  conclude_moves s l l' req credential none principal m role t p quota warns h = absurd (
      reject-next (with_limiter l s) req (token_of credential) m role t p quota warns
        (unfold conclude in h))

  resolved-with_limiter :
      (s : McpHttpState Ip) (l l' : AuthRateLimiter Ip) (req : Request Ip)
      (credential : Option (Str × CredentialSource)) (outcome : Lookup) (m : Moment) (role : Role)
      (t : Option Str) (p : Option Principal) (quota : QuotaResult) (warns : Bool)
      → (resolved (with_limiter l s) req credential outcome m).1 ≡ next_with role t p quota warns
      → (resolved (with_limiter l' s) req credential outcome m).1 ≡ next_with role t p quota warns
  unfolding resolved
  resolved-with_limiter s l l' req credential is_device m role t p quota warns h = h
  resolved-with_limiter s l l' req credential no_scope m role t p quota warns h = h
  resolved-with_limiter s l l' req credential bad_key m role t p quota warns h =
      absurd (reject-next (with_limiter l s) req (token_of credential) m role t p quota warns h)
  resolved-with_limiter s l l' req credential (found known) m role t p quota warns h =
      let loopback = peer_loopback req.peer in
      let given = config_role s.config (token_of credential) known.role in
      rw (local_role-with_limiter s l' loopback given) (
        conclude_moves s l l' req credential (local_role s loopback given) known.principal m role t
          p quota warns (rw (local_role-with_limiter s l loopback given) at h))

  pre_check-unbanned :
      (s : McpHttpState Ip) (peer : Option (Peer Ip)) (m : Moment)
      → NotBanned s.rate_limiter peer m
      → (l : AuthRateLimiter Ip) × (pre_check s peer m ≡ (with_limiter l s, none))
  unfolding pre_check
  pre_check-unbanned s none m u = (s.rate_limiter, refl)
  pre_check-unbanned s (some p) m u = (
    (check_at s.rate_limiter p.ip m.at_pre_check).0,
    ap (λ (o : Option ℕ). (with_limiter (check_at s.rate_limiter p.ip m.at_pre_check).0 s, o)) u,
  )

  pre_check-limiter :
      (s : McpHttpState Ip) (l : AuthRateLimiter Ip) (peer : Option (Peer Ip)) (m : Moment)
      → (l' : AuthRateLimiter Ip) × ((pre_check (with_limiter l s) peer m).0 ≡ with_limiter l' s)
  unfolding pre_check
  pre_check-limiter s l none m = (l, refl)
  pre_check-limiter s l (some p) m = ((check_at l p.ip m.at_pre_check).0, refl)

module _ (c : Crates) {Ip : Type 0} ⦃ip_eq : Eq Ip⦄ where
  authenticate_request-with_limiter :
      (s : McpHttpState Ip) (l l' : AuthRateLimiter Ip) (req : Request Ip) (m : Moment)
      (role : Role) (t : Option Str) (p : Option Principal) (quota : QuotaResult) (warns : Bool)
      → (authenticate_request c (with_limiter l s) req m).1 ≡ next_with role t p quota warns
      → (authenticate_request c (with_limiter l' s) req m).1 ≡ next_with role t p quota warns
  unfolding authenticate_request
  authenticate_request-with_limiter s l l' req m role t p quota warns h =
      let credential = credential_of req in
      let s' = (lookup c s (token_of credential) m).0 in
      let outcome = (lookup c s (token_of credential) m).1 in
      rw (lookup-with_limiter c s l' (token_of credential) m) (
        resolved-with_limiter s' l l' req credential outcome m role t p quota warns
          (rw (lookup-with_limiter c s l (token_of credential) m) at h))

  -- A request that is no exempt one, from an address that is not banned.
  auth_layer-asked :
      (s : McpHttpState Ip) (req : Request Ip) (m : Moment) (l : AuthRateLimiter Ip)
      → is_auth_exempt req.path req.method (peer_loopback req.peer) ≡ false
      → pre_check s req.peer m ≡ (with_limiter l s, none)
      → (auth_layer c s req m).1 ≡ (authenticate_request c (with_limiter l s) req m).1
  unfolding auth_layer
  auth_layer-asked s req m l asked first =
      rw (asked, first)
        (ap (λ (r : McpHttpState Ip × Option ℕ). (authenticate_request c r.0 req m).1) first)

  -- The limiter stops an accepted credential only by a ban: at an address that is not banned, be it
  -- rate limited or not, a request that a server without any recorded failure lets through with a role
  -- is let through, with the same role, token, principal and quota.
  pub limited_still_admits :
      (s : McpHttpState Ip) (req : Request Ip) (m : Moment) (role : Role) (t : Option Str)
      (p : Option Principal) (quota : QuotaResult) (warns : Bool)
      → NotBanned s.rate_limiter req.peer m
      → (auth_layer c (with_limiter [] s) req m).1 ≡ next_with role t p quota warns
      → (auth_layer c s req m).1 ≡ next_with role t p quota warns
  limited_still_admits s req m role t p quota warns unbanned h =
      let (asked, fresh, h') = auth_layer-next c (with_limiter [] s) req m role t p quota warns h in
      let (l, first) = pre_check-unbanned s req.peer m unbanned in
      let (l', first') = pre_check-limiter s [] req.peer m in
      auth_layer-asked s req m l asked first
      ∙ authenticate_request-with_limiter s l' l req m role t p quota warns (
          subst
            (λ (x : McpHttpState Ip).
              (authenticate_request c x req m).1 ≡ next_with role t p quota warns)
            first' h')
