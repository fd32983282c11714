-- ===== src/Server/RateLimit.antt =====
-- crates/server/src/rate_limit.rs: the authentication limiter, one entry for each address, and the
-- quota of requests for each key. The locks make each operation atomic, and every operation takes
-- the state to the next one; the address type is a parameter with an equality test.
pub mod Entry
pub mod Auth
pub mod Ideal
pub mod Refines
pub mod Tests
pub mod Quota
use at_pc.Common.{
  ℕ, suc, ◌+◌, ◌-◌, ◌%◌, ◌^◌, ◌≡◌, Bool, true, false, Option, none, some, List, [], ◌∷◌, ◌++◌, Eq,
  ltb, leb, max, keep, count, length, if◌then◌else◌,
}
use at_pc.Map
use at_pc.Map.{Map}
use at_pc.Time.{Instant, Duration, from_secs, as_secs, subsec_nanos, duration_since, within}

pub data RateLimitDecision : Type 0 where
  allowed : RateLimitDecision
  rate_limited banned : ℕ → RateLimitDecision

unfoldable pub is_allowed : RateLimitDecision → Bool
is_allowed allowed = true
is_allowed (rate_limited _) = false
is_allowed (banned _) = false

unfoldable pub retry_after_secs : RateLimitDecision → Option ℕ
retry_after_secs allowed = none
retry_after_secs (rate_limited s) = some s
retry_after_secs (banned s) = some s

pub record IpEntry : Type 0 where
  pub failures : List Instant
  pub banned_until : Option Instant

-- `or_insert_with`, and its default.
abbrev pub entry_or_new : Option IpEntry → IpEntry
entry_or_new none = record { failures = []; banned_until = none }
entry_or_new (some e) = e

-- Whole seconds until `until`, rounded up, and never zero.
unfoldable pub retry_after : Instant → Instant → ℕ
retry_after until now =
    let dur = until - now in max (as_secs dur + (if ltb 0 (subsec_nanos dur) then 1 else 0)) 1

-- The part of both calls before the counting: a ban in force answers, one that is over is cleared.
unfoldable pub ban_answer : Option Instant → Instant → Option RateLimitDecision
unfolding retry_after
ban_answer none now = none
ban_answer (some until) now = if ltb now until then some (banned (retry_after until now)) else none

-- The last test of both calls.
unfoldable pub recent_answer : List Instant → Instant → RateLimitDecision
recent_answer failures now =
    if leb 10 (count (within (from_secs 60) now) failures) then rate_limited 60 else allowed

-- `record_failure_at` after the ban check: push, prune, and judge.
unfoldable pub count_failure : List Instant → Instant → IpEntry × RateLimitDecision
unfolding recent_answer
count_failure old now =
    let failures = keep (within (from_secs 600) now) (old ++ now ∷ []) in
    if leb 30 (length failures)
    then (record { failures = failures; banned_until = some (now + from_secs 900) }, banned 900)
    else (record { failures = failures; banned_until = none }, recent_answer failures now)

unfoldable pub fail_entry : IpEntry → Instant → IpEntry × RateLimitDecision
unfolding ban_answer count_failure
fail_entry e now = elim (ban_answer e.banned_until now) [
  | some d ↦ (e, d)
  | none ↦ count_failure e.failures now
]

unfoldable pub check_entry : IpEntry → Instant → IpEntry × RateLimitDecision
unfolding ban_answer recent_answer
check_entry e now = elim (ban_answer e.banned_until now) [
  | some d ↦ (e, d)
  | none ↦ (record e { banned_until = none }, recent_answer e.failures now)
]

abbrev pub AuthRateLimiter : Type 0 → Type 0
AuthRateLimiter Ip = Map Ip IpEntry

module _ {Ip : Type 0} ⦃ip_eq : Eq Ip⦄ where
  unfoldable pub record_failure_at :
      AuthRateLimiter Ip → Ip → Instant → AuthRateLimiter Ip × RateLimitDecision
  record_failure_at l ip now =
      let (e, d) = fail_entry (entry_or_new (Map.get ip l)) now in (Map.insert ip e l, d)

  unfoldable pub record_success : AuthRateLimiter Ip → Ip → AuthRateLimiter Ip
  record_success l ip = Map.remove ip l

  unfoldable pub check_at :
      AuthRateLimiter Ip → Ip → Instant → AuthRateLimiter Ip × RateLimitDecision
  check_at l ip now = elim (Map.get ip l) [
    | none ↦ (l, allowed)
    | some e ↦ let (e', d) = check_entry e now in (Map.insert ip e' l, d)
  ]

-- The calls on one limiter, in the order in which they take its lock.
pub data Kind : Type 0 where
  fails checks succeeds : Kind

pub record Call (Ip : Type 0) : Type 0 where
  pub kind : Kind
  pub ip : Ip
  pub at : Instant

module _ {Ip : Type 0} ⦃ip_eq : Eq Ip⦄ where
  unfoldable pub perform :
      AuthRateLimiter Ip → Kind → Ip → Instant → AuthRateLimiter Ip × Option RateLimitDecision
  unfolding record_failure_at check_at record_success
  perform l fails ip now = let (l', d) = record_failure_at l ip now in (l', some d)
  perform l checks ip now = let (l', d) = check_at l ip now in (l', some d)
  perform l succeeds ip now = (record_success l ip, none)

  unfoldable pub run : AuthRateLimiter Ip → List (Call Ip) → AuthRateLimiter Ip
  run l [] = l
  run l (c ∷ cs) = run (perform l c.kind c.ip c.at).0 cs

  unfoldable pub answers : AuthRateLimiter Ip → List (Call Ip) → List (Option RateLimitDecision)
  answers l [] = []
  answers l (c ∷ cs) = let (l', d) = perform l c.kind c.ip c.at in d ∷ answers l' cs
