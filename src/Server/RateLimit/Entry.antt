-- ===== src/Server/RateLimit/Entry.antt =====
-- The limiter read one address at a time: an address without an entry behaves as a new one.
use at_pc.Common.{
  count, ◌≡◌, refl, Option, none, some, arith, Eq, ◌==◌, ==_iff, ==_self, Option-cases, inl, inr,
  if◌then◌else◌,
}
use at_pc.Map
use at_pc.Map.Laws.{get-insert, get-remove}
use at_pc.Time.{Instant}
use at_pc.Server.RateLimit.{
  RateLimitDecision, IpEntry, entry_or_new, fail_entry, check_entry, AuthRateLimiter, Kind, fails,
  checks, succeeds, perform,
}

abbrev pub next_entry : Kind → IpEntry → Instant → IpEntry
next_entry fails e now = (fail_entry e now).0
next_entry checks e now = (check_entry e now).0
next_entry succeeds e now = entry_or_new none

abbrev pub answer_of : Kind → IpEntry → Instant → Option RateLimitDecision
answer_of fails e now = some (fail_entry e now).1
answer_of checks e now = some (check_entry e now).1
answer_of succeeds e now = none

module _ {Ip : Type 0} ⦃ip_eq : Eq Ip⦄ where
  abbrev pub entry_at : AuthRateLimiter Ip → Ip → IpEntry
  entry_at l ip = entry_or_new (Map.get ip l)

  pub entry_at-perform :
      (l : AuthRateLimiter Ip) (k : Kind) (j ip : Ip) (now : Instant)
      → entry_at (perform l k j now).0 ip
        ≡ (if j == ip then next_entry k (entry_at l j) now else entry_at l ip)
  unfolding perform
  entry_at-perform l fails j ip now =
      ground (arith, get-insert j ip (fail_entry (entry_at l j) now).0 l)
  entry_at-perform l checks j ip now = elim (Option-cases (Map.get j l)) [
    | inl e ↦ rw (e, perform) (unfold check_entry in ground (arith, ==_iff j ip))
    | inr (x, e) ↦ rw (e, perform) (ground (arith, get-insert j ip (check_entry x now).0 l))
  ]
  entry_at-perform l succeeds j ip now = ground (arith, get-remove j ip l)

  pub answer_of-perform :
      (l : AuthRateLimiter Ip) (k : Kind) (j : Ip) (now : Instant)
      → (perform l k j now).1 ≡ answer_of k (entry_at l j) now
  unfolding perform check_entry count
  answer_of-perform l fails j now = refl
  answer_of-perform l checks j now = ground arith
  answer_of-perform l succeeds j now = refl

  pub entry_at-perform_self :
      (l : AuthRateLimiter Ip) (k : Kind) (ip : Ip) (now : Instant)
      → entry_at (perform l k ip now).0 ip ≡ next_entry k (entry_at l ip) now
  entry_at-perform_self l k ip now = ground (arith, entry_at-perform l k ip ip now, ==_self ip)
