-- ===== src/Server/RateLimit/Auth.antt =====
-- What the authentication limiter (rate_limit.rs) guarantees of one address, whatever the others
-- do: a ban lasts its whole term, and ends in a fresh start.
use at_pc.Common.{
  Bool, ◌⊎◌, ap, ◌∙◌, ℕ, ◌+◌, ◌≤◌, ◌<◌, ◌≡◌, ◌≢◌, refl, none, some, List, [], ◌∷◌, ◌++◌, arith, Eq,
  ==_iff, keep, count, All, length-keep,
}
use at_pc.Time.{Instant, from_secs, within}
use at_pc.Server.RateLimit.{
  RateLimitDecision, allowed, banned, IpEntry, retry_after, ban_answer, fail_entry, check_entry,
  AuthRateLimiter, Kind, fails, checks, succeeds, Call, perform, run,
}
use at_pc.Server.RateLimit.Entry.{
  next_entry, answer_of, entry_at, entry_at-perform, entry_at-perform_self, answer_of-perform,
}

next_entry-ban :
    (k : Kind) (e : IpEntry) (until now : Instant)
    → now < until
    → k ≢ succeeds
    → e.banned_until ≡ some until
    → next_entry k e now ≡ e
unfolding fail_entry check_entry
next_entry-ban fails e until now h s b = ground arith
next_entry-ban checks e until now h s b = ground arith
next_entry-ban succeeds e until now h s b = absurd (s refl)

answer_of-ban :
    (e : IpEntry) (until now : Instant)
    → now < until
    → e.banned_until ≡ some until
    → answer_of checks e now ≡ some (banned (retry_after until now))
unfolding check_entry
answer_of-ban e until now h b = ground arith

-- The thirtieth failure, at an entry that is under no ban.
abbrev pub Thirtieth : IpEntry → Instant → Type 0
Thirtieth e now =
    (ban_answer e.banned_until now ≡ none)
    × (30 ≤ count (within (from_secs 600) now) (e.failures ++ now ∷ []))

-- An entry whose ban started with its last failure.
abbrev banned_entry : List Instant → Instant → IpEntry
banned_entry xs start = record {
  failures = keep (within (from_secs 600) start) (xs ++ start ∷ []);
  banned_until = some (start + from_secs 900);
}

fail_entry-Thirtieth :
    (e : IpEntry) (now : Instant)
    → Thirtieth e now
    → (fail_entry e now).0 ≡ banned_entry e.failures now
unfolding fail_entry
fail_entry-Thirtieth e now h =
    ground (arith, length-keep (within (from_secs 600) now) (e.failures ++ now ∷ []))

fail_entry-fresh :
    (e : IpEntry) (until now : Instant)
    → e.banned_until ≡ some until
    → until ≤ now
    → keep (within (from_secs 600) now) (e.failures ++ now ∷ []) ≡ now ∷ []
    → fail_entry e now ≡ (record { failures = now ∷ []; banned_until = none }, allowed)
unfolding fail_entry count
fail_entry-fresh e until now b h k = ground arith

keep-append_past :
    (w : ℕ) (past now : Instant) (xs : List Instant)
    → All (λ x. x ≤ past) xs
    → past + w + 1 ≤ now
    → keep (within w now) (xs ++ now ∷ []) ≡ now ∷ []
unfolding keep
keep-append_past w past now [] a h = ground arith
keep-append_past w past now (x ∷ xs) a h = ground (arith, keep-append_past w past now xs a.1 h)

All-keep :
    (p : Instant → Bool) (past : Instant) (xs : List Instant)
    → All (λ x. x ≤ past) xs
    → All (λ x. x ≤ past) (keep p xs)
unfolding keep
All-keep p past [] a = tt
All-keep p past (x ∷ xs) a = ground (arith, All-keep p past xs a.1)

All-push :
    (past : Instant) (xs : List Instant)
    → All (λ x. x ≤ past) xs
    → All (λ x. x ≤ past) (xs ++ past ∷ [])
All-push past [] a = omega arith
All-push past (x ∷ xs) a = (a.0, All-push past xs a.1)

fail_entry-after :
    (xs : List Instant) (start now : Instant)
    → All (λ x. x ≤ start) xs
    → start + from_secs 900 ≤ now
    → fail_entry (banned_entry xs start) now
      ≡ (record { failures = now ∷ []; banned_until = none }, allowed)
fail_entry-after xs start now past k =
    fail_entry-fresh (banned_entry xs start) (start + from_secs 900) now refl k (
      keep-append_past (from_secs 600) start now _
        (All-keep (within (from_secs 600) start) start _ (All-push start xs past)) (omega arith))

module _ {Ip : Type 0} ⦃ip_eq : Eq Ip⦄ where
  -- A call that comes before the ban is over, and is no success of the banned address.
  abbrev pub Before : Ip → Instant → Call Ip → Type 0
  Before ip until c = (c.at < until) × ((c.ip ≢ ip) ⊎ (c.kind ≢ succeeds))

  perform-ban :
      (l : AuthRateLimiter Ip) (c : Call Ip) (ip : Ip) (until : Instant)
      → Before ip until c
      → (entry_at l ip).banned_until ≡ some until
      → entry_at (perform l c.kind c.ip c.at).0 ip ≡ entry_at l ip
  perform-ban l c ip until b h = ground (
    arith,
    entry_at-perform l c.kind c.ip ip c.at,
    ==_iff c.ip ip,
    next_entry-ban c.kind (entry_at l c.ip) until c.at,
  )

  run-ban :
      (l : AuthRateLimiter Ip) (cs : List (Call Ip)) (ip : Ip) (until : Instant)
      → All (Before ip until) cs
      → (entry_at l ip).banned_until ≡ some until
      → entry_at (run l cs) ip ≡ entry_at l ip
  unfolding run
  run-ban l [] ip until a b = refl
  run-ban l (c ∷ cs) ip until a b =
      let same = perform-ban l c ip until a.0 b in
      run-ban (perform l c.kind c.ip c.at).0 cs ip until a.1 (rw same b) ∙ same

  entry_at-Thirtieth :
      (l : AuthRateLimiter Ip) (ip : Ip) (start : Instant) (cs : List (Call Ip))
      → Thirtieth (entry_at l ip) start
      → All (Before ip (start + from_secs 900)) cs
      → entry_at (run (perform l fails ip start).0 cs) ip
        ≡ banned_entry (entry_at l ip).failures start
  entry_at-Thirtieth l ip start cs h a =
      let first =
        entry_at-perform_self l fails ip start ∙ fail_entry-Thirtieth (entry_at l ip) start h in
      run-ban (perform l fails ip start).0 cs ip (start + from_secs 900) a
        (ap (λ (e : IpEntry). e.banned_until) first)
      ∙ first

  -- Once an address that is under no ban has its thirtieth failure within ten minutes, every check of
  -- it in the following 900 seconds answers `Banned` with the seconds left, rounded up: whatever calls
  -- come in between, for this address or another, save a success of this one.
  pub ban_lasts :
      (l : AuthRateLimiter Ip) (ip : Ip) (start now : Instant) (cs : List (Call Ip))
      → Thirtieth (entry_at l ip) start
      → All (Before ip (start + from_secs 900)) cs
      → now < start + from_secs 900
      → (perform (run (perform l fails ip start).0 cs) checks ip now).1
        ≡ some (banned (retry_after (start + from_secs 900) now))
  ban_lasts l ip start now cs h a k =
      answer_of-perform (run (perform l fails ip start).0 cs) checks ip now
      ∙ answer_of-ban _ (start + from_secs 900) now k
          (ap (λ (e : IpEntry). e.banned_until) (entry_at-Thirtieth l ip start cs h a))

  -- The first failure after such a ban is over counts as the first: it is allowed, and the entry holds
  -- nothing but it. (No failure before the ban came after its start.)
  pub ban_ends_fresh :
      (l : AuthRateLimiter Ip) (ip : Ip) (start now : Instant) (cs : List (Call Ip))
      → Thirtieth (entry_at l ip) start
      → All (λ x. x ≤ start) (entry_at l ip).failures
      → All (Before ip (start + from_secs 900)) cs
      → start + from_secs 900 ≤ now
      → let after = perform (run (perform l fails ip start).0 cs) fails ip now in
        (after.1 ≡ some allowed)
        × (entry_at after.0 ip ≡ record { failures = now ∷ []; banned_until = none })
  ban_ends_fresh l ip start now cs h past a k =
      let m = run (perform l fails ip start).0 cs in
      let e = entry_at-Thirtieth l ip start cs h a in
      let fresh = fail_entry-after (entry_at l ip).failures start now past k in
      (
        answer_of-perform m fails ip now
            ∙ rw e (ap (λ (r : IpEntry × RateLimitDecision). some r.1) fresh),
        entry_at-perform_self m fails ip now
            ∙ rw e (ap (λ (r : IpEntry × RateLimitDecision). r.0) fresh),
      )
