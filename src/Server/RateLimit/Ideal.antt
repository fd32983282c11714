-- ===== src/Server/RateLimit/Ideal.antt =====
-- The limiter of rate_limit.rs against one that never prunes the failures it has counted: the states of
-- both agree after a counted failure.
use at_pc.Common.{
  ℕ, ◌+◌, ◌≤◌, ◌≡◌, refl, sym, ap, ◌∙◌, Option, none, some, List, [], ◌∷◌, ◌++◌, arith, keep, count,
  length, length-keep, count-append, if◌then◌else◌, leb, ap,
}
use at_pc.Time.{Instant, Duration, from_secs, within}
use at_pc.Time.Window.{count-prune}
use at_pc.Server.RateLimit.{
  RateLimitDecision, allowed, rate_limited, banned, IpEntry, entry_or_new, ban_answer,
  count_failure, Kind, fails, checks, succeeds,
}

-- All failures that counted since the last success, and the end of the last ban.
pub record History : Type 0 where
  pub log : List Instant
  pub ban : Option Instant

abbrev pub new_history : History
new_history = record { log = []; ban = none }

-- How many failures of the log lie at most `w` before `now`.
abbrev pub recent : Duration → Instant → History → ℕ
recent w now h = count (within w now) h.log

-- The verdict on a log that already holds the failure at `now`.
abbrev pub judge : List Instant → Instant → History × RateLimitDecision
judge log now =
    if leb 30 (count (within (from_secs 600) now) log)
    then (record { log = log; ban = some (now + from_secs 900) }, banned 900)
    else if leb 10 (count (within (from_secs 60) now) log)
    then (record { log = log; ban = none }, rate_limited 60)
    else (record { log = log; ban = none }, allowed)

unfoldable pub ideal : Kind → History → Instant → History × Option RateLimitDecision
ideal fails h now = elim (ban_answer h.ban now) [
  | some d ↦ (h, some d)
  | none ↦ let (h', d) = judge (h.log ++ now ∷ []) now in (h', some d)
]
ideal checks h now = elim (ban_answer h.ban now) [
  | some d ↦ (h, some d)
  | none ↦ (
    record h { ban = none },
    some (if leb 10 (recent (from_secs 60) now h) then rate_limited 60 else allowed),
  )
]
ideal succeeds h now = (new_history, none)

-- The entry and the history agree from `last` on: same ban, and no window of ten minutes or less
-- that ends at `last` or later tells them apart.
pub record Agree (last : Instant) (e : IpEntry) (h : History) : Type 0 where
  pub same_ban : e.banned_until ≡ h.ban
  pub same_count :
      (w : Duration) (now : Instant)
      → w ≤ from_secs 600
      → last ≤ now
      → count (within w now) e.failures ≡ recent w now h

count-push :
    (w v : Duration) (now later : Instant) (xs ys : List Instant)
    → v ≤ w
    → now ≤ later
    → count (within v later) xs ≡ count (within v later) ys
    → count (within v later) (keep (within w now) (xs ++ now ∷ []))
      ≡ count (within v later) (ys ++ now ∷ [])
count-push w v now later xs ys h k e =
    count-prune w v now later (xs ++ now ∷ []) h k
    ∙ count-append (within v later) xs (now ∷ [])
    ∙ ap (λ (n : ℕ). n + count (within v later) (now ∷ [])) e
    ∙ sym (count-append (within v later) ys (now ∷ []))

pub Agree-later :
    {last now : Instant} {e : IpEntry} {h : History} → last ≤ now → Agree last e h → Agree now e h
Agree-later k a = record {
  same_ban = a.same_ban;
  same_count = λ w t b c. a.same_count w t b (omega arith);
}

pub Agree-new : (last : Instant) → Agree last (entry_or_new none) new_history
Agree-new last = record { same_ban = refl; same_count = λ w t b c. refl }

failures-count_failure :
    (xs : List Instant) (now : Instant)
    → (count_failure xs now).0.failures ≡ keep (within (from_secs 600) now) (xs ++ now ∷ [])
unfolding count_failure
failures-count_failure xs now = ground arith

log-judge : (log : List Instant) (now : Instant) → (judge log now).0.log ≡ log
log-judge log now = ground arith

-- The two verdicts turn on the same two numbers.
count_failure-judge :
    (xs log : List Instant) (now : Instant)
    → length (keep (within (from_secs 600) now) (xs ++ now ∷ []))
      ≡ count (within (from_secs 600) now) log
    → count (within (from_secs 60) now) (keep (within (from_secs 600) now) (xs ++ now ∷ []))
      ≡ count (within (from_secs 60) now) log
    → ((count_failure xs now).0.banned_until ≡ (judge log now).0.ban)
      × ((count_failure xs now).1 ≡ (judge log now).1)
unfolding count_failure
count_failure-judge xs log now h k = ground arith

module _ {last now : Instant} {e : IpEntry} {h : History} (k : last ≤ now)
    (a : Agree last e h) where
  -- After one counted failure.
  pushed :
      (w : Duration) (later : Instant)
      → w ≤ from_secs 600
      → now ≤ later
      → count (within w later) (keep (within (from_secs 600) now) (e.failures ++ now ∷ []))
        ≡ count (within w later) (h.log ++ now ∷ [])
  pushed w later b c =
      count-push (from_secs 600) w now later e.failures h.log b c
        (a.same_count w later b (omega arith))

  -- The length of the pruned list is a count over the log.
  pushed_length :
      length (keep (within (from_secs 600) now) (e.failures ++ now ∷ []))
      ≡ count (within (from_secs 600) now) (h.log ++ now ∷ [])
  pushed_length =
      length-keep (within (from_secs 600) now) (e.failures ++ now ∷ [])
      ∙ sym (
          count-prune (from_secs 600) (from_secs 600) now now (e.failures ++ now ∷ []) (omega arith)
            (omega arith))
      ∙ pushed (from_secs 600) now (omega arith) (omega arith)

  pub verdicts :
      ((count_failure e.failures now).0.banned_until ≡ (judge (h.log ++ now ∷ []) now).0.ban)
      × ((count_failure e.failures now).1 ≡ (judge (h.log ++ now ∷ []) now).1)
  verdicts =
      count_failure-judge e.failures (h.log ++ now ∷ []) now pushed_length
        (pushed (from_secs 60) now (omega arith) (omega arith))

  pub Agree-count_failure :
      Agree now (count_failure e.failures now).0 (judge (h.log ++ now ∷ []) now).0
  Agree-count_failure = record {
    same_ban = verdicts.0;
    same_count = λ w later b c.
        rw (failures-count_failure e.failures now, log-judge (h.log ++ now ∷ []) now)
          (pushed w later b c);
  }
