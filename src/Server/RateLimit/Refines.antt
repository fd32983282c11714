-- ===== src/Server/RateLimit/Refines.antt =====
-- The limiter of rate_limit.rs against one that never prunes the failures it has counted: pruning after
-- ten minutes changes no answer.
use mathlib.Core.Path.{ap₂}
use at_pc.Common.{
  ◌≢◌, ℕ, ◌≤◌, ◌≡◌, refl, ap, ◌∙◌, Option, none, some, List, [], ◌∷◌, ◌++◌, arith, Eq, ◌==◌,
  if◌then◌else◌, leb, ap, Bool-cases, inl, inr, Option-cases,
}
use at_pc.Map
use at_pc.Time.{Instant, from_secs}
use at_pc.Server.RateLimit.{
  recent_answer, RateLimitDecision, allowed, rate_limited, IpEntry, ban_answer, count_failure,
  fail_entry, check_entry, AuthRateLimiter, Kind, fails, checks, succeeds, Call, perform, answers,
}
use at_pc.Server.RateLimit.Entry.{
  next_entry, answer_of, entry_at, entry_at-perform, answer_of-perform,
}
use at_pc.Server.RateLimit.Ideal.{
  History, new_history, judge, ideal, Agree, Agree-later, Agree-new, Agree-count_failure, verdicts,
}

-- What one call leaves and answers.
abbrev Follows : Kind → Instant → IpEntry → History → Type 0
Follows k now e h =
    Agree now (next_entry k e now) (ideal k h now).0 × (answer_of k e now ≡ (ideal k h now).1)

abbrev Match : Instant → IpEntry × RateLimitDecision → History × Option RateLimitDecision → Type 0
Match now r s = Agree now r.0 s.0 × (some r.1 ≡ s.1)

-- Both calls, while a ban is in force and while none is.
module _ (e : IpEntry) (h : History) (now : Instant) where
  fail_open : ban_answer e.banned_until now ≡ none → fail_entry e now ≡ count_failure e.failures now
  unfolding fail_entry
  fail_open b = rw (b, fail_entry) refl

  fail_shut :
      {d : RateLimitDecision} → ban_answer e.banned_until now ≡ some d → fail_entry e now ≡ (e, d)
  unfolding fail_entry
  fail_shut b = rw (b, fail_entry) refl

  check_open :
      ban_answer e.banned_until now ≡ none
      → check_entry e now ≡ (record e { banned_until = none }, recent_answer e.failures now)
  unfolding check_entry
  check_open b = rw (b, check_entry) refl

  check_shut :
      {d : RateLimitDecision} → ban_answer e.banned_until now ≡ some d → check_entry e now ≡ (e, d)
  unfolding check_entry
  check_shut b = rw (b, check_entry) refl

  ideal_fail_open :
      ban_answer h.ban now ≡ none
      → ideal fails h now
        ≡ ((judge (h.log ++ now ∷ []) now).0, some (judge (h.log ++ now ∷ []) now).1)
  unfolding ideal
  ideal_fail_open b = rw (b, ideal) refl

  ideal_check_open :
      ban_answer h.ban now ≡ none
      → ideal checks h now ≡ (record h { ban = none }, some (recent_answer h.log now))
  unfolding ideal recent_answer
  ideal_check_open b = rw (b, ideal) refl

  ideal_shut :
      {d : RateLimitDecision} (k : Kind)
      → k ≢ succeeds
      → ban_answer h.ban now ≡ some d
      → ideal k h now ≡ (h, some d)
  unfolding ideal
  ideal_shut fails s b = rw (b, ideal) refl
  ideal_shut checks s b = rw (b, ideal) refl
  ideal_shut succeeds s b = absurd (s refl)

fails-Match :
    {last now : Instant} (e : IpEntry) (h : History)
    → last ≤ now
    → Agree last e h
    → Match now (fail_entry e now) (ideal fails h now)
fails-Match {last} {now} e h k a =
    let same = ap (λ (b : Option Instant). ban_answer b now) a.same_ban in
    elim (Option-cases (ban_answer h.ban now)) [
      | inl b ↦
          rw (fail_open e h now (same ∙ b), ideal_fail_open e h now b)
            (Agree-count_failure k a, ap (λ (d : RateLimitDecision). some d) (verdicts k a).1)
      | inr (d, b) ↦
          rw (fail_shut e h now (same ∙ b), ideal_shut e h now fails (λ q. cc) b)
            (Agree-later k a, refl)
    ]

checks-Match :
    {last now : Instant} (e : IpEntry) (h : History)
    → last ≤ now
    → Agree last e h
    → Match now (check_entry e now) (ideal checks h now)
unfolding recent_answer
checks-Match {last} {now} e h k a =
    let same = ap (λ (b : Option Instant). ban_answer b now) a.same_ban in
    elim (Option-cases (ban_answer h.ban now)) [
      | inl b ↦
          rw (check_open e h now (same ∙ b), ideal_check_open e h now b)
            (
              record { same_ban = refl; same_count = (Agree-later k a).same_count },
              ap (λ (n : ℕ). some (if leb 10 n then rate_limited 60 else allowed))
                  (a.same_count (from_secs 60) now (omega arith) k),
            )
      | inr (d, b) ↦
          rw (check_shut e h now (same ∙ b), ideal_shut e h now checks (λ q. cc) b)
            (Agree-later k a, refl)
    ]

call-Follows :
    {last now : Instant} (k : Kind) (e : IpEntry) (h : History)
    → last ≤ now
    → Agree last e h
    → Follows k now e h
unfolding ideal
call-Follows fails e h k a = fails-Match e h k a
call-Follows checks e h k a = checks-Match e h k a
call-Follows {last} {now} succeeds e h k a = (Agree-new now, refl)

abbrev pub Histories : Type 0 → Type 0
Histories Ip = Ip → History

module _ {Ip : Type 0} ⦃ip_eq : Eq Ip⦄ where
  -- The calls come in the order of their times.
  abbrev pub InOrder : Instant → List (Call Ip) → Type 0
  InOrder last [] = Unit
  InOrder last (c ∷ cs) = (last ≤ c.at) × InOrder c.at cs

  abbrev update : Histories Ip → Ip → History → Histories Ip
  update s ip h j = if ip == j then h else s j

  -- The answers of the limiter that never prunes.
  unfoldable pub ideal_answers : Histories Ip → List (Call Ip) → List (Option RateLimitDecision)
  ideal_answers s [] = []
  ideal_answers s (c ∷ cs) =
      let (h, d) = ideal c.kind (s c.ip) c.at in d ∷ ideal_answers (update s c.ip h) cs

  perform-Agree :
      {last : Instant} (l : AuthRateLimiter Ip) (s : Histories Ip) (c : Call Ip)
      → last ≤ c.at
      → ((ip : Ip) → Agree last (entry_at l ip) (s ip))
      → (ip : Ip)
      → Agree c.at
          (entry_at (perform l c.kind c.ip c.at).0 ip)
          (update s c.ip (ideal c.kind (s c.ip) c.at).0 ip)
  perform-Agree l s c k a ip =
      rw (entry_at-perform l c.kind c.ip ip c.at) (elim (Bool-cases (c.ip == ip)) [
        | inl e ↦ rw e (call-Follows c.kind _ _ k (a c.ip)).0
        | inr e ↦ rw e (Agree-later k (a ip))
      ])

  answers-ideal :
      (l : AuthRateLimiter Ip) (s : Histories Ip) (cs : List (Call Ip)) (last : Instant)
      → InOrder last cs
      → ((ip : Ip) → Agree last (entry_at l ip) (s ip))
      → answers l cs ≡ ideal_answers s cs
  unfolding answers ideal_answers
  answers-ideal l s [] last o a = refl
  answers-ideal l s (c ∷ cs) last (k, o) a =
      ap₂ ◌∷◌ (answer_of-perform l c.kind c.ip c.at ∙ (call-Follows c.kind _ _ k (a c.ip)).1) (
        answers-ideal (perform l c.kind c.ip c.at).0 (update s c.ip (ideal c.kind (s c.ip) c.at).0)
          cs c.at o (perform-Agree l s c k a))

  -- A new limiter answers every sequence of calls that comes in the order of its times, over any
  -- addresses, as the limiter that keeps every failure that it counted since the last
  -- success (failures during a ban are not counted).
  pub answers-eq-ideal :
      (cs : List (Call Ip)) → InOrder 0 cs → answers [] cs ≡ ideal_answers (λ ip. new_history) cs
  unfolding Map.get
  answers-eq-ideal cs o = answers-ideal [] _ cs 0 o (λ ip. Agree-new 0)
