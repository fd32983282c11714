-- ===== src/Server/RateLimit/Tests.antt =====
-- Runs of the limiters of rate_limit.rs on small inputs, over addresses that are numbers.
use at_pc.Common.{
  ℕ, zero, suc, ◌+◌, ◌-◌, ◌≤◌, ◌≡◌, refl, inl, inr, false, none, some, List, [], ◌∷◌, arith, nat_eq,
  count, keep, str_eq, ascii, ltb,
}
use at_pc.Map
use at_pc.Time.{Instant, from_secs, within}
use at_pc.Server.RateLimit.{
  fail_entry, allowed, AuthRateLimiter, Call, fails, checks, succeeds, perform, answers,
  retry_after, ban_answer,
}
use at_pc.Server.RateLimit.Entry.{entry_at}
use at_pc.Server.RateLimit.Auth.{Thirtieth}
use at_pc.Server.RateLimit.Ideal.{new_history}
use at_pc.Server.RateLimit.Refines.{ideal_answers, answers-eq-ideal}
use at_pc.Server.RateLimit.Quota
use at_pc.Server.RateLimit.Quota.Window.{Request, grants, quota_exact}
use at_pc.Server.RateLimit.Quota.Window

abbrev times : ℕ → Instant → List Instant
times zero t = []
times (suc n) t = t ∷ times n t

-- Address 7 has 29 failures at second 5.
abbrev pressed : AuthRateLimiter ℕ
pressed = (7, record { failures = times 29 (from_secs 5); banned_until = none }) ∷ []

pressed-Thirtieth : Thirtieth (entry_at pressed 7) (from_secs 6)
unfolding Map.get ban_answer count
pressed-Thirtieth = (refl, omega arith)

abbrev others : List (Call ℕ)
others =
    record { kind = fails; ip = 7; at = from_secs 7 }
    ∷ record { kind = succeeds; ip = 8; at = from_secs 8 }
    ∷ []

ban_seconds : retry_after (from_secs 906) (from_secs 900) ≡ 6
unfolding retry_after
ban_seconds = refl

abbrev calls : List (Call ℕ)
calls =
    record { kind = fails; ip = 7; at = from_secs 1 }
    ∷ record { kind = checks; ip = 8; at = from_secs 2 }
    ∷ record { kind = fails; ip = 7; at = from_secs 700 }
    ∷ []

answers-eq-ideal_example : answers [] calls ≡ ideal_answers (λ ip. new_history) calls
answers-eq-ideal_example = answers-eq-ideal calls (omega arith)

answers_run : answers [] calls ≡ some allowed ∷ some allowed ∷ some allowed ∷ []
unfolding answers perform count keep fail_entry Map.get Map.insert
answers_run = refl

abbrev asked : List Request
asked =
    record { key = ascii "k"; at = 1 }
    ∷ record { key = ascii "k"; at = 2 }
    ∷ record { key = ascii "j"; at = 3 }
    ∷ []

quota_exact_example :
    let t = Window.run (Quota.new 2 10) asked in
    let granted = count (within 10 4) (grants (ascii "k") (Quota.new 2 10) asked []) in
    let q = (Quota.check_and_record_at t (ascii "k") 4).1 in
    (q.allowed ≡ ltb granted 2) × (q.remaining ≡ 2 - (granted + 1)) × (granted ≤ 2)
quota_exact_example = quota_exact 2 10 (ascii "k") asked 4 (omega arith) (omega arith) (omega arith)

quota_run :
    (Quota.check_and_record_at (Window.run (Quota.new 2 10) asked) (ascii "k") 4).1.allowed ≡ false
unfolding Window.run Quota.new Quota.check_and_record_at Quota.admit Map.get Map.insert keep
    at_pc.Common.str_beq
quota_run = refl
