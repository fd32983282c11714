-- ===== src/Server/RateLimit/Quota.antt =====
-- rate_limit.rs, `KeyQuotaTracker`: a rolling window of requests for each key. `limit` is a u32, and
-- the cast of the number of requests to u32 is written out.
pub mod Window
use at_pc.Common.{
  str_eq, ℕ, ◌+◌, ◌-◌, ◌%◌, ◌^◌, Bool, true, false, Option, none, some, List, [], ◌∷◌, ◌++◌, Str,
  ltb, leb, max, keep, length, if◌then◌else◌,
}
use at_pc.Map
use at_pc.Map.{Map}
use at_pc.Time.{Instant, Duration, from_secs, as_secs, duration_since, within}

pub record QuotaResult : Type 0 where
  pub allowed : Bool
  pub limit : ℕ
  pub remaining : ℕ
  pub reset_secs : ℕ

pub record KeyQuotaTracker : Type 0 where
  pub limit : ℕ
  pub window : Duration
  pub entries : Map Str (List Instant)

unfoldable pub new : ℕ → Duration → KeyQuotaTracker
new limit window = record { limit = limit; window = window; entries = [] }

abbrev pub requests_or_new : Option (List Instant) → List Instant
requests_or_new none = []
requests_or_new (some r) = r

-- `requests.first().copied().unwrap_or(now)`
abbrev pub oldest_or : Instant → List Instant → Instant
oldest_or now [] = now
oldest_or now (t ∷ ts) = t

unfoldable pub reset_after : Duration → Instant → List Instant → ℕ
reset_after window now requests =
    let elapsed = duration_since now (oldest_or now requests) in
    if ltb elapsed window then max (as_secs (window - elapsed)) 1 else as_secs window

-- The entry of one key: prune, then refuse or record.
unfoldable pub admit : ℕ → Duration → List Instant → Instant → List Instant × QuotaResult
unfolding reset_after
admit limit window old now =
    let requests = keep (within window now) old in
    let current_count = length requests % 2 ^ 32 in
    let reset = reset_after window now requests in
    if leb limit current_count
    then (requests, record { allowed = false; limit = limit; remaining = 0; reset_secs = reset })
    else (
      requests ++ now ∷ [],
      record {
        allowed = true;
        limit = limit;
        remaining = limit - (current_count + 1);
        reset_secs = reset;
      },
    )

unfoldable pub check_and_record_at : KeyQuotaTracker → Str → Instant → KeyQuotaTracker × QuotaResult
check_and_record_at t key now =
    let (requests, r) = admit t.limit t.window (requests_or_new (Map.get key t.entries)) now in
    (record t { entries = Map.insert key requests t.entries }, r)
