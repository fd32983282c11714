-- ===== src/Server/RateLimit/Quota/Window.antt =====
-- The quota against the full list of grants: a key is granted a request exactly while fewer than
-- `limit` were granted in the window that ends now.
use at_pc.Common.{
  str_eq, ℕ, ◌+◌, ◌-◌, ◌^◌, ◌≤◌, ◌<◌, ◌≡◌, refl, ◌∙◌, List, [], ◌∷◌, ◌++◌, arith, Str, ltb, keep,
  count, length, length-keep, length-append, count-append, count-le-length, if◌then◌else◌, ◌==◌,
  ==_iff, Bool-cases, inl, inr,
}
use at_pc.Map
use at_pc.Map.{Map}
use at_pc.Map.Laws.{get-insert, get-insert_self}
use at_pc.Time.{Instant, Duration, within}
use at_pc.Time.Window.{count-prune}
use at_pc.Server.RateLimit.Quota.{KeyQuotaTracker, new, requests_or_new, admit, check_and_record_at}

pub record Request : Type 0 where
  pub key : Str
  pub at : Instant

-- The tracker after some requests, and the instants at which one key was granted among them.
unfoldable pub run : KeyQuotaTracker → List Request → KeyQuotaTracker
run t [] = t
run t (r ∷ rs) = run (check_and_record_at t r.key r.at).0 rs

unfoldable pub grants : Str → KeyQuotaTracker → List Request → List Instant → List Instant
grants key t [] log = log
grants key t (r ∷ rs) log =
    let (t', q) = check_and_record_at t r.key r.at in
    grants key t' rs (if r.key == key then (if q.allowed then log ++ r.at ∷ [] else log) else log)

abbrev pub InOrder : Instant → List Request → Type 0
InOrder last [] = Unit
InOrder last (r ∷ rs) = (last ≤ r.at) × InOrder r.at rs

abbrev pub last_of : Instant → List Request → Instant
last_of last [] = last
last_of last (r ∷ rs) = last_of r.at rs

abbrev requests_of : KeyQuotaTracker → Str → List Instant
requests_of t key = requests_or_new (Map.get key t.entries)

-- The stored requests are no more than the limit, and any window that ends at `last` or later holds
-- as many of them as of the log.
record Tracks (limit : ℕ) (window : Duration) (last : Instant) (stored log : List Instant)
    : Type 0 where
  bounded : length stored ≤ limit
  same :
      (now : Instant)
      → last ≤ now
      → count (within window now) stored ≡ count (within window now) log

module _ {limit : ℕ} {window : Duration} {last now : Instant} {stored log : List Instant}
    (small : limit < 2 ^ 32) (k : last ≤ now) (h : Tracks limit window last stored log) where
  pruned_count : length (keep (within window now) stored) ≡ count (within window now) log
  pruned_count = length-keep (within window now) stored ∙ h.same now k

  admit_allowed :
      (admit limit window stored now).1.allowed ≡ ltb (count (within window now) log) limit
  unfolding admit
  admit_allowed = ground (
    arith,
    pruned_count,
    length-keep (within window now) stored,
    count-le-length (within window now) stored,
    h.bounded,
  )

  admit_remaining :
      (admit limit window stored now).1.remaining ≡ limit - (count (within window now) log + 1)
  unfolding admit
  admit_remaining = ground (
    arith,
    pruned_count,
    length-keep (within window now) stored,
    count-le-length (within window now) stored,
    h.bounded,
  )

  granted_bounded : count (within window now) log ≤ limit
  granted_bounded = omega (
    arith,
    pruned_count,
    length-keep (within window now) stored,
    count-le-length (within window now) stored,
    h.bounded,
  )

  stored-admit : (admit limit window stored now).0 ≡ (
      if (admit limit window stored now).1.allowed
      then keep (within window now) stored ++ now ∷ []
      else keep (within window now) stored)
  unfolding admit
  stored-admit = ground arith

  admit_bounded : length (admit limit window stored now).0 ≤ limit
  unfolding admit
  admit_bounded = ground (
    arith,
    length-keep (within window now) stored,
    count-le-length (within window now) stored,
    length-append (keep (within window now) stored) (now ∷ []),
    h.bounded,
  )

  admit-Tracks :
      Tracks limit window now
        (admit limit window stored now).0
        (if (admit limit window stored now).1.allowed then log ++ now ∷ [] else log)
  admit-Tracks = record {
    bounded = admit_bounded;
    same = λ later c. rw stored-admit (
        ground (
          arith,
          count-prune window window now later stored,
          count-append (within window later) (keep (within window now) stored) (now ∷ []),
          count-append (within window later) log (now ∷ []),
          h.same later,
        ));
  }

Tracks-later :
    {limit : ℕ} {window : Duration} {last now : Instant} {stored log : List Instant}
    → last ≤ now
    → Tracks limit window last stored log
    → Tracks limit window now stored log
Tracks-later k h = record { bounded = h.bounded; same = λ t c. h.same t (omega arith) }

-- A tracker with its first limit and window, that tracks the log of one key.
record Follows (limit : ℕ) (window : Duration) (key : Str) (last : Instant) (t : KeyQuotaTracker)
    (log : List Instant) : Type 0 where
  same_limit : t.limit ≡ limit
  same_window : t.window ≡ window
  tracks : Tracks limit window last (requests_of t key) log

-- One request's effect on the log of a key.
abbrev extend : Str → KeyQuotaTracker → Request → List Instant → List Instant
extend key t r log =
    if r.key == key
    then (if (check_and_record_at t r.key r.at).1.allowed then log ++ r.at ∷ [] else log)
    else log

module _ {limit : ℕ} {window : Duration} (small : limit < 2 ^ 32) (key : Str) where
  step_self :
      (t : KeyQuotaTracker) (now last : Instant) (log : List Instant)
      → last ≤ now
      → Follows limit window key last t log
      → Tracks limit window now
          (requests_of (check_and_record_at t key now).0 key)
          (if (check_and_record_at t key now).1.allowed then log ++ now ∷ [] else log)
  unfolding check_and_record_at
  step_self t now last log k f =
      rw (f.same_limit, f.same_window, get-insert_self key) (admit-Tracks small k f.tracks)

  step_at :
      (t : KeyQuotaTracker) (j : Str) (now last : Instant) (log : List Instant)
      → j ≡ key
      → last ≤ now
      → Follows limit window key last t log
      → Tracks limit window now
          (requests_of (check_and_record_at t j now).0 key)
          (if (check_and_record_at t j now).1.allowed then log ++ now ∷ [] else log)
  step_at t j now last log e k f = rw e (step_self t now last log k f)

  step-Follows :
      (t : KeyQuotaTracker) (r : Request) (last : Instant) (log : List Instant)
      → last ≤ r.at
      → Follows limit window key last t log
      → Follows limit window key r.at (check_and_record_at t r.key r.at).0 (extend key t r log)
  unfolding check_and_record_at
  step-Follows t r last log k f = record {
    same_limit = f.same_limit;
    same_window = f.same_window;
    tracks = elim (Bool-cases (r.key == key)) [
      | inl same ↦ rw same (step_at t r.key r.at last log ((==_iff r.key key).0 same) k f)
      | inr other ↦ rw (get-insert r.key key, other) (Tracks-later k f.tracks)
    ];
  }

  run-Follows :
      (t : KeyQuotaTracker) (rs : List Request) (last : Instant) (log : List Instant)
      → InOrder last rs
      → Follows limit window key last t log
      → Follows limit window key (last_of last rs) (run t rs) (grants key t rs log)
  unfolding run grants
  run-Follows t [] last log o f = f
  run-Follows t (r ∷ rs) last log (k, o) f =
      run-Follows (check_and_record_at t r.key r.at).0 rs r.at (extend key t r log) o
        (step-Follows t r last log k f)

  new-Follows : Follows limit window key 0 (new limit window) []
  unfolding new Map.get
  new-Follows = record {
    same_limit = refl;
    same_window = refl;
    tracks = record { bounded = omega arith; same = λ now c. refl };
  }

-- After any requests, for any keys, in the order of their times: a request of the key is granted
-- exactly if fewer than `limit` requests of that key were granted in the window that ends now, and
-- `remaining` is what is left of the limit after it, or 0. So no such window ever holds more than
-- `limit` grants. The limit is a u32.
pub quota_exact :
    (limit : ℕ) (window : Duration) (key : Str) (rs : List Request) (now : Instant)
    → limit < 2 ^ 32
    → InOrder 0 rs
    → last_of 0 rs ≤ now
    → let t = run (new limit window) rs in
      let granted = count (within window now) (grants key (new limit window) rs []) in
      let q = (check_and_record_at t key now).1 in
      (q.allowed ≡ ltb granted limit) × (q.remaining ≡ limit - (granted + 1)) × (granted ≤ limit)
unfolding check_and_record_at
quota_exact limit window key rs now small o k =
    let f = run-Follows small key (new limit window) rs 0 [] o (new-Follows small key) in
    rw (f.same_limit, f.same_window)
      (
        admit_allowed small k f.tracks,
        admit_remaining small k f.tracks,
        granted_bounded small k f.tracks,
      )
