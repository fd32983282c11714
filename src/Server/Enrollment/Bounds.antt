-- ===== src/Server/Enrollment/Bounds.antt =====
-- enrollment_store.rs: the number of pending enrollments stays within its bound.
use at_pc.Common.{
  any, ℕ, suc, ◌≤◌, ◌≡◌, refl, Str, Bool, true, false, not, ◌&&◌, ◌||◌, Option, none, some, List,
  [], ◌∷◌, arith, leb, str_eq, ==_self,
}
use at_pc.Map
use at_pc.Map.{Map}
use at_pc.Map.Subset.{remove-len, remove-len_le}
use at_pc.Server.Enrollment.{
  EnrollmentHello, PendingEnrollmentRecord, DeviceEnrollmentStore, fingerprint, is_new, id_or,
  is_pending, prune_expired, find_record, EnrollmentResult, unless_refused, upsert, found_and,
  existing, same_device, same_key, has_conflict, add_challenge, issue_challenge,
  create_or_refresh_pending, consume_challenge,
}

pub data Op (Facts : Type 0) : Type 0 where
  issues : EnrollmentHello Facts → Option Str → ℕ → Option Str → Option Str → Op Facts
  creates : EnrollmentHello Facts → Option Str → ℕ → Str → Bool → Op Facts
  consumes : Str → ℕ → Op Facts

module _ {Facts : Type 0} where
  retain-len :
      (p : Str → PendingEnrollmentRecord Facts → Bool) (m : Map Str (PendingEnrollmentRecord Facts))
      → Map.len (Map.retain p m) ≤ Map.len m
  unfolding Map.retain
  retain-len p [] = omega arith
  retain-len p ((k, v) ∷ m) = ground (arith, retain-len p m)

  insert-len :
      (k : Str) (v : PendingEnrollmentRecord Facts) (m : Map Str (PendingEnrollmentRecord Facts))
      → (Map.len (Map.insert k v m) ≤ suc (Map.len m))
        × (Map.contains_key k m ≡ true → Map.len (Map.insert k v m) ≤ Map.len m)
  unfolding Map.insert
  insert-len k v m = (ground (arith, remove-len_le k m), λ h. ground (arith, remove-len k m h))

  find-contains :
      (p : PendingEnrollmentRecord Facts → Bool) (m : Map Str (PendingEnrollmentRecord Facts))
      (id : Str) (r : PendingEnrollmentRecord Facts)
      → find_record p m ≡ some (id, r)
      → Map.contains_key id m ≡ true
  unfolding find_record Map.contains_key Map.get
  find-contains p [] id r h = ground arith
  find-contains p ((j, v) ∷ m) id r h = ground (arith, find-contains p m id r, ==_self j)

  picked-contains :
      (a b : Option (Str × PendingEnrollmentRecord Facts))
      (m : Map Str (PendingEnrollmentRecord Facts)) (id : Str)
      → ((j : Str) (r : PendingEnrollmentRecord Facts)
          → a ≡ some (j, r)
          → Map.contains_key j m ≡ true)
      → ((j : Str) (r : PendingEnrollmentRecord Facts)
          → b ≡ some (j, r)
          → Map.contains_key j m ≡ true)
      → existing a b ≡ some id
      → Map.contains_key id m ≡ true
  picked-contains (some (j, r)) b m id c d h = ground (arith, c j r refl, h)
  picked-contains none (some (j, r)) m id c d h = ground (arith, d j r refl, h)
  picked-contains none none m id c d h = ground arith

  existing-contains :
      (p q : PendingEnrollmentRecord Facts → Bool) (m : Map Str (PendingEnrollmentRecord Facts))
      (id : Str)
      → existing (find_record p m) (find_record q m) ≡ some id
      → Map.contains_key id m ≡ true
  existing-contains p q m id h =
      picked-contains (find_record p m) (find_record q m) m id (find-contains p m)
        (find-contains q m) h

  insert-len_le :
      (ex : Option Str) (drawn : Str) (v : PendingEnrollmentRecord Facts)
      (m : Map Str (PendingEnrollmentRecord Facts)) (bound : ℕ)
      → ((id : Str) → ex ≡ some id → Map.contains_key id m ≡ true)
      → Map.len m ≤ bound
      → (is_new ex && leb bound (Map.len m)) ≡ false
      → Map.len (Map.insert (id_or ex drawn) v m) ≤ bound
  insert-len_le none drawn v m bound c h k = ground (arith, (insert-len drawn v m).0)
  insert-len_le (some id) drawn v m bound c h k = ground (arith, (insert-len id v m).1 (c id refl))

  pub record Bounded (s : DeviceEnrollmentStore Facts) : Type 0 where
    pub within : Map.len s.records ≤ s.max_pending

  unless-Bounded :
      {R : Type 0} (s : DeviceEnrollmentStore Facts) (a b : Bool)
      (z : DeviceEnrollmentStore Facts × EnrollmentResult R)
      → Bounded s
      → (b ≡ false → Bounded z.0)
      → Bounded (unless_refused s a b z).0
  unfolding unless_refused
  unless-Bounded s true b z h l = h
  unless-Bounded s false true z h l = h
  unless-Bounded s false false z h l = l refl

  upsert-Bounded :
      (s : DeviceEnrollmentStore Facts) (hello : EnrollmentHello Facts) (key : Str)
      (ip : Option Str) (now : ℕ) (ex : Option Str) (drawn : Str) (saved : Bool)
      → ((id : Str) → ex ≡ some id → Map.contains_key id s.records ≡ true)
      → Bounded s
      → (is_new ex && leb s.max_pending (Map.len s.records)) ≡ false
      → Bounded (upsert s hello key ip now ex drawn saved).0
  unfolding upsert
  upsert-Bounded s hello key ip now ex drawn saved c h k = record {
    within = insert-len_le ex drawn _ s.records s.max_pending c h.within k;
  }

  added-Bounded :
      (s : DeviceEnrollmentStore Facts) (hello : EnrollmentHello Facts) (ip : Option Str) (now : ℕ)
      (id nonce : Option Str)
      → Bounded s
      → Bounded (add_challenge s hello ip now id nonce).0
  added-Bounded s hello ip now (some id) (some nonce) h = record { within = h.within }
  added-Bounded s hello ip now (some id) none h = h
  added-Bounded s hello ip now none n h = h

  pruned-len :
      (s : DeviceEnrollmentStore Facts) (now : ℕ)
      → Bounded s
      → Map.len (prune_expired s.records now) ≤ s.max_pending
  unfolding prune_expired
  pruned-len s now h = grind (arith, retain-len (is_pending now) s.records, h.within)

  module _ (sha256 : Str → List ℕ) where
    unfoldable pub step : DeviceEnrollmentStore Facts → Op Facts → DeviceEnrollmentStore Facts
    step s (issues hello ip now id nonce) = (issue_challenge sha256 s hello ip now id nonce).0
    step s (creates hello ip now drawn saved) =
        (create_or_refresh_pending sha256 s hello ip now drawn saved).0
    step s (consumes id now) = (consume_challenge s id now).0

    unfoldable pub run : DeviceEnrollmentStore Facts → List (Op Facts) → DeviceEnrollmentStore Facts
    run s [] = s
    run s (o ∷ os) = run (step s o) os

    step-Bounded : (s : DeviceEnrollmentStore Facts) (o : Op Facts) → Bounded s → Bounded (step s o)
    unfolding step issue_challenge create_or_refresh_pending consume_challenge
    step-Bounded s (issues hello ip now id nonce) h =
        let s' = record s { records = prune_expired s.records now } in
        let b : Bounded s' = record { within = pruned-len s now h } in
        let key = fingerprint sha256 hello.public_key in
        let is_known =
          any (λ r. same_device hello.stable_device_id r && same_key key r)
            (Map.values s'.records) in
        unless-Bounded s' (has_conflict hello.stable_device_id key s'.records)
          (not is_known && leb s.max_pending (Map.len s'.records))
          (add_challenge s' hello ip now id nonce) b (λ k. added-Bounded s' hello ip now id nonce b)
    step-Bounded s (creates hello ip now drawn saved) h =
        let records = prune_expired s.records now in
        let s' = record s { records = records } in
        let b : Bounded s' = record { within = pruned-len s now h } in
        let key = fingerprint sha256 hello.public_key in
        let by_device = find_record (same_device hello.stable_device_id) records in
        let by_key = find_record (same_key key) records in
        let ex = existing by_device by_key in
        unless-Bounded s'
          (found_and by_device (λ r. not (same_key key r))
            || found_and by_key (λ r. not (same_device hello.stable_device_id r)))
          (is_new ex && leb s.max_pending (Map.len records))
          (upsert s' hello key ip now ex drawn saved) b
          (upsert-Bounded s' hello key ip now ex drawn saved
            (existing-contains (same_device hello.stable_device_id) (same_key key) records) b)
    step-Bounded s (consumes id now) h = record { within = h.within }

    -- From a store within its bound, after any challenges, requests and consumed challenges, whatever was
    -- drawn and however the writes went, there are no more pending enrollments than `max_pending`.
    pub run-Bounded :
        (s : DeviceEnrollmentStore Facts) (os : List (Op Facts)) → Bounded s → Bounded (run s os)
    unfolding run
    run-Bounded s [] h = h
    run-Bounded s (o ∷ os) h = run-Bounded (step s o) os (step-Bounded s o h)
