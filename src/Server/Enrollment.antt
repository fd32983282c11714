-- ===== src/Server/Enrollment.antt =====
-- crates/server/src/enrollment_store.rs: challenges and pending enrollments of new devices. The two maps
-- have a lock each, and every block that holds one runs at once. `Facts` are what a device says of
-- itself; SHA-256, clocks (seconds) and random texts are arguments.
pub mod Bounds
pub mod Tests
use at_pc.Common.{
  ℕ, ◌+◌, min, max, Str, Bool, true, false, not, ◌&&◌, ◌||◌, Option, none, some, List, [], ◌∷◌,
  take, any, ltb, leb, ◌==◌, str_eq, if◌then◌else◌,
}
use at_pc.Map
use at_pc.Map.{Map}
use at_pc.Server.KeyStore.Credential.{hex_encode}

pub record EnrollmentHello (Facts : Type 0) : Type 0 where
  pub protocol_version : ℕ
  pub stable_device_id : Str
  pub public_key : Str
  pub facts : Facts
  pub capabilities : List Str
  pub client_nonce : Str

pub record PendingEnrollmentRecord (Facts : Type 0) : Type 0 where
  pub enrollment_id : Str
  pub stable_device_id : Str
  pub public_key : Str
  pub public_key_fingerprint : Str
  pub facts : Facts
  pub capabilities : List Str
  pub requested_at : ℕ
  pub last_seen_at : ℕ
  pub expires_at : ℕ
  pub request_count : ℕ
  pub source_ip : Option Str

pub record EnrollmentChallenge (Facts : Type 0) : Type 0 where
  pub enrollment_id : Str
  pub server_nonce : Str
  pub expires_at : ℕ
  pub hello : EnrollmentHello Facts
  pub source_ip : Option Str

pub data EnrollmentStoreError : Type 0 where
  capacity_exceeded identity_conflict challenge_not_found challenge_expired randomness_unavailable
        persistence :
      EnrollmentStoreError

-- `Result<T, EnrollmentStoreError>`
pub data EnrollmentResult (T : Type 0) : Type 0 where
  ok : T → EnrollmentResult T
  err : EnrollmentStoreError → EnrollmentResult T

pub record DeviceEnrollmentStore (Facts : Type 0) : Type 0 where
  pub records : Map Str (PendingEnrollmentRecord Facts)
  pub challenges : Map Str (EnrollmentChallenge Facts)
  pub pending_ttl_secs : ℕ
  pub challenge_ttl_secs : ℕ
  pub max_pending : ℕ

abbrev pub default_challenge_ttl_secs : ℕ
default_challenge_ttl_secs = 120

-- `u32::saturating_add`
abbrev pub count_up : ℕ → ℕ
count_up n = min (n + 1) 4_294_967_295

-- Eight bytes of the hash, in hexadecimal.
abbrev pub fingerprint : (Str → List ℕ) → Str → Str
fingerprint sha256 public_key = hex_encode (take 8 (sha256 public_key))

abbrev pub is_new : Option Str → Bool
is_new none = true
is_new (some id) = false

abbrev pub id_or : Option Str → Str → Str
id_or none drawn = drawn
id_or (some id) drawn = id

module _ {Facts : Type 0} where
  abbrev pub is_pending : ℕ → Str → PendingEnrollmentRecord Facts → Bool
  is_pending now id r = ltb now r.expires_at

  unfoldable pub prune_expired :
      Map Str (PendingEnrollmentRecord Facts) → ℕ → Map Str (PendingEnrollmentRecord Facts)
  prune_expired records now = Map.retain (is_pending now) records

  abbrev pub same_device : Str → PendingEnrollmentRecord Facts → Bool
  same_device device r = r.stable_device_id == device

  abbrev pub same_key : Str → PendingEnrollmentRecord Facts → Bool
  same_key fingerprint r = r.public_key_fingerprint == fingerprint

  -- The device with another key, or the key with another device.
  unfoldable pub has_conflict : Str → Str → Map Str (PendingEnrollmentRecord Facts) → Bool
  has_conflict device fingerprint records =
      any (λ r. same_device device r && not (same_key fingerprint r)) (Map.values records)
      || any (λ r. same_key fingerprint r && not (same_device device r)) (Map.values records)

  abbrev pub is_live_challenge : ℕ → Str → EnrollmentChallenge Facts → Bool
  is_live_challenge now id c = ltb now c.expires_at

  -- The two early returns, on a conflict and on a full store, before the last step.
  unfoldable pub unless_refused :
      {R : Type 0}
      → DeviceEnrollmentStore Facts
      → Bool
      → Bool
      → DeviceEnrollmentStore Facts × EnrollmentResult R
      → DeviceEnrollmentStore Facts × EnrollmentResult R
  unless_refused s conflict full last =
      if conflict
      then (s, err identity_conflict)
      else if full
      then (s, err capacity_exceeded)
      else last

  -- The challenge that is stored under a fresh id, if the system gave both random texts.
  abbrev pub add_challenge :
      DeviceEnrollmentStore Facts
      → EnrollmentHello Facts
      → Option Str
      → ℕ
      → Option Str
      → Option Str
      → DeviceEnrollmentStore Facts × EnrollmentResult (EnrollmentChallenge Facts)
  add_challenge s hello source_ip now (some id) (some nonce) =
      let challenge : EnrollmentChallenge Facts = record {
        enrollment_id = id;
        server_nonce = nonce;
        expires_at = now + max s.challenge_ttl_secs default_challenge_ttl_secs;
        hello = hello;
        source_ip = source_ip;
      } in
      (
        record s {
          challenges = Map.insert id challenge (Map.retain (is_live_challenge now) s.challenges);
        },
        ok challenge,
      )
  add_challenge s hello source_ip now _ _ = (s, err randomness_unavailable)

  -- The first record that passes a test, with its key.
  unfoldable pub find_record :
      (PendingEnrollmentRecord Facts → Bool)
      → Map Str (PendingEnrollmentRecord Facts)
      → Option (Str × PendingEnrollmentRecord Facts)
  find_record p [] = none
  find_record p ((id, r) ∷ m) = let rest = find_record p m in if p r then some (id, r) else rest

  -- `records.get(id).is_some_and(p)` for the record that was found
  abbrev pub found_and :
      Option (Str × PendingEnrollmentRecord Facts) → (PendingEnrollmentRecord Facts → Bool) → Bool
  found_and none p = false
  found_and (some (id, r)) p = p r

  -- `matching_id.or(matching_key)`
  abbrev pub existing :
      Option (Str × PendingEnrollmentRecord Facts)
      → Option (Str × PendingEnrollmentRecord Facts)
      → Option Str
  existing (some (id, r)) other = some id
  existing none (some (id, r)) = some id
  existing none none = none

  abbrev pub record_or :
      Option (PendingEnrollmentRecord Facts)
      → PendingEnrollmentRecord Facts
      → PendingEnrollmentRecord Facts
  record_or none new = new
  record_or (some r) new = r

  abbrev pub new_record :
      Str → EnrollmentHello Facts → Str → Option Str → ℕ → ℕ → PendingEnrollmentRecord Facts
  new_record id hello fingerprint source_ip now ttl = record {
    enrollment_id = id;
    stable_device_id = hello.stable_device_id;
    public_key = hello.public_key;
    public_key_fingerprint = fingerprint;
    facts = hello.facts;
    capabilities = hello.capabilities;
    requested_at = now;
    last_seen_at = now;
    expires_at = now + ttl;
    request_count = 0;
    source_ip = source_ip;
  }

  abbrev pub refresh :
      EnrollmentHello Facts
      → Option Str
      → ℕ
      → ℕ
      → PendingEnrollmentRecord Facts
      → PendingEnrollmentRecord Facts
  refresh hello source_ip now ttl r = record r {
    facts = hello.facts;
    capabilities = hello.capabilities;
    last_seen_at = now;
    expires_at = now + ttl;
    request_count = count_up r.request_count;
    source_ip = source_ip;
  }

  -- The record is refreshed, or made under the drawn id.
  unfoldable pub upsert :
      DeviceEnrollmentStore Facts
      → EnrollmentHello Facts
      → Str
      → Option Str
      → ℕ
      → Option Str
      → Str
      → Bool
      → DeviceEnrollmentStore Facts × EnrollmentResult (PendingEnrollmentRecord Facts × Bool)
  upsert s hello key source_ip now existing_id drawn saved =
      let id = id_or existing_id drawn in
      let new = new_record id hello key source_ip now s.pending_ttl_secs in
      let r =
        refresh hello source_ip now s.pending_ttl_secs (record_or (Map.get id s.records) new) in
      (
        record s { records = Map.insert id r s.records },
        (if saved then ok (r, is_new existing_id) else err persistence),
      )

  module _ (sha256 : Str → List ℕ) where
    unfoldable pub issue_challenge :
        DeviceEnrollmentStore Facts
        → EnrollmentHello Facts
        → Option Str
        → ℕ
        → Option Str
        → Option Str
        → DeviceEnrollmentStore Facts × EnrollmentResult (EnrollmentChallenge Facts)
    unfolding prune_expired has_conflict unless_refused
    issue_challenge s hello source_ip now id nonce =
        let records = prune_expired s.records now in
        let s' = record s { records = records } in
        let key = fingerprint sha256 hello.public_key in
        let is_known =
          any (λ r. same_device hello.stable_device_id r && same_key key r) (Map.values records) in
        unless_refused s' (has_conflict hello.stable_device_id key records)
          (not is_known && leb s.max_pending (Map.len records))
          (add_challenge s' hello source_ip now id nonce)

    -- The result says whether a record was made; `saved` is the outcome of `persist`.
    unfoldable pub create_or_refresh_pending :
        DeviceEnrollmentStore Facts
        → EnrollmentHello Facts
        → Option Str
        → ℕ
        → Str
        → Bool
        → DeviceEnrollmentStore Facts × EnrollmentResult (PendingEnrollmentRecord Facts × Bool)
    unfolding prune_expired find_record unless_refused upsert
    create_or_refresh_pending s hello source_ip now drawn saved =
        let records = prune_expired s.records now in
        let s' = record s { records = records } in
        let key = fingerprint sha256 hello.public_key in
        let matching_id = find_record (same_device hello.stable_device_id) records in
        let matching_key = find_record (same_key key) records in
        let existing_id = existing matching_id matching_key in
        unless_refused s'
          (found_and matching_id (λ r. not (same_key key r))
            || found_and matching_key (λ r. not (same_device hello.stable_device_id r)))
          (is_new existing_id && leb s.max_pending (Map.len records))
          (upsert s' hello key source_ip now existing_id drawn saved)

  abbrev pub taken_challenge :
      Option (EnrollmentChallenge Facts) → ℕ → EnrollmentResult (EnrollmentChallenge Facts)
  taken_challenge none now = err challenge_not_found
  taken_challenge (some c) now = if leb c.expires_at now then err challenge_expired else ok c

  unfoldable pub consume_challenge :
      DeviceEnrollmentStore Facts
      → Str
      → ℕ
      → DeviceEnrollmentStore Facts × EnrollmentResult (EnrollmentChallenge Facts)
  consume_challenge s id now = (
    record s { challenges = Map.remove id s.challenges },
    taken_challenge (Map.get id s.challenges) now,
  )
