-- ===== src/Server/KeyStore/Store.antt =====
-- keystore.rs: the operations of `KeyStore`. Each takes the store to the next one. What the outside
-- decides is an argument: the random draws, the two clocks, and whether the write to disk succeeds
-- (it writes a temporary file and renames it, so the file on disk is the old or the new one).
use at_pc.Common.{
  ◌-◌, ℕ, ◌+◌, ◌*◌, Str, ascii, Bool, true, false, not, ◌&&◌, Option, none, some, List, [], ◌∷◌,
  ◌++◌, leb, ltb, str_eq, str_beq, count, any, if◌then◌else◌,
}
use at_pc.Map
use at_pc.Map.{Map}
use at_pc.Time.{Instant, from_secs, duration_since}
use at_pc.Protocol.{Role, admin, role_beq}
use at_pc.Server.KeyStore.{
  KeyKind, secret_key, kind_beq, KeyRecord, KeySummary, to_summary, Principal, AuthResult, ok, err,
  key_not_found, wrong_kind, hash_mismatch, revoked, expired, ◌>>=◌, ◌>>◌, ok_or, require,
}
use at_pc.Server.KeyStore.Credential.{
  parse_credential, format_credential, crockford_base32_id, hex_encode,
}

-- UTC time in nanoseconds since the epoch.
abbrev pub DateTime : Type 0
DateTime = ℕ

-- The crates that the store calls: sha2, base64 and chrono.
pub record Crates : Type 0 where
  pub sha256 : List ℕ → List ℕ
  pub base64url : List ℕ → Str
  pub to_rfc3339 : DateTime → Str
  pub parse_rfc3339 : Str → Option DateTime

pub record KeyStore : Type 0 where
  pub records : Map Str KeyRecord
  pub disk : Map Str KeyRecord
  pub last_persisted_used : Map Str Instant

pub data StoreError : Type 0 where
  not_found last_active_admin csprng_error save_error : StoreError
  -- The given draws ran out while the loop was still looking for a free id.
  still_drawing : StoreError

pub data StoreResult {ℓ} (A : Type ℓ) : Type ℓ where
  done : A → StoreResult A
  failed : StoreError → StoreResult A

abbrev pub Bytes5 : Type 0
Bytes5 = ℕ × ℕ × ℕ × ℕ × ℕ

-- What `getrandom` returns during one call; `none` is an error.
pub record Draws : Type 0 where
  pub ids : List (Option Bytes5)
  pub secret : Option (List ℕ)
  pub salt : Option (List ℕ)

abbrev pub id_of : Bytes5 → Str
id_of (b0, b1, b2, b3, b4) = crockford_base32_id b0 b1 b2 b3 b4

-- `loop { getrandom(&mut id_bytes)?; ...; if !records.contains_key(&id) { break; } }`
unfoldable pub fresh_id : Map Str KeyRecord → List (Option Bytes5) → StoreResult Str
fresh_id records [] = failed still_drawing
fresh_id records (none ∷ ds) = failed csprng_error
fresh_id records (some b ∷ ds) =
    let rest = fresh_id records ds in
    if Map.contains_key (id_of b) records then rest else done (id_of b)

module _ (c : Crates) where
  -- sha256(salt_hex || secret), in hex
  unfoldable pub compute_hash : Str → Str → Str
  compute_hash salt secret = hex_encode (c.sha256 (salt ++ secret))

  -- The record and the plaintext of a new key, before it is stored.
  unfoldable pub mint :
      Map Str KeyRecord
      → Str
      → KeyKind
      → Option Role
      → List Str
      → Option Str
      → Option Str
      → Draws
      → DateTime
      → StoreResult (KeyRecord × Str)
  unfolding compute_hash
  mint records name kind role scopes device_id expires_at d now = elim (fresh_id records d.ids) [
    | failed e ↦ failed e
    | done id ↦ elim d.secret [
      | none ↦ failed csprng_error
      | some secret_bytes ↦ elim d.salt [
        | none ↦ failed csprng_error
        | some salt_bytes ↦
            let secret = c.base64url secret_bytes in
            let salt = hex_encode salt_bytes in
            done (
              record {
                id = id;
                name = name;
                kind = kind;
                role = role;
                scopes = scopes;
                device_id = device_id;
                salt = salt;
                hash = compute_hash salt secret;
                hash_algo = ascii "sha256-salt-v1";
                created_at = c.to_rfc3339 now;
                expires_at = expires_at;
                revoked_at = none;
                last_used_at = none;
              },
              format_credential kind id secret,
            )
      ]
    ]
  ]

-- Change the records in memory, then write them out; a failed write leaves the file as it was.
unfoldable pub commit {ℓ} :
    {A : Type ℓ} → KeyStore → Map Str KeyRecord → Bool → A → KeyStore × StoreResult A
commit s records saved a =
    if saved
    then (record s { records = records; disk = records }, done a)
    else (record s { records = records }, failed save_error)

-- `kind == SecretKey && role == Some(Admin) && revoked_at.is_none()`
abbrev pub is_admin_role : Option Role → Bool
is_admin_role none = false
is_admin_role (some r) = role_beq r admin

abbrev pub is_none {ℓ} : {A : Type ℓ} → Option A → Bool
is_none none = true
is_none (some _) = false

unfoldable pub is_active_admin : KeyRecord → Bool
is_active_admin r = kind_beq r.kind secret_key && is_admin_role r.role && is_none r.revoked_at

abbrev pub active_admin_count : Map Str KeyRecord → ℕ
active_admin_count records = count is_active_admin (Map.values records)

-- The guard of `revoke` and `delete`.
unfoldable pub is_last_admin : KeyRecord → Map Str KeyRecord → Bool
is_last_admin r records = is_active_admin r && leb (active_admin_count records) 1

abbrev pub principal_of : KeyRecord → Principal
principal_of r = record {
  id = r.id;
  name = r.name;
  kind = r.kind;
  role = r.role;
  scopes = r.scopes;
  device_id = r.device_id;
}

-- The id under which the record was found is the one that the credential names.
abbrev pub id_in : AuthResult (KeyKind × Str × Str) → Str
id_in (ok (_, id, _)) = id
id_in (err _) = []

module _ (c : Crates) where
  unfoldable pub issue :
      KeyStore
      → Str
      → KeyKind
      → Option Role
      → List Str
      → Option Str
      → Option Str
      → Draws
      → DateTime
      → Bool
      → KeyStore × StoreResult (KeyRecord × Str)
  issue s name kind role scopes device_id expires_at d now saved =
      elim (mint c s.records name kind role scopes device_id expires_at d now) [
        | failed e ↦ (s, failed e)
        | done (r, key) ↦ commit s (Map.insert r.id r s.records) saved (r, key)
      ]

  unfoldable pub revoke : KeyStore → Str → DateTime → Bool → KeyStore × StoreResult (Unit {0})
  revoke s id now saved = elim (Map.get id s.records) [
    | none ↦ (s, failed not_found)
    | some r ↦
        if is_last_admin r s.records
        then (s, failed last_active_admin)
        else commit s
            (Map.modify id (λ r'. record r' { revoked_at = some (c.to_rfc3339 now) }) s.records)
            saved tt
  ]

  -- `now + chrono::Duration::hours(h as i64)`: as an `i64`, 2^63 hours or more are negative. A time
  -- before 1970 is 1970 here. Where chrono's range does not hold the hours or the time, the code
  -- panics before it saves anything; that is left out.
  unfoldable pub after_hours : ℕ → DateTime → DateTime
  after_hours h now =
      if ltb h 9_223_372_036_854_775_808
      then now + from_secs (h * 3600)
      else now - from_secs ((18_446_744_073_709_551_616 - h) * 3600)

  -- What `rotate` does to the old record.
  unfoldable pub retire : Option ℕ → DateTime → KeyRecord → KeyRecord
  unfolding after_hours
  retire none now r = record r { expires_at = some (c.to_rfc3339 (now + from_secs (24 * 3600))) }
  retire (some h) now r =
      if leb h 0
      then record r { revoked_at = some (c.to_rfc3339 now) }
      else record r { expires_at = some (c.to_rfc3339 (after_hours h now)) }

  unfoldable pub rotate :
      KeyStore → Str → Option ℕ → Draws → DateTime → Bool → KeyStore × StoreResult (KeyRecord × Str)
  unfolding retire
  rotate s id grace_hours d now saved = elim (Map.get id s.records) [
    | none ↦ (s, failed not_found)
    | some old ↦
        elim (mint c s.records old.name old.kind old.role old.scopes old.device_id none d now) [
          | failed e ↦ (s, failed e)
          | done (r, key) ↦
              commit s (Map.modify id (retire grace_hours now) (Map.insert r.id r s.records)) saved
                (r, key)
        ]
  ]

  -- `touch_last_used`: at most one write a minute for each key.
  unfoldable pub touch_last_used : KeyStore → Str → Instant → DateTime → Bool → KeyStore
  touch_last_used s id now_instant now saved =
      if elim (Map.get id s.last_persisted_used) [
        | none ↦ true
        | some last ↦ not (ltb (duration_since now_instant last) (from_secs 60))
      ]
      then (let records =
            Map.modify id (λ r. record r { last_used_at = some (c.to_rfc3339 now) }) s.records in
          record {
            records = records;
            disk = if Map.contains_key id s.records && saved then records else s.disk;
            last_persisted_used = Map.insert id now_instant s.last_persisted_used;
          })
      else s

  -- `expires_at`, if it is set, must parse and lie in the future.
  unfoldable pub is_expired : Option Str → DateTime → Bool
  is_expired none now = false
  is_expired (some text) now = elim (c.parse_rfc3339 text) [ none ↦ true | some exp ↦ leb exp now ]

  -- `verify` up to the update of `last_used_at`: the record that the credential opens.
  unfoldable pub authenticate : Map Str KeyRecord → Str → DateTime → AuthResult KeyRecord
  unfolding compute_hash is_expired
  authenticate records credential now = do
    (kind, id, secret) ← parse_credential credential
    r ← ok_or (Map.get id records) key_not_found
    require (kind_beq r.kind kind) wrong_kind
    require (str_beq (compute_hash c r.salt secret) r.hash) hash_mismatch
    require (is_none r.revoked_at) revoked
    require (not (is_expired r.expires_at now)) expired
    ok r

  unfoldable pub verify :
      KeyStore → Str → Instant → DateTime → Bool → KeyStore × AuthResult Principal
  verify s credential now_instant now saved = elim (authenticate s.records credential now) [
    | err e ↦ (s, err e)
    | ok r ↦ (
      touch_last_used s (id_in (parse_credential credential)) now_instant now saved,
      ok (principal_of r),
    )
  ]

unfoldable pub delete : KeyStore → Str → Bool → KeyStore × StoreResult (Unit {0})
delete s id saved = elim (Map.get id s.records) [
  | none ↦ (s, failed not_found)
  | some r ↦
      if is_last_admin r s.records
      then (s, failed last_active_admin)
      else commit s (Map.remove id s.records) saved tt
]

unfoldable pub has_active_keys : KeyStore → Bool
has_active_keys s = any (λ r. is_none r.revoked_at) (Map.values s.records)

unfoldable pub get_summary : KeyStore → Str → Option KeySummary
get_summary s id = elim (Map.get id s.records) [ none ↦ none | some r ↦ some (to_summary r) ]
