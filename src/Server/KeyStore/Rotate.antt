-- ===== src/Server/KeyStore/Rotate.antt =====
-- keystore.rs: what `rotate` leaves of the old key and of the new one.
use at_pc.Common.{
  ℕ, zero, suc, ◌+◌, ◌*◌, ◌<◌, ◌≡◌, ◌≢◌, refl, ap, ◌∙◌, Str, Bool, false, leb, Option, none, some,
  arith, str_eq, ◌==◌, ==_iff, ==_self,
}
use at_pc.Map
use at_pc.Map.{Map}
use at_pc.Map.Laws.{get-insert, get-modify}
use at_pc.Time.{from_secs}
use at_pc.Server.KeyStore.{KeyRecord}
use at_pc.Server.KeyStore.Store.{
  after_hours, DateTime, Crates, KeyStore, done, Draws, mint, commit, rotate, retire, is_expired,
}
use at_pc.Server.KeyStore.Run.{mint-Minted}
use at_pc.Server.KeyStore.Issue.{mint-fields}

-- The year 10000, from which on chrono does not read back what it prints.
abbrev pub year_10000 : DateTime
year_10000 = 253_402_300_800_000_000_000

-- chrono reads back the times that it prints, up to the year 9999.
abbrev pub ReadsTimes : Crates → Type 0
ReadsTimes c = (t : DateTime) → t < year_10000 → c.parse_rfc3339 (c.to_rfc3339 t) ≡ some t

-- The hours of grace: 24 if none are given.
abbrev pub grace_of : Option ℕ → ℕ
grace_of none = 24
grace_of (some h) = h

module _ (c : Crates) where
  retire-expires :
      (grace : Option ℕ) (now : DateTime) (old : KeyRecord)
      → grace ≢ some 0
      → now + from_secs (grace_of grace * 3600) < year_10000
      → retire c grace now old
        ≡ record old { expires_at = some (c.to_rfc3339 (now + from_secs (grace_of grace * 3600))) }
  unfolding retire after_hours
  retire-expires none now old h l = refl
  retire-expires (some zero) now old h l = absurd (h refl)
  retire-expires (some (suc n)) now old h l = ground (arith, l)

  is_expired-print :
      (t later : DateTime)
      → ReadsTimes c
      → t < year_10000
      → is_expired c (some (c.to_rfc3339 t)) later ≡ leb t later
  unfolding is_expired
  is_expired-print t later reads l = ground (arith, reads t l)

  module _ (s : KeyStore) (id : Str) (grace : Option ℕ) (d : Draws) (now : DateTime) (saved : Bool)
      (old r : KeyRecord) (key : Str) (there : Map.get id s.records ≡ some old)
      (h : (rotate c s id grace d now saved).1 ≡ done (r, key)) where
    rotate-mint :
        mint c s.records old.name old.kind old.role old.scopes old.device_id none d now
        ≡ done (r, key)
    unfolding rotate commit
    rotate-mint = ground arith

    rotate-records :
        (rotate c s id grace d now saved).0.records
        ≡ Map.modify id (retire c grace now) (Map.insert r.id r s.records)
    unfolding rotate commit
    rotate-records = ground (arith, rotate-mint)

    new_is_other : (r.id == id) ≡ false
    new_is_other =
        let n =
          mint-Minted c s.records old.name old.kind old.role old.scopes old.device_id none d now r
            key rotate-mint in
        ground (arith, ==_iff r.id id, n.absent)

    rotate-old :
        Map.get id (rotate c s id grace d now saved).0.records ≡ some (retire c grace now old)
    rotate-old = rw rotate-records (
        ground (
          arith,
          get-modify id id (retire c grace now) (Map.insert r.id r s.records),
          get-insert r.id id r s.records,
          ==_self id,
          new_is_other,
        ))

    rotate-new : Map.get r.id (rotate c s id grace d now saved).0.records ≡ some r
    rotate-new = rw rotate-records (
        ground (
          arith,
          get-modify id r.id (retire c grace now) (Map.insert r.id r s.records),
          get-insert r.id r.id r s.records,
          ==_self r.id,
          ==_iff id r.id,
          ==_iff r.id id,
          new_is_other,
        ))

  -- A rotation with a grace time (not zero hours) that ends before the year 10000 leaves the old key with all it had but its expiry,
  -- which is now the end of the grace time, be that later or earlier than the one it had; the new key
  -- is there beside it, with the old one's role, and never expires. chrono reads back
  -- what it prints, up to the year 9999.
  pub rotate_grace :
      (s : KeyStore) (id : Str) (grace : Option ℕ) (d : Draws) (now : DateTime) (saved : Bool)
      (old r : KeyRecord) (key : Str) (later : DateTime)
      → ReadsTimes c
      → grace ≢ some 0
      → now + from_secs (grace_of grace * 3600) < year_10000
      → Map.get id s.records ≡ some old
      → (rotate c s id grace d now saved).1 ≡ done (r, key)
      → let s' = (rotate c s id grace d now saved).0 in
        let expiry = some (c.to_rfc3339 (now + from_secs (grace_of grace * 3600))) in
        (Map.get id s'.records ≡ some (record old { expires_at = expiry }))
        × (is_expired c expiry later ≡ leb (now + from_secs (grace_of grace * 3600)) later)
        × (Map.get r.id s'.records ≡ some r)
        × (r.role ≡ old.role)
        × (r.expires_at ≡ none)
  rotate_grace s id grace d now saved old r key later reads g in_range there h =
      let m = rotate-mint s id grace d now saved old r key there h in
      (
        rotate-old s id grace d now saved old r key there h
            ∙ ap (λ (x : KeyRecord). some x) (retire-expires grace now old g in_range),
        is_expired-print (now + from_secs (grace_of grace * 3600)) later reads in_range,
        rotate-new s id grace d now saved old r key there h,
        (mint-Minted c s.records old.name old.kind old.role old.scopes old.device_id none d now r
            key m).same_role,
        (mint-fields c s.records old.name old.kind old.role old.scopes old.device_id none d now r
            key m).1,
      )
