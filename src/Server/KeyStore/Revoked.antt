-- ===== src/Server/KeyStore/Revoked.antt =====
-- keystore.rs: a revoked key stays revoked, and opens nothing, until its record is deleted.
use at_pc.Common.{
  ℕ, ◌≡◌, ◌≢◌, refl, Str, Bool, true, false, not, Option, none, some, List, [], ◌∷◌, arith, str_eq,
  ==_iff, ==_ne, ==_self, inl, inr, All, Option-cases,
}
use at_pc.Map
use at_pc.Map.{Map}
use at_pc.Map.Laws.{get-insert, get-modify, get-remove}
use at_pc.Time.{Instant}
use at_pc.Protocol.{Role}
use at_pc.Server.KeyStore.{KeyKind, KeyRecord, AuthError, ok, err}
use at_pc.Server.KeyStore.Credential.{parse_credential}
use at_pc.Server.KeyStore.Store.{
  DateTime, Crates, KeyStore, done, Draws, mint, commit, is_none, issue, revoke, retire, rotate,
  touch_last_used, verify, delete, authenticate, id_in,
}
use at_pc.Server.KeyStore.Run.{
  AuthResult-cases, StoreResult-cases, Op, issues, revokes, rotates, deletes, verifies, step, run,
  records-commit, mint-Minted,
}

-- The record is there, and it is revoked.
abbrev pub is_revoked : Option KeyRecord → Bool
is_revoked none = false
is_revoked (some r) = not (is_none r.revoked_at)

abbrev pub Revoked : Map Str KeyRecord → Str → Type 0
Revoked m id = is_revoked (Map.get id m) ≡ true

insert-Revoked :
    (m : Map Str KeyRecord) (id : Str) (r : KeyRecord)
    → Map.get r.id m ≡ none
    → Revoked m id
    → Revoked (Map.insert r.id r m) id
insert-Revoked m id r a h = ground (arith, get-insert r.id id r m, ==_iff r.id id)

modify-Revoked :
    (m : Map Str KeyRecord) (id j : Str) (f : KeyRecord → KeyRecord)
    → ((r : KeyRecord) → is_none r.revoked_at ≡ false → is_none (f r).revoked_at ≡ false)
    → Revoked m id
    → Revoked (Map.modify j f m) id
modify-Revoked m id j f keeps h = elim (Option-cases (Map.get id m)) [
  | inl e ↦ ground arith
  | inr (r, e) ↦ ground (arith, get-modify j id f m, keeps r)
]

remove-Revoked :
    (m : Map Str KeyRecord) (id j : Str) → j ≢ id → Revoked m id → Revoked (Map.remove j m) id
remove-Revoked m id j ne h = ground (arith, get-remove j id m, ==_ne j id ne)

-- Every operation but the deletion of this key.
abbrev pub Spares : Str → Op → Type 0
Spares id (deletes j saved) = j ≢ id
Spares id (issues name kind role scopes device expires d now saved) = Unit
Spares id (revokes j now saved) = Unit
Spares id (rotates j grace d now saved) = Unit
Spares id (verifies credential inst now saved) = Unit

module _ (c : Crates) where
  retire_keeps :
      (grace : Option ℕ) (now : DateTime) (r : KeyRecord)
      → is_none r.revoked_at ≡ false
      → is_none (retire c grace now r).revoked_at ≡ false
  unfolding retire
  retire_keeps none now r h = h
  retire_keeps (some h') now r h = ground arith

  issue_keeps :
      (s : KeyStore) (name : Str) (kind : KeyKind) (role : Option Role) (scopes : List Str)
      (device expires : Option Str) (d : Draws) (now : DateTime) (saved : Bool) (id : Str)
      → Revoked s.records id
      → Revoked (issue c s name kind role scopes device expires d now saved).0.records id
  unfolding issue
  issue_keeps s name kind role scopes device expires d now saved id h =
      elim (StoreResult-cases (mint c s.records name kind role scopes device expires d now)) [
        | inl (e, q) ↦ rw (q, issue) h
        | inr ((r, key), q) ↦
            rw (q, issue, records-commit s)
              (insert-Revoked s.records id r
                (mint-Minted c s.records name kind role scopes device expires d now r key q).absent
                h)
      ]

  rotate_keeps :
      (s : KeyStore) (j : Str) (grace : Option ℕ) (d : Draws) (now : DateTime) (saved : Bool)
      (id : Str)
      → Revoked s.records id
      → Revoked (rotate c s j grace d now saved).0.records id
  unfolding rotate
  rotate_keeps s j grace d now saved id h = elim (Option-cases (Map.get j s.records)) [
    | inl q ↦ rw (q, rotate) h
    | inr (old, q) ↦
        elim (StoreResult-cases
          (mint c s.records old.name old.kind old.role old.scopes old.device_id none d now)) [
            | inl (e, p) ↦ rw (q, rotate, p) h
            | inr ((r, key), p) ↦
                let n =
                  mint-Minted c s.records old.name old.kind old.role old.scopes old.device_id none d
                    now r key p in
                rw (q, rotate, p, records-commit s)
                  (modify-Revoked _ id j (retire c grace now) (retire_keeps grace now)
                    (insert-Revoked s.records id r n.absent h))
          ]
  ]

  step-Revoked :
      (s : KeyStore) (o : Op) (id : Str)
      → Spares id o
      → Revoked s.records id
      → Revoked (step c s o).records id
  unfolding step revoke delete verify touch_last_used
  step-Revoked s (issues name kind role scopes device expires d now saved) id u h =
      issue_keeps s name kind role scopes device expires d now saved id h
  step-Revoked s (revokes j now saved) id u h = ground (
    arith,
    records-commit {A = Unit {0}} s
        (Map.modify j (λ r. record r { revoked_at = some (c.to_rfc3339 now) }) s.records) saved tt,
    modify-Revoked s.records id j (λ r. record r { revoked_at = some (c.to_rfc3339 now) })
        (λ r p. refl) h,
  )
  step-Revoked s (rotates j grace d now saved) id u h = rotate_keeps s j grace d now saved id h
  step-Revoked s (deletes j saved) id u h = ground (
    arith,
    records-commit {A = Unit {0}} s (Map.remove j s.records) saved tt,
    remove-Revoked s.records id j u h,
  )
  step-Revoked s (verifies credential inst now saved) id u h = ground (
    arith,
    modify-Revoked s.records id (id_in (parse_credential credential))
        (λ r. record r { last_used_at = some (c.to_rfc3339 now) }) (λ r p. p) h,
  )

  pub run-Revoked :
      (s : KeyStore) (os : List Op) (id : Str)
      → All (Spares id) os
      → Revoked s.records id
      → Revoked (run c s os).records id
  unfolding run
  run-Revoked s [] id u h = h
  run-Revoked s (o ∷ os) id u h = run-Revoked (step c s o) os id u.1 (step-Revoked s o id u.0 h)

  pub revoke-Revoked :
      (s : KeyStore) (id : Str) (now : DateTime) (saved : Bool)
      → (revoke c s id now saved).1 ≡ done tt
      → Revoked (revoke c s id now saved).0.records id
  unfolding revoke commit
  revoke-Revoked s id now saved h = ground (
    arith,
    get-modify id id (λ r. record r { revoked_at = some (c.to_rfc3339 now) }) s.records,
    ==_self id,
  )

  opens_nothing :
      (m : Map Str KeyRecord) (credential : Str) (now : DateTime) (k : KeyKind) (id secret : Str)
      (r : KeyRecord)
      → parse_credential credential ≡ ok (k, id, secret)
      → Revoked m id
      → ¬ (authenticate c m credential now ≡ ok r)
  unfolding authenticate
  opens_nothing m credential now k id secret r p h q = ground arith

  verify-Revoked :
      (s : KeyStore) (credential : Str) (inst : Instant) (now : DateTime) (saved : Bool)
      (k : KeyKind) (id secret : Str)
      → parse_credential credential ≡ ok (k, id, secret)
      → Revoked s.records id
      → (e : AuthError) × (verify c s credential inst now saved ≡ (s, err e))
  unfolding verify
  verify-Revoked s credential inst now saved k id secret p h =
      elim (AuthResult-cases (authenticate c s.records credential now)) [
        | inl (e, q) ↦ (e, rw (q, verify))
        | inr (r, q) ↦ absurd (opens_nothing s.records credential now k id secret r p h q)
      ]

  -- After `revoke` returned `Ok` for a key, and whatever other operations ran since, a credential with
  -- that key's id is refused and changes nothing, whatever its kind and its secret, until the record is
  -- deleted. Rotating the key does not bring it back.
  pub revoked_for_good :
      (s : KeyStore) (id : Str) (at : DateTime) (saved : Bool) (os : List Op) (credential : Str)
      (k : KeyKind) (secret : Str) (inst : Instant) (now : DateTime) (saved' : Bool)
      → (revoke c s id at saved).1 ≡ done tt
      → All (Spares id) os
      → parse_credential credential ≡ ok (k, id, secret)
      → let s' = run c (revoke c s id at saved).0 os in
        (e : AuthError) × (verify c s' credential inst now saved' ≡ (s', err e))
  revoked_for_good s id at saved os credential k secret inst now saved' h u p =
      verify-Revoked _ credential inst now saved' k id secret p
        (run-Revoked _ os id u (revoke-Revoked s id at saved h))
