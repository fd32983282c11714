-- ===== src/Server/KeyStore/Run.antt =====
-- keystore.rs: sequences of operations on one store, and what each leaves of the records.
use at_pc.Common.{
  ℕ, ◌≡◌, refl, Str, Bool, true, false, Option, none, some, List, [], ◌∷◌, arith, str_eq, ◌⊎◌, inl,
  inr,
}
use at_pc.Map
use at_pc.Map.{Map}
use at_pc.Time.{Instant}
use at_pc.Protocol.{Role}
use at_pc.Server.KeyStore.{KeyKind, KeyRecord, AuthResult, AuthError, ok, err}
use at_pc.Server.KeyStore.Store.{
  DateTime, Crates, KeyStore, StoreError, StoreResult, done, failed, Draws, Bytes5, fresh_id, mint,
  commit, issue, revoke, rotate, delete, verify,
}

pub data Op : Type 0 where
  issues :
      Str
      → KeyKind
      → Option Role
      → List Str
      → Option Str
      → Option Str
      → Draws
      → DateTime
      → Bool
      → Op
  revokes : Str → DateTime → Bool → Op
  rotates : Str → Option ℕ → Draws → DateTime → Bool → Op
  deletes : Str → Bool → Op
  verifies : Str → Instant → DateTime → Bool → Op

module _ (c : Crates) where
  unfoldable pub step : KeyStore → Op → KeyStore
  step s (issues name kind role scopes device expires d now saved) =
      (issue c s name kind role scopes device expires d now saved).0
  step s (revokes id now saved) = (revoke c s id now saved).0
  step s (rotates id grace d now saved) = (rotate c s id grace d now saved).0
  step s (deletes id saved) = (delete s id saved).0
  step s (verifies credential inst now saved) = (verify c s credential inst now saved).0

  unfoldable pub run : KeyStore → List Op → KeyStore
  run s [] = s
  run s (o ∷ os) = run (step s o) os

pub StoreResult-cases {ℓ} :
    {A : Type ℓ} (r : StoreResult A)
    → ((e : StoreError) × (r ≡ failed e)) ⊎ ((a : A) × (r ≡ done a))
StoreResult-cases (failed e) = inl (e, refl)
StoreResult-cases (done a) = inr (a, refl)

pub AuthResult-cases {ℓ} :
    {A : Type ℓ} (r : AuthResult A) → ((e : AuthError) × (r ≡ err e)) ⊎ ((a : A) × (r ≡ ok a))
AuthResult-cases (err e) = inl (e, refl)
AuthResult-cases (ok a) = inr (a, refl)

pub records-commit {ℓ} :
    {A : Type ℓ} (s : KeyStore) (m : Map Str KeyRecord) (saved : Bool) (a : A)
    → (commit s m saved a).0.records ≡ m
unfolding commit
records-commit s m true a = refl
records-commit s m false a = refl

-- A drawn id is not in use.
pub fresh_id-absent :
    (m : Map Str KeyRecord) (ds : List (Option Bytes5)) (id : Str)
    → fresh_id m ds ≡ done id
    → Map.get id m ≡ none
unfolding fresh_id Map.contains_key
fresh_id-absent m [] id h = cc
fresh_id-absent m (none ∷ ds) id h = cc
fresh_id-absent m (some b ∷ ds) id h = ground (arith, fresh_id-absent m ds id)

-- What a minted record is.
pub record Minted (m : Map Str KeyRecord) (kind : KeyKind) (role : Option Role) (r : KeyRecord)
    : Type 0 where
  pub absent : Map.get r.id m ≡ none
  pub same_kind : r.kind ≡ kind
  pub same_role : r.role ≡ role
  pub not_revoked : r.revoked_at ≡ none

pub mint-Minted :
    (c : Crates) (m : Map Str KeyRecord) (name : Str) (kind : KeyKind) (role : Option Role)
    (scopes : List Str) (device expires : Option Str) (d : Draws) (now : DateTime) (r : KeyRecord)
    (key : Str)
    → mint c m name kind role scopes device expires d now ≡ done (r, key)
    → Minted m kind role r
unfolding mint
mint-Minted c m name kind role scopes device expires d now r key h =
    ground (arith, fresh_id-absent m d.ids r.id)
