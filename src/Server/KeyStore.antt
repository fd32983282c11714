-- ===== src/Server/KeyStore.antt =====
-- crates/server/src/keystore.rs: the data of the key store. The credential text is in
-- KeyStore/Credential.antt, the operations are in KeyStore/Store.antt.
pub mod Credential
pub mod Store
pub mod Run
pub mod Parse
pub mod Verify
pub mod Issue
pub mod Rotate
pub mod Admin
pub mod Revoked
pub mod Tests
use at_pc.Common.{
  ℕ, Str, Bool, true, false, Option, none, some, List, ◌==◌, str_eq, str_beq, any, if◌then◌else◌,
}
use at_pc.Protocol.{Role}

pub data KeyKind : Type 0 where
  secret_key device_token : KeyKind

abbrev pub kind_beq : KeyKind → KeyKind → Bool
kind_beq secret_key secret_key = true
kind_beq device_token device_token = true
kind_beq _ _ = false

pub record KeyRecord : Type 0 where
  pub id : Str
  pub name : Str
  pub kind : KeyKind
  pub role : Option Role
  pub scopes : List Str
  pub device_id : Option Str
  pub salt : Str
  pub hash : Str
  pub hash_algo : Str
  pub created_at : Str
  pub expires_at : Option Str
  pub revoked_at : Option Str
  pub last_used_at : Option Str

-- The view without salt and hash.
pub record KeySummary : Type 0 where
  pub id : Str
  pub name : Str
  pub kind : KeyKind
  pub role : Option Role
  pub scopes : List Str
  pub device_id : Option Str
  pub hash_algo : Str
  pub created_at : Str
  pub expires_at : Option Str
  pub revoked_at : Option Str
  pub last_used_at : Option Str

unfoldable pub to_summary : KeyRecord → KeySummary
to_summary r = record {
  id = r.id;
  name = r.name;
  kind = r.kind;
  role = r.role;
  scopes = r.scopes;
  device_id = r.device_id;
  hash_algo = r.hash_algo;
  created_at = r.created_at;
  expires_at = r.expires_at;
  revoked_at = r.revoked_at;
  last_used_at = r.last_used_at;
}

pub record Principal : Type 0 where
  pub id : Str
  pub name : Str
  pub kind : KeyKind
  pub role : Option Role
  pub scopes : List Str
  pub device_id : Option Str

unfoldable pub has_scope : Principal → Str → Bool
has_scope p scope = any (λ s. s == scope) p.scopes

unfoldable pub matches_device : Principal → Option Str → Bool
matches_device p client = elim p.device_id [
  | some expected ↦ elim client [ some actual ↦ expected == actual | none ↦ false ]
  | none ↦ true
]

pub data AuthError : Type 0 where
  invalid_format key_not_found hash_mismatch revoked expired wrong_kind missing_scope
        device_mismatch :
      AuthError

pub data AuthResult {ℓ} (A : Type ℓ) : Type ℓ where
  ok : A → AuthResult A
  err : AuthError → AuthResult A

-- `ok_or`
abbrev pub ok_or {ℓ} : {A : Type ℓ} → Option A → AuthError → AuthResult A
ok_or (some found) e = ok found
ok_or none e = err e

infixl 5 ◌>>=◌ ◌>>◌
abbrev pub ◌>>=◌ {ℓ κ} :
    {A : Type ℓ} {B : Type κ} → AuthResult A → (A → AuthResult B) → AuthResult B
err e >>= next = err e
ok value >>= next = next value

-- `if !condition { return Err(e) }`
abbrev pub require : Bool → AuthError → AuthResult (Unit {0})
require condition e = if condition then ok tt else err e

abbrev pub ◌>>◌ {ℓ} : {B : Type ℓ} → AuthResult (Unit {0}) → AuthResult B → AuthResult B
first >> second = first >>= λ _. second
