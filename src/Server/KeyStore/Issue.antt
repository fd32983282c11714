-- ===== src/Server/KeyStore/Issue.antt =====
-- keystore.rs: a key that was just issued opens its record.
use at_pc.Common.{
  ℕ, ◌≡◌, ap, sym, ◌∙◌, Str, Bool, true, false, Option, none, some, List, [], ◌∷◌, arith, str_eq,
  length,
}
use at_pc.Map
use at_pc.Map.{Map}
use at_pc.Map.Laws.{get-insert_self}
use at_pc.Time.{Instant}
use at_pc.Protocol.{Role}
use at_pc.Server.KeyStore.{KeyKind, KeyRecord, ok}
use at_pc.Server.KeyStore.Credential.{parse_credential, format_credential, is_id, is_secret}
use at_pc.Server.KeyStore.Parse.{parse-format, crockford-is_id}
use at_pc.Server.KeyStore.Store.{
  DateTime, Crates, KeyStore, done, Draws, Bytes5, fresh_id, mint, commit, issue, verify,
  compute_hash, is_expired, principal_of,
}
use at_pc.Server.KeyStore.Verify.{verify_exact}

fresh_id-is_id :
    (m : Map Str KeyRecord) (ds : List (Option Bytes5)) (id : Str)
    → fresh_id m ds ≡ done id
    → is_id id ≡ true
unfolding fresh_id
fresh_id-is_id m [] id h = cc
fresh_id-is_id m (none ∷ ds) id h = cc
fresh_id-is_id m (some (b0, b1, b2, b3, b4) ∷ ds) id h =
    ground (arith, fresh_id-is_id m ds id, crockford-is_id b0 b1 b2 b3 b4)

-- What base64url promises: 32 bytes become 43 characters of its alphabet.
abbrev pub EncodesSecrets : Crates → Type 0
EncodesSecrets c = (bytes : List ℕ) → length bytes ≡ 32 → is_secret (c.base64url bytes) ≡ true

module _ (c : Crates) where
  module _ (m : Map Str KeyRecord) (name : Str) (kind : KeyKind) (role : Option Role)
      (scopes : List Str) (device expires : Option Str) (d : Draws) (now : DateTime) (r : KeyRecord)
      (key : Str) (h : mint c m name kind role scopes device expires d now ≡ done (r, key)) where
    mint-is_id : is_id r.id ≡ true
    unfolding mint
    mint-is_id = ground (arith, fresh_id-is_id m d.ids r.id)

    pub mint-fields :
        (principal_of r ≡ record {
          id = r.id;
          name = name;
          kind = kind;
          role = role;
          scopes = scopes;
          device_id = device;
        })
        × (r.expires_at ≡ expires)
        × (r.revoked_at ≡ none)
    unfolding mint
    mint-fields = ground arith

    mint-secret :
        (bytes : List ℕ)
        → d.secret ≡ some bytes
        → (key ≡ format_credential r.kind r.id (c.base64url bytes))
          × (compute_hash c r.salt (c.base64url bytes) ≡ r.hash)
    unfolding mint
    mint-secret bytes e = ground arith

  module _ (s : KeyStore) (name : Str) (kind : KeyKind) (role : Option Role) (scopes : List Str)
      (device expires : Option Str) (d : Draws) (now : DateTime) (saved : Bool) (r : KeyRecord)
      (key : Str)
      (h : (issue c s name kind role scopes device expires d now saved).1 ≡ done (r, key)) where
    issue-mint : mint c s.records name kind role scopes device expires d now ≡ done (r, key)
    unfolding issue commit
    issue-mint = ground arith

    issue-records :
        (issue c s name kind role scopes device expires d now saved).0.records
        ≡ Map.insert r.id r s.records
    unfolding issue commit
    issue-records = ground arith

  -- The plaintext that `issue` returns is accepted by `verify` as the principal that was asked for, at
  -- every later time at which the key has not expired. base64url encodes 32 bytes as 43 characters of
  -- its alphabet.
  pub issue-verify :
      (s : KeyStore) (name : Str) (kind : KeyKind) (role : Option Role) (scopes : List Str)
      (device expires : Option Str) (d : Draws) (now : DateTime) (saved : Bool) (bytes : List ℕ)
      (r : KeyRecord) (key : Str) (inst : Instant) (later : DateTime) (saved' : Bool)
      → EncodesSecrets c
      → d.secret ≡ some bytes
      → length bytes ≡ 32
      → (issue c s name kind role scopes device expires d now saved).1 ≡ done (r, key)
      → is_expired c expires later ≡ false
      → (verify c
          (issue c s name kind role scopes device expires d now saved).0
          key
          inst
          later
          saved').1
        ≡ ok (record {
          id = r.id;
          name = name;
          kind = kind;
          role = role;
          scopes = scopes;
          device_id = device;
        })
  issue-verify s name kind role scopes device expires d now saved bytes r key inst later saved' b64
        draw len h fresh =
      let m = issue-mint s name kind role scopes device expires d now saved r key h in
      let (p, e, u) = mint-fields s.records name kind role scopes device expires d now r key m in
      let (k, q) =
        mint-secret s.records name kind role scopes device expires d now r key m bytes draw in
      let i = mint-is_id s.records name kind role scopes device expires d now r key m in
      (verify_exact c _ key inst later saved' _).1 (
        r,
        record {
          id = r.id;
          secret = c.base64url bytes;
          parsed =
              ap parse_credential k
              ∙ parse-format r.kind r.id (c.base64url bytes) i (b64 bytes len);
          found =
              ap (λ (t : Map Str KeyRecord). Map.get r.id t)
                (issue-records s name kind role scopes device expires d now saved r key h)
              ∙ get-insert_self r.id r s.records;
          same_hash = q;
          not_revoked = u;
          not_expired = ap (λ (x : Option Str). is_expired c x later) e ∙ fresh;
        },
        sym p,
      )
