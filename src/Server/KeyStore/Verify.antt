-- ===== src/Server/KeyStore/Verify.antt =====
-- keystore.rs: exactly which credentials `verify` accepts, and that a key that was just issued is one.
use at_pc.Common.{
  ◌≡◌, ◌↔◌, refl, sym, ap, ◌∙◌, Str, Bool, true, false, none, some, arith, str_eq, str_beq-eq,
  str_beq_iff, inl, inr,
}
use at_pc.Map
use at_pc.Map.{Map}
use at_pc.Time.{Instant}
use at_pc.Server.KeyStore.{KeyKind, secret_key, device_token, kind_beq, KeyRecord, Principal, ok}
use at_pc.Server.KeyStore.Credential.{parse_credential}
use at_pc.Server.KeyStore.Store.{
  DateTime, Crates, KeyStore, verify, authenticate, compute_hash, is_expired, principal_of,
}
use at_pc.Server.KeyStore.Run.{AuthResult-cases}

kind_beq-eq : (k j : KeyKind) → kind_beq k j ≡ true → k ≡ j
kind_beq-eq k j h = ground arith

pub kind_beq_self : (k : KeyKind) → kind_beq k k ≡ true
kind_beq_self secret_key = refl
kind_beq_self device_token = refl

-- The credential opens the record: it names it, has its kind and its secret, and the record is
-- neither revoked nor expired.
pub record Opens (c : Crates) (m : Map Str KeyRecord) (credential : Str) (now : DateTime)
    (r : KeyRecord) : Type 0 where
  pub id : Str
  pub secret : Str
  pub parsed : parse_credential credential ≡ ok (r.kind, id, secret)
  pub found : Map.get id m ≡ some r
  pub same_hash : compute_hash c r.salt secret ≡ r.hash
  pub not_revoked : r.revoked_at ≡ none
  pub not_expired : is_expired c r.expires_at now ≡ false

module _ (c : Crates) where
  authenticate_parsed :
      (m : Map Str KeyRecord) (credential : Str) (now : DateTime) (r : KeyRecord)
      → authenticate c m credential now ≡ ok r
      → (p : KeyKind × Str × Str) × (parse_credential credential ≡ ok p)
  unfolding authenticate
  authenticate_parsed m credential now r h = elim (AuthResult-cases (parse_credential credential)) [
    | inl (e, q) ↦ absurd (ground arith)
    | inr (p, q) ↦ (p, q)
  ]

  authenticate-Opens :
      (m : Map Str KeyRecord) (credential : Str) (now : DateTime) (r : KeyRecord)
      → authenticate c m credential now ≡ ok r
      → Opens c m credential now r
  unfolding authenticate compute_hash
  authenticate-Opens m credential now r h =
      let ((kind, id, secret), p) = authenticate_parsed m credential now r h in
      record {
        id = id;
        secret = secret;
        parsed =
            p
            ∙ ap (λ (k : KeyKind). ok (k, id, secret))
                (sym (kind_beq-eq r.kind kind (ground arith)));
        found = ground arith;
        same_hash = str_beq-eq _ _ (ground arith);
        not_revoked = ground arith;
        not_expired = ground arith;
      }

  pub Opens-authenticate :
      (m : Map Str KeyRecord) (credential : Str) (now : DateTime) (r : KeyRecord)
      → Opens c m credential now r
      → authenticate c m credential now ≡ ok r
  unfolding authenticate compute_hash
  Opens-authenticate m credential now r o = ground (
    arith,
    kind_beq_self r.kind,
    o.parsed,
    o.found,
    o.not_revoked,
    o.not_expired,
    (str_beq_iff (compute_hash c r.salt o.secret) r.hash).1 o.same_hash,
  )

  -- `verify` returns a principal exactly if the credential opens a record, and then it is that
  -- record's: the credential is well formed and names it, kind and salted hash agree, and the record is
  -- neither revoked nor expired.
  pub verify_exact :
      (s : KeyStore) (credential : Str) (inst : Instant) (now : DateTime) (saved : Bool)
      (p : Principal)
      → ((verify c s credential inst now saved).1 ≡ ok p)
        ↔ ((r : KeyRecord) × Opens c s.records credential now r × (p ≡ principal_of r))
  unfolding verify
  verify_exact s credential inst now saved p = (accepted, opened)
    where
      accepted :
          (verify c s credential inst now saved).1 ≡ ok p
          → (r : KeyRecord) × Opens c s.records credential now r × (p ≡ principal_of r)
      accepted h = elim (AuthResult-cases (authenticate c s.records credential now)) [
        | inl (e, q) ↦ absurd (ground arith)
        | inr (r, q) ↦ (r, authenticate-Opens s.records credential now r q, ground arith)
      ]

      opened :
          ((r : KeyRecord) × Opens c s.records credential now r × (p ≡ principal_of r))
          → (verify c s credential inst now saved).1 ≡ ok p
      opened (r, o, e) =
          rw (Opens-authenticate s.records credential now r o, verify) (ap ok (sym e))
