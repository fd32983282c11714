-- ===== src/Server/KeyStore/Tests.antt =====
-- The key store run with small stand-ins for the crates: a hash that is the identity, times that
-- print as one number.
use at_pc.Common.{
  ℕ, ◌≡◌, ◌↔◌, refl, Str, ascii, length, true, false, none, some, Option, List, [], ◌∷◌, ◌++◌,
  arith, str_eq, str_beq, count, strip_prefix, split_once, any, leb, ◌+◌, ◌*◌,
}
use at_pc.Map
use at_pc.Time.{from_secs}
use at_pc.Protocol.{admin, role_beq}
use at_pc.Server.KeyStore.{secret_key, device_token, KeyRecord, AuthError, ok, err}
use at_pc.Server.KeyStore.Credential.{
  parse_credential, format_credential, is_id, is_secret, crockford_base32_id, hex_encode,
  is_crockford, is_secret_byte, id_word, id_index,
}
use at_pc.Server.KeyStore.Store.{
  Crates, KeyStore, Draws, DateTime, done, failed, issue, revoke, rotate, verify, is_expired, mint,
  fresh_id, commit, is_last_admin, is_active_admin, compute_hash, principal_of, last_active_admin,
}
use at_pc.Server.KeyStore.Run.{Op, revokes, rotates, deletes, run}
use at_pc.Server.KeyStore.Parse.{parse-eq-format, crockford-is_id}
use at_pc.Server.KeyStore.Verify.{Opens, verify_exact}
use at_pc.Server.KeyStore.Issue.{issue-verify}
use at_pc.Server.KeyStore.Rotate.{rotate_grace, grace_of}
use at_pc.Server.KeyStore.Admin.{Guarded, run-Guarded}
use at_pc.Server.KeyStore.Revoked.{revoked_for_good}

abbrev secret_a : Str
secret_a = ascii "AAAAAAAAAAAAAAAAAAAAAAAAAAAAAAAAAAAAAAAAAAA"

abbrev read_time : Str → Option DateTime
read_time [] = none
read_time (t ∷ ts) = some t

abbrev toy : Crates
toy = record {
  sha256 = λ bytes. bytes;
  base64url = λ bytes. secret_a;
  to_rfc3339 = λ t. t ∷ [];
  parse_rfc3339 = read_time;
}

abbrev id_a : Str
id_a = ascii "0123456z"

parse-eq-format_example :
    (ascii "atpc_dv_0123456z_AAAAAAAAAAAAAAAAAAAAAAAAAAAAAAAAAAAAAAAAAAA"
      ≡ format_credential device_token id_a secret_a)
    × (is_id id_a ≡ true)
    × (is_secret secret_a ≡ true)
unfolding parse_credential strip_prefix split_once str_beq is_crockford is_secret_byte any
parse-eq-format_example =
    parse-eq-format (ascii "atpc_dv_0123456z_AAAAAAAAAAAAAAAAAAAAAAAAAAAAAAAAAAAAAAAAAAA")
      device_token id_a secret_a refl

crockford-is_id_example : is_id (crockford_base32_id 1 2 3 4 5) ≡ true
crockford-is_id_example = crockford-is_id 1 2 3 4 5

-- An admin key, and a store that holds it alone.
abbrev root : KeyRecord
root = record {
  id = id_a;
  name = ascii "root";
  kind = secret_key;
  role = some admin;
  scopes = [];
  device_id = none;
  salt = ascii "ab";
  hash = hex_encode (ascii "ab" ++ secret_a);
  hash_algo = ascii "sha256-salt-v1";
  created_at = 1 ∷ [];
  expires_at = none;
  revoked_at = none;
  last_used_at = none;
}

abbrev root_key : Str
root_key = format_credential secret_key id_a secret_a

abbrev store : KeyStore
store = record { records = (id_a, root) ∷ []; disk = (id_a, root) ∷ []; last_persisted_used = [] }

verify_exact_example : ((verify toy store root_key 0 5 true).1 ≡ ok (principal_of root)) ↔ (
    (r : KeyRecord) × Opens toy store.records root_key 5 r × (principal_of root ≡ principal_of r))
verify_exact_example = verify_exact toy store root_key 0 5 true (principal_of root)

abbrev bytes32 : List ℕ
bytes32 =
    0 ∷ 1 ∷ 2 ∷ 3 ∷ 4 ∷ 5 ∷ 6 ∷ 7 ∷ 8 ∷ 9 ∷ 10 ∷ 11 ∷ 12 ∷ 13 ∷ 14 ∷ 15 ∷ 16 ∷ 17 ∷ 18 ∷ 19 ∷ 20
    ∷ 21 ∷ 22 ∷ 23 ∷ 24 ∷ 25 ∷ 26 ∷ 27 ∷ 28 ∷ 29 ∷ 30 ∷ 31 ∷ []

abbrev draws : Draws
draws = record { ids = some (0, 0, 1, 2, 3) ∷ []; secret = some bytes32; salt = some (1 ∷ 2 ∷ []) }

-- The key that these draws make.
abbrev made : KeyRecord
made = record {
  id = crockford_base32_id 0 0 1 2 3;
  name = ascii "n";
  kind = secret_key;
  role = none;
  scopes = [];
  device_id = none;
  salt = hex_encode (1 ∷ 2 ∷ []);
  hash = compute_hash toy (hex_encode (1 ∷ 2 ∷ [])) secret_a;
  hash_algo = ascii "sha256-salt-v1";
  created_at = 9 ∷ [];
  expires_at = none;
  revoked_at = none;
  last_used_at = none;
}

abbrev made_key : Str
made_key = format_credential secret_key (crockford_base32_id 0 0 1 2 3) secret_a

toy_encodes : (bytes : List ℕ) → length bytes ≡ 32 → is_secret (toy.base64url bytes) ≡ true
unfolding is_secret is_secret_byte
toy_encodes bytes h = refl

issue_run :
    (issue toy store (ascii "n") secret_key none [] none none draws 9 true).1
    ≡ done (made, made_key)
unfolding issue mint fresh_id commit Map.contains_key Map.get str_beq crockford_base32_id id_word
    id_index
issue_run = refl

issue-verify_example :
    (verify toy
      (issue toy store (ascii "n") secret_key none [] none none draws 9 true).0
      made_key
      0
      10
      true).1
    ≡ ok (record {
      id = crockford_base32_id 0 0 1 2 3;
      name = ascii "n";
      kind = secret_key;
      role = none;
      scopes = [];
      device_id = none;
    })
unfolding is_expired
issue-verify_example =
    issue-verify toy store (ascii "n") secret_key none [] none none draws 9 true bytes32 made
      made_key 0 10 true toy_encodes refl refl issue_run refl

abbrev rotated : KeyRecord
rotated = record made { name = ascii "root"; role = some admin }

rotate_run : (rotate toy store id_a (some 2) draws 9 true).1 ≡ done (rotated, made_key)
unfolding rotate mint fresh_id commit Map.contains_key Map.get str_beq crockford_base32_id id_word
    id_index
rotate_run = refl

rotate_grace_example :
    let s' = (rotate toy store id_a (some 2) draws 9 true).0 in
    let expiry = some (toy.to_rfc3339 (9 + from_secs (grace_of (some 2) * 3600))) in
    (Map.get id_a s'.records ≡ some (record root { expires_at = expiry }))
    × (is_expired toy expiry 10 ≡ leb (9 + from_secs (grace_of (some 2) * 3600)) 10)
    × (Map.get rotated.id s'.records ≡ some rotated)
    × (rotated.role ≡ root.role)
    × (rotated.expires_at ≡ none)
unfolding Map.get str_beq
rotate_grace_example =
    rotate_grace toy store id_a (some 2) draws 9 true root rotated made_key 10 (λ t l. refl)
      (λ e. cc e) (omega arith) refl rotate_run

store-Guarded : Guarded store.records
unfolding Map.get count is_active_admin Map.values role_beq
store-Guarded = record { distinct = (refl, tt); some_admin = omega arith }

abbrev attempts : List Op
attempts = revokes id_a 5 true ∷ rotates id_a (some 0) draws 9 false ∷ deletes id_a true ∷ []

run-Guarded_example : Guarded (run toy store attempts).records
run-Guarded_example = run-Guarded toy store attempts store-Guarded

last_admin_stays : (revoke toy store id_a 5 true).1 ≡ failed last_active_admin
unfolding revoke Map.get str_beq is_last_admin is_active_admin role_beq count Map.values
last_admin_stays = refl

abbrev later_ops : List Op
later_ops = rotates (ascii "bbbbbbbb") none draws 7 true ∷ deletes id_a true ∷ []

abbrev key_b : Str
key_b = format_credential device_token (ascii "bbbbbbbb") secret_a

-- A store whose other key, a device token, can be revoked.
abbrev two_b : KeyStore
two_b = record store {
  records = (ascii "bbbbbbbb", record root { kind = device_token; role = none }) ∷ store.records;
}

revoke_run : (revoke toy two_b (ascii "bbbbbbbb") 5 true).1 ≡ done tt
unfolding revoke Map.get str_beq is_last_admin is_active_admin role_beq count Map.values commit
revoke_run = refl

key_b_parsed : parse_credential key_b ≡ ok (device_token, ascii "bbbbbbbb", secret_a)
unfolding parse_credential strip_prefix split_once str_beq is_crockford is_secret_byte any
    format_credential
key_b_parsed = refl

revoked_for_good_example :
    let s' = run toy (revoke toy two_b (ascii "bbbbbbbb") 5 true).0 later_ops in
    (e : AuthError) × (verify toy s' key_b 0 9 true ≡ (s', err e))
revoked_for_good_example =
    revoked_for_good toy two_b (ascii "bbbbbbbb") 5 true later_ops key_b device_token secret_a 0 9
      true revoke_run (tt, ((λ e. cc e), tt)) key_b_parsed
