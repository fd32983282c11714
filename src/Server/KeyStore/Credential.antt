-- ===== src/Server/KeyStore/Credential.antt =====
-- keystore.rs: the text of a credential, `atpc_<kind>_<id>_<secret>`, its parser, and the encodings
-- of the random bytes. Texts are lists of bytes; SHA-256 and base64url are parameters where used.
use at_pc.Common.{
  ℕ, ◌+◌, ◌-◌, ◌*◌, ◌/◌, ◌%◌, ◌^◌, Str, ascii, strip_prefix, split_once, Bool, true, ◌&&◌, ◌||◌,
  List, [], ◌∷◌, ◌++◌, leb, nat_beq, ◌==◌, str_eq, nat_eq, length, if◌then◌else◌, get_or, any,
}
use at_pc.Server.KeyStore.{
  KeyKind, secret_key, device_token, AuthResult, ok, err, invalid_format, ◌>>=◌, ◌>>◌, ok_or,
  require,
}

abbrev pub key_prefix : Str
key_prefix = ascii "atpc_"

abbrev pub key_id_len : ℕ
key_id_len = 8

abbrev pub key_secret_len : ℕ
key_secret_len = 43

abbrev pub crockford32 : Str
crockford32 = ascii "0123456789abcdefghjkmnpqrstvwxyz"

abbrev pub kind_str : KeyKind → Str
kind_str secret_key = ascii "sk"
kind_str device_token = ascii "dv"

unfoldable pub kind_from_str : Str → AuthResult KeyKind
kind_from_str s =
    if s == ascii "sk"
    then ok secret_key
    else if s == ascii "dv"
    then ok device_token
    else err invalid_format

abbrev pub all_bytes : (ℕ → Bool) → Str → Bool
all_bytes p [] = true
all_bytes p (c ∷ s) = p c && all_bytes p s

-- `CROCKFORD32.contains(&b)`
unfoldable pub is_crockford : ℕ → Bool
is_crockford b = any (λ c. nat_beq c b) crockford32

-- `b.is_ascii_alphanumeric() || b == b'-' || b == b'_'`
unfoldable pub is_secret_byte : ℕ → Bool
is_secret_byte b =
    (leb b'0' b && leb b b'9')
    || (leb b'A' b && leb b b'Z')
    || (leb b'a' b && leb b b'z')
    || nat_beq b b'-'
    || nat_beq b b'_'

unfoldable pub is_id : Str → Bool
is_id id = nat_beq (length id) key_id_len && all_bytes is_crockford id

unfoldable pub is_secret : Str → Bool
is_secret s = nat_beq (length s) key_secret_len && all_bytes is_secret_byte s

unfoldable pub parse_credential : Str → AuthResult (KeyKind × Str × Str)
unfolding kind_from_str
parse_credential cred = do
  rest ← ok_or (strip_prefix key_prefix cred) invalid_format
  (kind_text, rest') ← ok_or (split_once b'_' rest) invalid_format
  kind ← kind_from_str kind_text
  (id, secret) ← ok_or (split_once b'_' rest') invalid_format
  require (nat_beq (length id) key_id_len && nat_beq (length secret) key_secret_len) invalid_format
  require (all_bytes is_crockford id) invalid_format
  require (all_bytes is_secret_byte secret) invalid_format
  ok (kind, id, secret)

-- `format!("atpc_{}_{}_{}", kind, id, secret)`
unfoldable pub format_credential : KeyKind → Str → Str → Str
format_credential kind id secret = key_prefix ++ (kind_str kind ++ (b'_' ∷ (id ++ (b'_' ∷ secret))))

-- `u64::from_be_bytes([0, b0, b1, b2, b3, b4, 0, 0])`
unfoldable pub id_word : ℕ → ℕ → ℕ → ℕ → ℕ → ℕ
id_word b0 b1 b2 b3 b4 = b0 * 2 ^ 48 + b1 * 2 ^ 40 + b2 * 2 ^ 32 + b3 * 2 ^ 24 + b4 * 2 ^ 16

-- `(acc >> (35 - i * 5)) & 0x1f`
unfoldable pub id_index : ℕ → ℕ → ℕ
id_index acc i = acc / 2 ^ (35 - i * 5) % 32

abbrev pub id_char : ℕ → ℕ → ℕ
id_char acc i = get_or crockford32 (id_index acc i) 0

unfoldable pub crockford_base32_id : ℕ → ℕ → ℕ → ℕ → ℕ → Str
crockford_base32_id b0 b1 b2 b3 b4 =
    let acc = id_word b0 b1 b2 b3 b4 in
    id_char acc 0
    ∷ id_char acc 1
    ∷ id_char acc 2
    ∷ id_char acc 3
    ∷ id_char acc 4
    ∷ id_char acc 5
    ∷ id_char acc 6
    ∷ id_char acc 7
    ∷ []

abbrev pub hex_digit : ℕ → ℕ
hex_digit n = if leb n 9 then 48 + n else 87 + n

-- Two lowercase digits for each byte.
unfoldable pub hex_encode : List ℕ → Str
hex_encode [] = []
hex_encode (b ∷ bs) = hex_digit (b / 16) ∷ hex_digit (b % 16) ∷ hex_encode bs
