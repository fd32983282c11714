-- ===== src/Server/Gateway/Credential.antt =====
-- mcp/mod.rs: `extract_credential`, `percent_decode`. The headers are given as `HeaderMap::get` and
-- `to_str` return them, which is ASCII.
pub mod Query
use at_pc.Common.{
  ℕ, suc, ◌+◌, ◌-◌, ◌*◌, Str, ascii, Bool, true, false, not, ◌&&◌, ◌||◌, Option, none, some, List,
  [], ◌∷◌, leb, ltb, nat_beq, length, take, drop, get_or, trim, is_empty, eq_ignore_ascii_case,
  split_once, split, bytes, from_utf8, if◌then◌else◌,
}

pub data CredentialSource : Type 0 where
  header cookie query : CredentialSource

-- `u8::is_ascii_whitespace`
abbrev is_ascii_whitespace : ℕ → Bool
is_ascii_whitespace c =
    nat_beq c 0x20 || nat_beq c 0x09 || nat_beq c 0x0a || nat_beq c 0x0c || nat_beq c 0x0d

abbrev pub hex_digit : ℕ → Option ℕ
hex_digit c =
    if leb b'0' c && leb c b'9'
    then some (c - b'0')
    else if leb b'a' c && leb c b'f'
    then some (c - b'a' + 10)
    else if leb b'A' c && leb c b'F'
    then some (c - b'A' + 10)
    else none

abbrev pub high_low : Option ℕ → Option ℕ → Option ℕ
high_low none low = none
high_low (some h) none = none
high_low (some h) (some l) = some (h * 16 + l)

-- `u8::from_str_radix(hex_str, 16)` of two characters; a sign `+` may stand first.
pub from_hex : ℕ → ℕ → Option ℕ
from_hex h l = if nat_beq h b'+' then hex_digit l else high_low (hex_digit h) (hex_digit l)

abbrev pub cons_byte : Option ℕ → Option (List ℕ) → Option (List ℕ)
cons_byte none rest = none
cons_byte (some b) none = none
cons_byte (some b) (some bs) = some (b ∷ bs)

-- How far the loop of `percent_decode` is in an escape.
pub data Escape : Type 0 where
  outside percent : Escape
  one_digit : ℕ → Escape

-- The loop of `percent_decode`.
pub decode_bytes : Escape → List ℕ → Option (List ℕ)
unfolding from_hex
decode_bytes outside [] = some []
decode_bytes percent [] = none
decode_bytes (one_digit h) [] = none
decode_bytes outside (b ∷ bs) =
    let rest = decode_bytes (if nat_beq b b'%' then percent else outside) bs in
    if nat_beq b b'%' then rest else cons_byte (some (if nat_beq b b'+' then b' ' else b)) rest
decode_bytes percent (b ∷ bs) = decode_bytes (one_digit b) bs
decode_bytes (one_digit h) (b ∷ bs) = cons_byte (from_hex h b) (decode_bytes outside bs)

abbrev text_of : Option (List ℕ) → Option Str
text_of none = none
text_of (some bs) = from_utf8 bs

unfoldable pub percent_decode : Str → Option Str
unfolding decode_bytes
percent_decode input = text_of (decode_bytes outside (bytes input))

abbrev pub non_empty : Str → CredentialSource → Option (Str × CredentialSource)
non_empty s source = if is_empty s then none else some (s, source)

-- `Authorization: Bearer <token>` or `Authorization: <token>`, of the trimmed header.
unfoldable pub header_token : Str → Option (Str × CredentialSource)
header_token clean =
    if ltb 7 (length clean)
      && (eq_ignore_ascii_case (take 6 clean) (ascii "bearer")
          && is_ascii_whitespace (get_or clean 6 0))
    then non_empty (trim (drop 7 clean)) header
    else non_empty clean header

abbrev from_header : Option Str → Option (Str × CredentialSource)
from_header none = none
from_header (some authorization) = header_token (trim authorization)

abbrev cookie_value : Option (Str × Str) → Option (Str × CredentialSource)
cookie_value none = none
cookie_value (some (k, v)) =
    if eq_ignore_ascii_case k (ascii "atpc_session")
      || (eq_ignore_ascii_case k (ascii "token") || eq_ignore_ascii_case k (ascii "auth_token"))
    then non_empty (trim v) cookie
    else none

abbrev unwrap_or {ℓ} : {A : Type ℓ} → Option A → A → A
unwrap_or none d = d
unwrap_or (some a) d = a

abbrev pub query_value : Option (Str × Str) → Option (Str × CredentialSource)
query_value none = none
query_value (some (k, v)) =
    if eq_ignore_ascii_case k (ascii "token") || eq_ignore_ascii_case k (ascii "pin")
    then non_empty (trim (unwrap_or (percent_decode v) v)) query
    else none

abbrev pub or_else {ℓ} : {A : Type ℓ} → Option A → Option A → Option A
or_else none next = next
or_else (some a) next = some a

pub cookie_pairs : List Str → Option (Str × CredentialSource)
cookie_pairs [] = none
cookie_pairs (pair ∷ pairs) =
    or_else (cookie_value (split_once b'=' (trim pair))) (cookie_pairs pairs)

unfoldable pub query_pairs : List Str → Option (Str × CredentialSource)
unfolding percent_decode
query_pairs [] = none
query_pairs (pair ∷ pairs) = or_else (query_value (split_once b'=' pair)) (query_pairs pairs)

abbrev from_cookie : Option Str → Option (Str × CredentialSource)
from_cookie none = none
from_cookie (some cookies) = cookie_pairs (split b';' cookies)

abbrev from_query : Option Str → Option (Str × CredentialSource)
from_query none = none
from_query (some q) = query_pairs (split b'&' q)

-- The headers that are read, where they are present and readable.
pub record Headers : Type 0 where
  pub authorization : Option Str
  pub cookie_header : Option Str

-- The token and where it stands, if there is one: the pair of `Option`s of the source is both or
-- neither.
unfoldable pub extract_credential : Headers → Option Str → Option (Str × CredentialSource)
unfolding header_token cookie_pairs query_pairs
extract_credential headers q =
    or_else (from_header headers.authorization)
      (or_else (from_cookie headers.cookie_header) (from_query q))
