-- ===== src/Server/Gateway/Credential/Query.antt =====
-- mcp/mod.rs, `percent_decode` and the query string: a token that was percent-encoded arrives.
use at_pc.Common.{
  ◌≡◌, ◌≢◌, refl, ap, ◌∙◌, ℕ, ◌+◌, ◌*◌, ◌/◌, ◌%◌, ◌<◌, Str, ascii, Bool, false, ◌&&◌, ◌||◌, none,
  some, List, [], ◌∷◌, ◌++◌, arith, leb, ltb, nat_beq, Bool-cases, All, Lacks, inl, inr, trim,
  is_empty, if◌then◌else◌, split-append, split_once-append, bytes, char_bytes, Scalar,
  eq_ignore_ascii_case,
}
use at_pc.Common.Utf8.RoundTrip.{from_utf8-bytes, bytes_small}
use at_pc.Server.Gateway.Credential.{
  query, percent_decode, decode_bytes, outside, from_hex, cons_byte, query_pairs,
  extract_credential,
}

-- RFC 3986: letters, digits and `-._~` stand for themselves, any other byte is escaped.
pub is_unreserved : ℕ → Bool
is_unreserved b =
    (leb b'a' b && leb b b'z')
    || (leb b'A' b && leb b b'Z')
    || (leb b'0' b && leb b b'9')
    || nat_beq b b'-'
    || nat_beq b b'.'
    || nat_beq b b'_'
    || nat_beq b b'~'

hex_char : ℕ → ℕ
hex_char d = if ltb d 10 then d + b'0' else d + 55

encode_byte : ℕ → Str
unfolding is_unreserved hex_char
encode_byte b =
    if is_unreserved b then b ∷ [] else b'%' ∷ hex_char (b / 16) ∷ hex_char (b % 16) ∷ []

encode_bytes : List ℕ → Str
unfolding encode_byte
encode_bytes [] = []
encode_bytes (b ∷ bs) = encode_byte b ++ encode_bytes bs

unfoldable pub percent_encode : Str → Str
unfolding encode_bytes
percent_encode s = encode_bytes (bytes s)

from_hex-hex_char :
    (h l : ℕ) → h < 16 → l < 16 → from_hex (hex_char h) (hex_char l) ≡ some (h * 16 + l)
unfolding from_hex hex_char
from_hex-hex_char h l p q = ground arith

decode-encode_byte :
    (b : ℕ) (s : List ℕ)
    → b < 256
    → decode_bytes outside (encode_byte b ++ s) ≡ cons_byte (some b) (decode_bytes outside s)
unfolding decode_bytes encode_byte
decode-encode_byte b s h = elim (Bool-cases (is_unreserved b)) [
  | inl p ↦ rw p (unfold is_unreserved in ground arith)
  | inr p ↦
      rw (p, from_hex-hex_char (b / 16) (b % 16) (omega arith) (omega arith))
        (ap (λ (x : ℕ). cons_byte (some x) (decode_bytes outside s)) (omega arith))
]

decode-encode_bytes :
    (bs : List ℕ) → All (λ b. b < 256) bs → decode_bytes outside (encode_bytes bs) ≡ some bs
unfolding encode_bytes decode_bytes
decode-encode_bytes [] h = refl
decode-encode_bytes (b ∷ bs) h =
    decode-encode_byte b (encode_bytes bs) h.0
    ∙ ap (cons_byte (some b)) (decode-encode_bytes bs h.1)

-- A character of an encoded text: ASCII, and no separator of queries.
abbrev Plain : ℕ → Type 0
Plain c = (c < 0x80) × (c ≢ b'&')

All-append : (xs ys : List ℕ) → All Plain xs → All Plain ys → All Plain (xs ++ ys)
All-append [] ys h k = k
All-append (x ∷ xs) ys h k = (h.0, All-append xs ys h.1 k)

encode_byte-Plain : (b : ℕ) → b < 256 → All Plain (encode_byte b)
unfolding encode_byte
encode_byte-Plain b h = elim (Bool-cases (is_unreserved b)) [
  | inl p ↦ rw p (unfold is_unreserved in ground arith)
  | inr p ↦ rw p (unfold hex_char in ground arith)
]

encode_bytes-Plain : (bs : List ℕ) → All (λ b. b < 256) bs → All Plain (encode_bytes bs)
unfolding encode_bytes
encode_bytes-Plain [] h = tt
encode_bytes-Plain (b ∷ bs) h =
    All-append (encode_byte b) (encode_bytes bs) (encode_byte-Plain b h.0)
      (encode_bytes-Plain bs h.1)

bytes-Plain : (s : Str) → All Plain s → bytes s ≡ s
unfolding bytes char_bytes
bytes-Plain [] h = refl
bytes-Plain (c ∷ s) h = ground (arith, bytes-Plain s h.1)

Plain-Lacks : (s : Str) → All Plain s → Lacks b'&' s
Plain-Lacks [] h = tt
Plain-Lacks (c ∷ s) h = (h.0.1, Plain-Lacks s h.1)

percent_encode-Plain : (s : Str) → All Scalar s → All Plain (percent_encode s)
unfolding percent_encode
percent_encode-Plain s h = encode_bytes-Plain (bytes s) (bytes_small s h)

-- `percent_decode` undoes percent-encoding, for every text of Unicode scalar values.
pub percent_decode-percent_encode :
    (s : Str) → All Scalar s → percent_decode (percent_encode s) ≡ some s
unfolding percent_decode
percent_decode-percent_encode s h = rw (bytes-Plain (percent_encode s) (percent_encode-Plain s h)) (
    unfold percent_encode in
    rw (decode-encode_bytes (bytes s) (bytes_small s h)) (from_utf8-bytes s h))

query_pairs-token :
    (t : Str) (pairs : List Str)
    → All Scalar t
    → trim t ≡ t
    → is_empty t ≡ false
    → query_pairs ((ascii "token=" ++ percent_encode t) ∷ pairs) ≡ some (t, query)
unfolding query_pairs eq_ignore_ascii_case
query_pairs-token t pairs h same full = rw (
  split_once-append b'=' (ascii "token") (percent_encode t) (omega arith),
  percent_decode-percent_encode t h,
  same,
  full,
)

-- A request without credential headers, whose query begins with `token=` and the percent-encoding of
-- a trimmed, non-empty text, has that text as its credential, marked as one of the query, whatever
-- pairs follow.
pub query_token :
    (t more : Str)
    → All Scalar t
    → trim t ≡ t
    → is_empty t ≡ false
    → extract_credential
        (record { authorization = none; cookie_header = none })
        (some ((ascii "token=" ++ percent_encode t) ++ b'&' ∷ more))
      ≡ some (t, query)
unfolding extract_credential
query_token t more h same full =
    let lacks : Lacks b'&' (ascii "token=" ++ percent_encode t) =
      Plain-Lacks (ascii "token=" ++ percent_encode t)
        (All-append (ascii "token=") (percent_encode t) (omega arith) (percent_encode-Plain t h)) in
    ap query_pairs (split-append b'&' (ascii "token=" ++ percent_encode t) more lacks)
    ∙ query_pairs-token t _ h same full
