-- ===== src/Server/KeyStore/Parse.antt =====
-- The parser of credentials and its printer are inverse to one another; what the id encoding keeps
-- of the random bytes.
use at_pc.Common.{
  ℕ, zero, suc, ◌-◌, ◌*◌, ◌/◌, ◌%◌, ◌^◌, ◌<◌, ◌≡◌, ◌≢◌, refl, ap, ◌∙◌, Str, ascii, strip_prefix,
  strip_prefix-append, strip_prefix-eq, split_once, split_once-append, split_once-eq, Lacks, true,
  some, [], ◌∷◌, ◌++◌, arith, nat_beq, length, any, get_or, drop, str_beq, str_beq-eq,
}
use at_pc.Server.KeyStore.{KeyKind, secret_key, device_token, ok}
use at_pc.Server.KeyStore.Credential.{
  key_prefix, crockford32, kind_str, kind_from_str, all_bytes, is_crockford, is_id, is_secret,
  parse_credential, format_credential, id_word, id_index, id_char, crockford_base32_id,
}

crockford_no_underscore : (b : ℕ) → is_crockford b ≡ true → b ≢ 95
unfolding is_crockford any
crockford_no_underscore b h e = cc (h, ap is_crockford e)

Lacks-crockford : (s : Str) → all_bytes is_crockford s ≡ true → Lacks 95 s
Lacks-crockford [] h = tt
Lacks-crockford (b ∷ s) h = ground (arith, crockford_no_underscore b, Lacks-crockford s)

kind_from-kind_str : (k : KeyKind) → kind_from_str (kind_str k) ≡ ok k
unfolding kind_from_str str_beq
kind_from-kind_str secret_key = refl
kind_from-kind_str device_token = refl

kind_from_str-eq : (s : Str) (k : KeyKind) → kind_from_str s ≡ ok k → s ≡ kind_str k
unfolding kind_from_str
kind_from_str-eq s k h = ground (arith, str_beq-eq s (ascii "sk"), str_beq-eq s (ascii "dv"))

Lacks-kind_str : (k : KeyKind) → Lacks 95 (kind_str k)
Lacks-kind_str secret_key = omega arith
Lacks-kind_str device_token = omega arith

-- A printed credential is read back as it was, whatever the kind, the id and the secret are, if id
-- and secret have the length and the alphabet that the format wants.
pub parse-format :
    (k : KeyKind) (id secret : Str)
    → is_id id ≡ true
    → is_secret secret ≡ true
    → parse_credential (format_credential k id secret) ≡ ok (k, id, secret)
unfolding parse_credential format_credential is_id is_secret
parse-format k id secret hi hs =
    rw
      (
        strip_prefix-append key_prefix (kind_str k ++ (95 ∷ (id ++ (95 ∷ secret)))),
        split_once-append 95 (kind_str k) (id ++ (95 ∷ secret)) (Lacks-kind_str k),
        kind_from-kind_str k,
        split_once-append 95 id secret (Lacks-crockford id (ground arith)),
      )
      (ground arith)

-- The steps of a successful parse.
after_prefix :
    (cred : Str) (k : KeyKind) (id secret : Str)
    → parse_credential cred ≡ ok (k, id, secret)
    → (rest : Str) × (strip_prefix key_prefix cred ≡ some rest)
unfolding parse_credential
after_prefix cred k id secret h = ground arith

module _ (cred rest : Str) (k : KeyKind) (id secret : Str)
    (e : strip_prefix key_prefix cred ≡ some rest)
    (h : parse_credential cred ≡ ok (k, id, secret)) where
  after_kind : (p : Str × Str) × (split_once 95 rest ≡ some p)
  unfolding parse_credential
  after_kind = ground arith

  module _ (p : Str × Str) (f : split_once 95 rest ≡ some p) where
    after_id :
        (kind_from_str p.0 ≡ ok k)
        × (split_once 95 p.1 ≡ some (id, secret))
        × (is_id id ≡ true)
        × (is_secret secret ≡ true)
    unfolding parse_credential is_id is_secret
    after_id = ground arith

-- Only printed credentials are accepted: what the parser returns prints back to the text it read,
-- and its id and its secret have the length and the alphabet of the format.
pub parse-eq-format :
    (cred : Str) (k : KeyKind) (id secret : Str)
    → parse_credential cred ≡ ok (k, id, secret)
    → (cred ≡ format_credential k id secret) × (is_id id ≡ true) × (is_secret secret ≡ true)
unfolding format_credential
parse-eq-format cred k id secret h =
    let (rest, p) = after_prefix cred k id secret h in
    let ((kind_text, rest'), q) = after_kind cred rest k id secret p h in
    let (kind, r, hi, hs) = after_id cred rest k id secret p h (kind_text, rest') q in
    (
      strip_prefix-eq key_prefix cred rest p
          ∙ ap (◌++◌ key_prefix) (
              (split_once-eq 95 rest kind_text rest' q).0
              ∙ ap (λ (t : Str). t ++ (95 ∷ rest')) (kind_from_str-eq kind_text k kind)
              ∙ ap (λ (t : Str). kind_str k ++ (95 ∷ t)) (split_once-eq 95 rest' id secret r).0),
      hi,
      hs,
    )

any-get_or : (xs : Str) (n d : ℕ) → n < length xs → any (λ c. nat_beq c (get_or xs n d)) xs ≡ true
unfolding any
any-get_or [] n d h = elim h [ ]
any-get_or (x ∷ xs) zero d h = ground arith
any-get_or (x ∷ xs) (suc n) d h = ground (arith, any-get_or xs n d)

id_char-crockford : (acc i : ℕ) → is_crockford (id_char acc i) ≡ true
unfolding is_crockford id_index
id_char-crockford acc i = any-get_or crockford32 (acc / 2 ^ (35 - i * 5) % 32) 0 (omega arith)

-- Every id that the program draws has the length and the alphabet of the format.
pub crockford-is_id : (a b c d e : ℕ) → is_id (crockford_base32_id a b c d e) ≡ true
unfolding is_id crockford_base32_id
crockford-is_id a b c d e =
    let acc = id_word a b c d e in
    ground (
      arith,
      id_char-crockford acc 0,
      id_char-crockford acc 1,
      id_char-crockford acc 2,
      id_char-crockford acc 3,
      id_char-crockford acc 4,
      id_char-crockford acc 5,
      id_char-crockford acc 6,
      id_char-crockford acc 7,
    )

low_index :
    (a b c d e : ℕ)
    → (id_index (id_word a b c d e) 5 ≡ 0)
      × (id_index (id_word a b c d e) 6 ≡ 0)
      × (id_index (id_word a b c d e) 7 ≡ 0)
unfolding id_word id_index
low_index a b c d e = omega arith

high_0 : (a b a' b' c d e : ℕ) → id_index (id_word a b c d e) 0 ≡ id_index (id_word a' b' c d e) 0
unfolding id_word id_index
high_0 a b a' b' c d e = omega arith

high_1 : (a b a' b' c d e : ℕ) → id_index (id_word a b c d e) 1 ≡ id_index (id_word a' b' c d e) 1
unfolding id_word id_index
high_1 a b a' b' c d e = omega arith

high_2 : (a b a' b' c d e : ℕ) → id_index (id_word a b c d e) 2 ≡ id_index (id_word a' b' c d e) 2
unfolding id_word id_index
high_2 a b a' b' c d e = omega arith

high_3 : (a b a' b' c d e : ℕ) → id_index (id_word a b c d e) 3 ≡ id_index (id_word a' b' c d e) 3
unfolding id_word id_index
high_3 a b a' b' c d e = omega arith

high_4 : (a b a' b' c d e : ℕ) → id_index (id_word a b c d e) 4 ≡ id_index (id_word a' b' c d e) 4
unfolding id_word id_index
high_4 a b a' b' c d e = omega arith

-- Of its five random bytes the id uses the last three: the first two change nothing, and the last
-- three of its eight characters are `0`.
pub crockford_drops :
    (a b a' b' c d e : ℕ)
    → (crockford_base32_id a b c d e ≡ crockford_base32_id a' b' c d e)
      × (drop 5 (crockford_base32_id a b c d e) ≡ ascii "000")
unfolding crockford_base32_id
crockford_drops a b a' b' c d e =
    let (p, q, r) = low_index a b c d e in
    let (p', q', r') = low_index a' b' c d e in
    (
      rw (
        p,
        q,
        r,
        p',
        q',
        r',
        high_0 a b a' b' c d e,
        high_1 a b a' b' c d e,
        high_2 a b a' b' c d e,
        high_3 a b a' b' c d e,
        high_4 a b a' b' c d e,
      ),
      rw (p, q, r),
    )
