-- ===== src/Common/Utf8/RoundTrip.antt =====
-- UTF-8: reading the bytes of a text gives the text back.
use Prim.Native.Nat.{ℕ, suc, ◌+◌, ◌-◌, ◌*◌, ◌/◌, ◌%◌, ◌≤◌, ◌<◌}
use mathlib.Core.Path.{◌≡◌, refl, sym, ap, ◌∙◌}
use mathlib.Core.Logic.{inl, inr}
use mathlib.Core.Bool.{false, ◌&&◌}
use mathlib.Core.Option.{Option, none, some}
use mathlib.Core.List.{List, [], ◌∷◌, ◌++◌}
use native.Mathlib.Omega.{arith}
use at_pc.Common.Tests.{ltb, leb, nat_beq, Bool-cases, if◌then◌else◌}
use at_pc.Common.Text.{Str}
use at_pc.Common.Lists.{All}
use at_pc.Common.Utf8.{
  char_bytes, bytes, from_utf8, Scalar, Pending, first_byte, next_byte, from, cons_opt,
}

-- A character of which `n` bytes are missing, in the plain range.
abbrev part : ℕ → ℕ → Pending
part n v = record { left = n; value = v; low = 0x80; high = 0xbf }

next_byte_lem :
    (p : Pending) (x v : ℕ)
    → x < 64
    → p.low ≤ 0x80 + x
    → 0x80 + x ≤ p.high
    → p.value * 64 + x ≡ v
    → next_byte p (0x80 + x) ≡ some (part (p.left - 1) v)
unfolding next_byte
next_byte_lem p x v h low high e = ground arith

from-ascii :
    (c d : ℕ) (s : List ℕ)
    → c < 0x80
    → from (some (part 0 d)) (c ∷ s) ≡ cons_opt d (from (some (part 0 c)) s)
unfolding from first_byte
from-ascii c d s h = ground arith

from-next :
    (n w b : ℕ) (s : List ℕ) (p : Pending)
    → nat_beq p.left 0 ≡ false
    → next_byte p b ≡ some (part n w)
    → from (some p) (b ∷ s) ≡ from (some (part n w)) s
unfolding from
from-next n w b s p l e = rw (l, e)

from-first :
    (d b : ℕ) (s : List ℕ) (p : Pending)
    → first_byte b ≡ some p
    → from (some (part 0 d)) (b ∷ s) ≡ cons_opt d (from (some p) s)
unfolding from
from-first d b s p e = rw e

from-plain :
    (n v w x : ℕ) (s : List ℕ)
    → x < 64
    → v * 64 + x ≡ w
    → from (some (part (suc n) v)) ((0x80 + x) ∷ s) ≡ from (some (part n w)) s
from-plain n v w x s h e =
    from-next n w _ s (part (suc n) v) (ground arith)
      (ground (arith, next_byte_lem (part (suc n) v) x w h (omega arith) (omega arith) e))

-- The second byte of a character whose first byte narrows its range.
from-narrow :
    (n w x : ℕ) (s : List ℕ) (p : Pending)
    → p.left ≡ suc n
    → x < 64
    → p.low ≤ 0x80 + x
    → 0x80 + x ≤ p.high
    → p.value * 64 + x ≡ w
    → from (some p) ((0x80 + x) ∷ s) ≡ from (some (part n w)) s
from-narrow n w x s p l h low high e =
    from-next n w _ s p (ground arith) (ground (arith, next_byte_lem p x w h low high e))

two_bytes :
    (c d : ℕ) (s : List ℕ)
    → 0x80 ≤ c
    → c < 0x800
    → from (some (part 0 d)) ((0xc0 + c / 64) ∷ (0x80 + c % 64) ∷ s)
      ≡ cons_opt d (from (some (part 0 c)) s)
two_bytes c d s low high =
    from-first d (0xc0 + c / 64) _ (part 1 (c / 64)) (unfold first_byte in ground arith)
    ∙ ap (cons_opt d) (from-plain 0 (c / 64) c (c % 64) s (omega arith) (omega arith))

abbrev three : ℕ → Pending
three v = record {
  left = 2;
  value = v;
  low = if leb v 0 then 0xa0 else 0x80;
  high = if leb 0xd v && leb v 0xd then 0x9f else 0xbf;
}

three_bytes :
    (c d : ℕ) (s : List ℕ)
    → 0x800 ≤ c
    → c < 0x10000
    → Scalar c
    → from (some (part 0 d)) ((0xe0 + c / 4096) ∷ (0x80 + c / 64 % 64) ∷ (0x80 + c % 64) ∷ s)
      ≡ cons_opt d (from (some (part 0 c)) s)
three_bytes c d s low high h =
    from-first d (0xe0 + c / 4096) _ (three (c / 4096)) (unfold first_byte in ground arith)
    ∙ ap (cons_opt d) (
        from-narrow 1 (c / 64) (c / 64 % 64) _ (three (c / 4096)) refl (omega arith) (ground arith)
          (ground arith) (omega arith)
        ∙ from-plain 0 (c / 64) c (c % 64) s (omega arith) (omega arith))

abbrev four : ℕ → Pending
four v = record {
  left = 3;
  value = v;
  low = if leb v 0 then 0x90 else 0x80;
  high = if leb 4 v then 0x8f else 0xbf;
}

four_bytes :
    (c d : ℕ) (s : List ℕ)
    → 0x10000 ≤ c
    → c < 0x110000
    → from
        (some (part 0 d))
        ((0xf0 + c / 262144) ∷ (0x80 + c / 4096 % 64) ∷ (0x80 + c / 64 % 64) ∷ (0x80 + c % 64) ∷ s)
      ≡ cons_opt d (from (some (part 0 c)) s)
four_bytes c d s low high =
    from-first d (0xf0 + c / 262144) _ (four (c / 262144)) (unfold first_byte in ground arith)
    ∙ ap (cons_opt d) (
        from-narrow 2 (c / 4096) (c / 4096 % 64) _ (four (c / 262144)) refl (omega arith)
          (ground arith) (ground arith) (omega arith)
        ∙ from-plain 1 (c / 4096) (c / 64) (c / 64 % 64) _ (omega arith) (omega arith)
        ∙ from-plain 0 (c / 64) c (c % 64) s (omega arith) (omega arith))

from-char_bytes :
    (c d : ℕ) (s : List ℕ)
    → Scalar c
    → from (some (part 0 d)) (char_bytes c ++ s) ≡ cons_opt d (from (some (part 0 c)) s)
unfolding char_bytes
from-char_bytes c d s h = elim (Bool-cases (ltb c 0x80)) [
  | inl p ↦ rw p (from-ascii c d s (ground arith))
  | inr p ↦ elim (Bool-cases (ltb c 0x800)) [
    | inl q ↦ rw (p, q) (two_bytes c d s (ground arith) (ground arith))
    | inr q ↦ elim (Bool-cases (ltb c 0x10000)) [
      | inl r ↦ rw (p, q, r) (three_bytes c d s (ground arith) (ground arith) h)
      | inr r ↦ rw (p, q, r) (four_bytes c d s (ground arith) h.0)
    ]
  ]
]

from-bytes : (d : ℕ) (s : Str) → All Scalar s → from (some (part 0 d)) (bytes s) ≡ some (d ∷ s)
unfolding bytes from
from-bytes d [] h = refl
from-bytes d (c ∷ s) h = from-char_bytes c d (bytes s) h.0 ∙ ap (cons_opt d) (from-bytes c s h.1)

from-from_utf8 : (d : ℕ) (bs : List ℕ) → from (some (part 0 d)) bs ≡ cons_opt d (from_utf8 bs)
unfolding from from_utf8
from-from_utf8 d [] = refl
from-from_utf8 d (b ∷ bs) = refl

cons_opt-some : (d : ℕ) (o : Option Str) (s : Str) → cons_opt d o ≡ some (d ∷ s) → o ≡ some s
cons_opt-some d none s h = cc
cons_opt-some d (some t) s h = cc

-- The bytes of a text of Unicode scalar values read back as that text.
pub from_utf8-bytes : (s : Str) → All Scalar s → from_utf8 (bytes s) ≡ some s
from_utf8-bytes s h =
    cons_opt-some 0 (from_utf8 (bytes s)) s (sym (from-from_utf8 0 (bytes s)) ∙ from-bytes 0 s h)

All-append {ℓ} : (P : ℕ → Type ℓ) (xs ys : List ℕ) → All P xs → All P ys → All P (xs ++ ys)
All-append P [] ys h k = k
All-append P (x ∷ xs) ys h k = (h.0, All-append P xs ys h.1 k)

char_bytes_small : (c : ℕ) → c < 0x110000 → All (λ b. b < 256) (char_bytes c)
unfolding char_bytes
char_bytes_small c h = elim (Bool-cases (ltb c 0x80)) [
  | inl p ↦ rw p (ground arith)
  | inr p ↦ elim (Bool-cases (ltb c 0x800)) [
    | inl q ↦ rw (p, q) (ground arith)
    | inr q ↦ elim (Bool-cases (ltb c 0x10000)) [
      | inl r ↦ rw (p, q, r) (ground arith)
      | inr r ↦ rw (p, q, r) (ground arith)
    ]
  ]
]

pub bytes_small : (s : Str) → All Scalar s → All (λ b. b < 256) (bytes s)
unfolding bytes
bytes_small [] h = tt
bytes_small (c ∷ s) h =
    All-append (λ b. b < 256) (char_bytes c) (bytes s) (char_bytes_small c h.0.0)
      (bytes_small s h.1)
