-- ===== src/Common/Utf8.antt =====
-- UTF-8: the bytes of a text (`str::bytes`), and `String::from_utf8`, which refuses overlong forms,
-- surrogates and values above 0x10ffff.
pub mod RoundTrip
use Prim.Native.Nat.{ℕ, zero, suc, ◌+◌, ◌-◌, ◌*◌, ◌/◌, ◌%◌, ◌≤◌, ◌<◌}
use mathlib.Core.Path.{◌≡◌, refl, sym, ap, ◌∙◌}
use mathlib.Core.Logic.{◌⊎◌, inl, inr}
use mathlib.Core.Bool.{false, ◌&&◌}
use mathlib.Core.Option.{Option, none, some}
use mathlib.Core.List.{List, [], ◌∷◌, ◌++◌}
use native.Mathlib.Omega.{arith}
use at_pc.Common.Tests.{ltb, leb, nat_beq, Bool-cases, if◌then◌else◌}
use at_pc.Common.Text.{Str}
use at_pc.Common.Lists.{All}

unfoldable pub char_bytes : ℕ → List ℕ
char_bytes c =
    if ltb c 0x80
    then c ∷ []
    else if ltb c 0x800
    then (0xc0 + c / 64) ∷ (0x80 + c % 64) ∷ []
    else if ltb c 0x10000
    then (0xe0 + c / 4096) ∷ (0x80 + c / 64 % 64) ∷ (0x80 + c % 64) ∷ []
    else (0xf0 + c / 262144) ∷ (0x80 + c / 4096 % 64) ∷ (0x80 + c / 64 % 64) ∷ (0x80 + c % 64) ∷ []

unfoldable pub bytes : Str → List ℕ
unfolding char_bytes
bytes [] = []
bytes (c ∷ s) = char_bytes c ++ bytes s

-- A character that is being read: how many bytes are missing, its value so far, and the range of
-- the next byte.
pub record Pending : Type 0 where
  pub left : ℕ
  pub value : ℕ
  pub low : ℕ
  pub high : ℕ

-- After the first byte of a character.
pub first_byte : ℕ → Option Pending
first_byte b =
    if ltb b 0x80
    then some (record { left = 0; value = b; low = 0x80; high = 0xbf })
    else if leb 0xc2 b && leb b 0xdf
    then some (record { left = 1; value = b - 0xc0; low = 0x80; high = 0xbf })
    else if leb 0xe0 b && leb b 0xef
    then some (record {
      left = 2;
      value = b - 0xe0;
      low = if leb b 0xe0 then 0xa0 else 0x80;
      high = if leb 0xed b && leb b 0xed then 0x9f else 0xbf;
    })
    else if leb 0xf0 b && leb b 0xf4
    then some (record {
      left = 3;
      value = b - 0xf0;
      low = if leb b 0xf0 then 0x90 else 0x80;
      high = if leb 0xf4 b then 0x8f else 0xbf;
    })
    else none

pub next_byte : Pending → ℕ → Option Pending
next_byte p b =
    if leb p.low b && leb b p.high
    then some
        (record { left = p.left - 1; value = p.value * 64 + (b - 0x80); low = 0x80; high = 0xbf })
    else none

abbrev pub cons_opt : ℕ → Option Str → Option Str
cons_opt c none = none
cons_opt c (some s) = some (c ∷ s)

-- The rest of the bytes, when some are read: `none` is a malformed beginning.
pub from : Option Pending → List ℕ → Option Str
from none bs = none
from (some p) [] = if nat_beq p.left 0 then some (p.value ∷ []) else none
from (some p) (b ∷ bs) =
    let rest = from (if nat_beq p.left 0 then first_byte b else next_byte p b) bs in
    if nat_beq p.left 0 then cons_opt p.value rest else rest

unfoldable pub from_utf8 : List ℕ → Option Str
unfolding from first_byte next_byte
from_utf8 [] = some []
from_utf8 (b ∷ bs) = from (first_byte b) bs

-- A Unicode scalar value.
abbrev pub Scalar : ℕ → Type 0
Scalar c = (c < 0x110000) × ((c < 0xd800) ⊎ (0xdfff < c))
