-- ===== src/Protocol/Frame.antt =====
-- messages.rs, `BinaryDesktopFrame`: a picture of a desktop as bytes. The fields are u32 and u64.
pub mod RoundTrip
pub mod Tests
use at_pc.Common.{
  ℕ, ◌+◌, ◌*◌, ◌/◌, ◌%◌, ◌^◌, Str, ascii, Bool, true, false, not, List, [], ◌∷◌, ◌++◌, length, take,
  drop, ltb, str_beq, if◌then◌else◌,
}

pub record BinaryDesktopFrame : Type 0 where
  pub display_index : ℕ
  pub width : ℕ
  pub height : ℕ
  pub timestamp : ℕ
  pub jpeg : List ℕ

abbrev pub magic : List ℕ
magic = ascii "DFRM"

abbrev header_len : ℕ
header_len = 24

-- `u32::to_be_bytes`
abbrev pub u32_be : ℕ → List ℕ
u32_be n = (n / 2 ^ 24 % 256) ∷ (n / 2 ^ 16 % 256) ∷ (n / 2 ^ 8 % 256) ∷ (n % 256) ∷ []

-- `u64::to_be_bytes`
abbrev pub u64_be : ℕ → List ℕ
u64_be n = u32_be (n / 2 ^ 32) ++ u32_be n

-- `from_be_bytes` of the bytes of a slice
unfoldable pub from_be : ℕ → List ℕ → ℕ
from_be acc [] = acc
from_be acc (b ∷ bs) = from_be (acc * 256 + b) bs

unfoldable pub encode : BinaryDesktopFrame → List ℕ
encode f =
    magic
    ++ (u32_be f.display_index
        ++ (u32_be f.width ++ (u32_be f.height ++ (u64_be f.timestamp ++ f.jpeg))))

pub data Decoded : Type 0 where
  ok : BinaryDesktopFrame → Decoded
  too_short invalid_magic : Decoded

-- `payload[from..from + len]`
abbrev pub slice : ℕ → ℕ → List ℕ → List ℕ
slice from len payload = take len (drop from payload)

unfoldable pub decode : List ℕ → Decoded
unfolding from_be
decode payload =
    if ltb (length payload) header_len
    then too_short
    else if not (str_beq (slice 0 4 payload) magic)
    then invalid_magic
    else ok (record {
      display_index = from_be 0 (slice 4 4 payload);
      width = from_be 0 (slice 8 4 payload);
      height = from_be 0 (slice 12 4 payload);
      timestamp = from_be 0 (slice 16 8 payload);
      jpeg = drop 24 payload;
    })
