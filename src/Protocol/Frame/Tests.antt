-- ===== src/Protocol/Frame/Tests.antt =====
-- A small picture of messages.rs as bytes.
use at_pc.Common.{ℕ, ◌≡◌, ◌↔◌, refl, List, [], ◌∷◌, ◌++◌, arith, ascii}
use at_pc.Protocol.Frame.{BinaryDesktopFrame, encode, ok, too_short, decode}
use at_pc.Protocol.Frame.RoundTrip.{decode_exact}

abbrev frame : BinaryDesktopFrame
frame = record {
  display_index = 1;
  width = 1920;
  height = 1080;
  timestamp = 1700000000;
  jpeg = 255 ∷ 216 ∷ [];
}

abbrev written : List ℕ
written =
    ascii "DFRM"
    ++ (0 ∷ 0 ∷ 0 ∷ 1 ∷ 0 ∷ 0 ∷ 7 ∷ 128 ∷ 0 ∷ 0 ∷ 4 ∷ 56 ∷ 0 ∷ 0 ∷ 0 ∷ 0 ∷ 101 ∷ 83 ∷ 241 ∷ 0 ∷ 255
        ∷ 216 ∷ [])

encode_run : encode frame ≡ written
unfolding encode
encode_run = refl

header_only : decode (ascii "DFRM") ≡ too_short
unfolding decode
header_only = refl

decode_exact_example : (decode written ≡ ok frame) ↔ (encode frame ≡ written)
decode_exact_example = decode_exact written frame (omega arith) (omega arith)
