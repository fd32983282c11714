-- ===== src/Protocol/Frame/RoundTrip.antt =====
-- messages.rs: `decode` reads exactly what `encode` writes.
use at_pc.Common.{
  ℕ, zero, suc, ◌+◌, ◌*◌, ◌^◌, ◌<◌, ◌≤◌, ◌≡◌, ◌↔◌, refl, sym, ap, subst, ◌∙◌, false, inl, inr, List,
  [], ◌∷◌, ◌++◌, arith, length, take, drop, ltb, All, Bool-cases, str_beq, str_beq_iff, take-drop,
  length-drop, length-take, All-take, All-drop,
}
use at_pc.Protocol.Frame.{
  BinaryDesktopFrame, magic, u32_be, u64_be, from_be, encode, ok, slice, decode,
}

-- The fields fit their widths.
abbrev pub InRange : BinaryDesktopFrame → Type 0
InRange f =
    (f.display_index < 2 ^ 32) × (f.width < 2 ^ 32) × (f.height < 2 ^ 32) × (f.timestamp < 2 ^ 64)

abbrev pub Bytes : List ℕ → Type 0
Bytes = All (λ b. b < 256)

from_be-u32 : (n : ℕ) → n < 2 ^ 32 → from_be 0 (u32_be n) ≡ n
unfolding from_be
from_be-u32 n h = omega arith

from_be-u64 : (n : ℕ) → n < 2 ^ 64 → from_be 0 (u64_be n) ≡ n
unfolding from_be
from_be-u64 n h = omega arith

long_enough : (f : BinaryDesktopFrame) → ltb (length (encode f)) 24 ≡ false
unfolding encode
long_enough f = ground arith

-- A written frame is read back.
pub decode-encode : (f : BinaryDesktopFrame) → InRange f → decode (encode f) ≡ ok f
unfolding decode encode str_beq
decode-encode f (d, w, h, t) = rw (
  long_enough f,
  from_be-u32 f.display_index d,
  from_be-u32 f.width w,
  from_be-u32 f.height h,
  from_be-u64 f.timestamp t,
)

four : (bs : List ℕ) → length bs ≡ 4 → (a b c d : ℕ) × (bs ≡ a ∷ b ∷ c ∷ d ∷ [])
four (a ∷ b ∷ c ∷ d ∷ []) l = (a, b, c, d, refl)
four other l = absurd (omega (arith, l))

u32_four :
    (a b c d : ℕ)
    → Bytes (a ∷ b ∷ c ∷ d ∷ [])
    → u32_be (from_be 0 (a ∷ b ∷ c ∷ d ∷ [])) ≡ a ∷ b ∷ c ∷ d ∷ []
unfolding from_be
u32_four a b c d h = ground arith

-- Four bytes are the number that they are read as, written.
u32-from_be : (bs : List ℕ) → length bs ≡ 4 → Bytes bs → u32_be (from_be 0 bs) ≡ bs
u32-from_be bs l h =
    let (a, b, c, d, e) = four bs l in
    let bytes : Bytes (a ∷ b ∷ c ∷ d ∷ []) = subst Bytes e h in
    subst (λ (x : List ℕ). u32_be (from_be 0 x) ≡ x) (sym e) (u32_four a b c d bytes)

from_be-append : (acc : ℕ) (xs ys : List ℕ) → from_be acc (xs ++ ys) ≡ from_be (from_be acc xs) ys
unfolding from_be
from_be-append acc [] ys = refl
from_be-append acc (x ∷ xs) ys = from_be-append (acc * 256 + x) xs ys

from_be_four :
    (acc : ℕ) (bs : List ℕ) → length bs ≡ 4 → from_be acc bs ≡ acc * 2 ^ 32 + from_be 0 bs
unfolding from_be
from_be_four acc bs l = let (a, b, c, d, e) = four bs l in rw e (omega arith)

from_be_small : (bs : List ℕ) → length bs ≡ 4 → Bytes bs → from_be 0 bs < 2 ^ 32
unfolding from_be
from_be_small bs l h =
    let (a, b, c, d, e) = four bs l in
    let bytes : Bytes (a ∷ b ∷ c ∷ d ∷ []) = subst Bytes e h in rw e (omega arith)

u64_parts : (hi lo : ℕ) → lo < 2 ^ 32 → u64_be (hi * 2 ^ 32 + lo) ≡ u32_be hi ++ u32_be lo
u64_parts hi lo h = ground arith

u64-from_be :
    (xs ys : List ℕ)
    → length xs ≡ 4
    → length ys ≡ 4
    → Bytes xs
    → Bytes ys
    → u64_be (from_be 0 (xs ++ ys)) ≡ xs ++ ys
u64-from_be xs ys lx ly hx hy =
    ap u64_be (from_be-append 0 xs ys ∙ from_be_four (from_be 0 xs) ys ly)
    ∙ u64_parts (from_be 0 xs) (from_be 0 ys) (from_be_small ys ly hy)
    ∙ cc (u32-from_be xs lx hx, u32-from_be ys ly hy)

split_at : (n m k : ℕ) (bs : List ℕ) → n + m ≡ k → slice n m bs ++ drop k bs ≡ drop n bs
split_at zero m k bs e = let e' : k ≡ m = omega arith in rw e' (take-drop m bs)
split_at (suc n) m zero bs e = absurd (omega (arith, e))
split_at (suc n) zero (suc k) [] e = refl
split_at (suc n) (suc m) (suc k) [] e = refl
split_at (suc n) m (suc k) (b ∷ bs) e = split_at n m k bs (omega (arith, e))

module _ (bs : List ℕ) (long : 24 ≤ length bs) (small : Bytes bs) where
  slice-length : (n m : ℕ) → n + m ≤ 24 → length (slice n m bs) ≡ m
  slice-length n m h = length-take m (drop n bs) (omega (arith, length-drop n bs))

  slice-Bytes : (n m : ℕ) → Bytes (slice n m bs)
  slice-Bytes n m = All-take (λ b. b < 256) m (drop n bs) (All-drop (λ b. b < 256) n bs small)

  u32-slice : (n : ℕ) → n + 4 ≤ 24 → u32_be (from_be 0 (slice n 4 bs)) ≡ slice n 4 bs
  u32-slice n h = u32-from_be (slice n 4 bs) (slice-length n 4 h) (slice-Bytes n 4)

  u64-slice : u64_be (from_be 0 (slice 16 8 bs)) ≡ slice 16 8 bs
  u64-slice =
      let eight = slice 16 8 bs in
      let l : length eight ≡ 8 = slice-length 16 8 (omega arith) in
      let b : Bytes eight = slice-Bytes 16 8 in
      subst (λ (x : List ℕ). u64_be (from_be 0 x) ≡ x) (take-drop 4 eight)
        (u64-from_be (take 4 eight) (drop 4 eight) (length-take 4 eight (omega (arith, l)))
          (omega (arith, length-drop 4 eight, l)) (All-take (λ b. b < 256) 4 eight b)
          (All-drop (λ b. b < 256) 4 eight b))

  join : List ℕ → List ℕ → List ℕ → List ℕ → List ℕ → List ℕ
  join m d w h t = m ++ (d ++ (w ++ (h ++ (t ++ drop 24 bs))))

  join-slices :
      join (slice 0 4 bs) (slice 4 4 bs) (slice 8 4 bs) (slice 12 4 bs) (slice 16 8 bs) ≡ bs
  unfolding join
  join-slices =
      rw
        (
          split_at 16 8 24 bs (omega arith),
          split_at 12 4 16 bs (omega arith),
          split_at 8 4 12 bs (omega arith),
          split_at 4 4 8 bs (omega arith),
        )
        (split_at 0 4 4 bs (omega arith))

abbrev read_frame : List ℕ → BinaryDesktopFrame
read_frame bs = record {
  display_index = from_be 0 (slice 4 4 bs);
  width = from_be 0 (slice 8 4 bs);
  height = from_be 0 (slice 12 4 bs);
  timestamp = from_be 0 (slice 16 8 bs);
  jpeg = drop 24 bs;
}

-- The fields of a frame, written one after the other.
encode-read_frame :
    (bs : List ℕ) → 24 ≤ length bs → Bytes bs → slice 0 4 bs ≡ magic → encode (read_frame bs) ≡ bs
unfolding encode
encode-read_frame bs long small m =
    (λ i.
      (sym m) i
      ++ (u32-slice bs long small 4 (omega arith) i
          ++ (u32-slice bs long small 8 (omega arith) i
              ++ (u32-slice bs long small 12 (omega arith) i
                  ++ (u64-slice bs long small i ++ drop 24 bs)))))
    ∙ unfold join in join-slices bs long small

decode_parts :
    (bs : List ℕ) (f : BinaryDesktopFrame)
    → decode bs ≡ ok f
    → (24 ≤ length bs) × (slice 0 4 bs ≡ magic) × (f ≡ read_frame bs)
unfolding decode
decode_parts bs f h = elim (Bool-cases (ltb (length bs) 24)) [
  | inl short ↦ absurd (ground (arith, short, h))
  | inr long ↦ elim (Bool-cases (str_beq (slice 0 4 bs) magic)) [
    | inr other ↦ absurd (ground (arith, long, other, h))
    | inl same ↦ (
      ground (arith, long),
      (str_beq_iff (slice 0 4 bs) magic).0 same,
      ground (arith, long, same, h),
    )
  ]
]

-- `decode` accepts the bytes that `encode` writes for a frame with fields in range, and no others, and
-- it returns that frame.
pub decode_exact :
    (bs : List ℕ) (f : BinaryDesktopFrame)
    → Bytes bs
    → InRange f
    → (decode bs ≡ ok f) ↔ (encode f ≡ bs)
decode_exact bs f small range = (
  λ h. let (long, m, e) = decode_parts bs f h in ap encode e ∙ encode-read_frame bs long small m,
  λ e. ap decode (sym e) ∙ decode-encode f range,
)
