-- ===== src/Common/Decimal.antt =====
-- Numbers in decimal, as `format!` prints them.
use Prim.Native.Nat.{ℕ, zero, suc, ◌+◌, ◌-◌, ◌*◌, ◌/◌, ◌%◌, ◌<◌}
use mathlib.Core.Path.{◌≡◌, ◌∙◌, refl, ap, sym}
use mathlib.Core.List.{[], ◌∷◌, ◌++◌}
use native.Mathlib.Omega.{arith}
use at_pc.Common.Tests.{ltb, if◌then◌else◌, Bool-cases}
use at_pc.Common.Text.{Str, Lacks}
use mathlib.Core.Logic.{inl, inr}

-- `n` is below the fuel, so that its digits come to an end before the fuel does.
digits : ℕ → ℕ → Str
digits zero n = []
digits (suc f) n =
    let rest = digits f (n / 10) ++ (48 + n % 10) ∷ [] in if ltb n 10 then (48 + n) ∷ [] else rest

unfoldable pub decimal : ℕ → Str
unfolding digits
decimal n = digits (suc n) n

value : ℕ → Str → ℕ
value acc [] = acc
value acc (c ∷ s) = value (acc * 10 + (c - 48)) s

value-append : (acc : ℕ) (s t : Str) → value acc (s ++ t) ≡ value (value acc s) t
unfolding value
value-append acc [] t = refl
value-append acc (c ∷ s) t = value-append (acc * 10 + (c - 48)) s t

value-digits : (f n : ℕ) → n < f → value 0 (digits f n) ≡ n
unfolding digits value
value-digits zero n h = elim h [ ]
value-digits (suc f) n h = elim (Bool-cases (ltb n 10)) [
  | inl p ↦ ground (arith, p)
  | inr p ↦
      let q : n / 10 < f = ground (arith, p) in
      rw p (
        ground (
          arith,
          value-append 0 (digits f (n / 10)) ((48 + n % 10) ∷ []),
          value-digits f (n / 10) q,
        ))
]

pub decimal_injective : (m n : ℕ) → decimal m ≡ decimal n → m ≡ n
unfolding decimal
decimal_injective m n e =
    sym (value-digits (suc m) m (omega arith))
    ∙ ap (value 0) e
    ∙ value-digits (suc n) n (omega arith)

append-Lacks : (c : ℕ) (s t : Str) → Lacks c s → Lacks c t → Lacks c (s ++ t)
append-Lacks c [] t h k = k
append-Lacks c (a ∷ s) t h k = (h.0, append-Lacks c s t h.1 k)

digits-Lacks : (f n : ℕ) → Lacks b'-' (digits f n)
unfolding digits
digits-Lacks zero n = tt
digits-Lacks (suc f) n = elim (Bool-cases (ltb n 10)) [
  | inl p ↦ rw p (omega arith, tt)
  | inr p ↦
      rw p (append-Lacks b'-' (digits f (n / 10)) _ (digits-Lacks f (n / 10)) (omega arith, tt))
]

pub decimal-Lacks : (n : ℕ) → Lacks b'-' (decimal n)
unfolding decimal
decimal-Lacks n = digits-Lacks (suc n) n
