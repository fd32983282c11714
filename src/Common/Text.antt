-- ===== src/Common/Text.antt =====
-- Rust's `&str` and `String` as the list of their code points, with the operations of `str` that the
-- program calls: `strip_prefix`, `split_once`, `trim` and `eq_ignore_ascii_case`. An ASCII text is also
-- the list of its bytes; where the program counts the bytes of a text it refuses all others anyway.
use Prim.Native.Nat.{ℕ}
use Prim.Native.Char.{code}
use Prim.Native.String.{String}
use mathlib.Core.Path.{◌≡◌, refl}
use mathlib.Core.Logic.{◌↔◌, ◌≢◌}
use mathlib.Core.Bool.{Bool, true, false, ◌&&◌, ◌||◌}
use mathlib.Core.Option.{Option, none, some}
use mathlib.Core.List.{List, [], ◌∷◌, ◌++◌}
use native.Mathlib.Omega.{arith}
use Prim.Native.Nat.{◌+◌}
use at_pc.Common.Tests.{leb, Eq, nat_beq, if◌then◌else◌}

abbrev pub Str : Type 0
Str = List ℕ

-- The code points of a literal.
abbrev pub ascii : String → Str
ascii (String.◌∷◌ letter rest) = code letter ∷ ascii rest
ascii String.[] = []

unfoldable pub str_beq : Str → Str → Bool
str_beq [] [] = true
str_beq [] (b ∷ bs) = false
str_beq (a ∷ as') [] = false
str_beq (a ∷ as') (b ∷ bs) = nat_beq a b && str_beq as' bs

pub str_beq-eq : (s t : Str) → str_beq s t ≡ true → s ≡ t
unfolding str_beq
str_beq-eq [] [] h = refl
str_beq-eq [] (b ∷ bs) h = cc
str_beq-eq (a ∷ as') [] h = cc
str_beq-eq (a ∷ as') (b ∷ bs) h = ground (arith, str_beq-eq as' bs)

pub str_beq_self : (s : Str) → str_beq s s ≡ true
unfolding str_beq
str_beq_self [] = refl
str_beq_self (a ∷ as') = ground (arith, str_beq_self as')

pub str_beq_iff : (s t : Str) → (str_beq s t ≡ true) ↔ (s ≡ t)
str_beq_iff s t = (str_beq-eq s t, λ e. rw e (str_beq_self t))

instance abbrev pub str_eq : Eq Str
str_eq = record { same = str_beq; sound = str_beq-eq; complete = str_beq_self }

unfoldable pub strip_prefix : Str → Str → Option Str
strip_prefix [] s = some s
strip_prefix (p ∷ ps) [] = none
strip_prefix (p ∷ ps) (c ∷ s) = let rest = strip_prefix ps s in if nat_beq p c then rest else none

pub strip_prefix-append : (p s : Str) → strip_prefix p (p ++ s) ≡ some s
unfolding strip_prefix
strip_prefix-append [] s = refl
strip_prefix-append (a ∷ p) s = ground (arith, strip_prefix-append p s)

pub strip_prefix-eq : (p s r : Str) → strip_prefix p s ≡ some r → s ≡ p ++ r
unfolding strip_prefix
strip_prefix-eq [] s r h = ground arith
strip_prefix-eq (a ∷ p) [] r h = cc
strip_prefix-eq (a ∷ p) (c ∷ s) r h = ground (arith, strip_prefix-eq p s r)

abbrev cons_first : ℕ → Option (Str × Str) → Option (Str × Str)
cons_first a none = none
cons_first a (some (l, r)) = some (a ∷ l, r)

-- The text before and after the first `c`.
unfoldable pub split_once : ℕ → Str → Option (Str × Str)
split_once c [] = none
split_once c (a ∷ s) =
    let rest = cons_first a (split_once c s) in if nat_beq a c then some ([], s) else rest

abbrev pub Lacks : ℕ → Str → Type 0
Lacks c [] = Unit
Lacks c (a ∷ s) = (a ≢ c) × Lacks c s

pub split_once-append : (c : ℕ) (l r : Str) → Lacks c l → split_once c (l ++ c ∷ r) ≡ some (l, r)
unfolding split_once
split_once-append c [] r h = ground arith
split_once-append c (a ∷ l) r h = ground (arith, split_once-append c l r h.1)

pub split_once-eq :
    (c : ℕ) (s l r : Str) → split_once c s ≡ some (l, r) → (s ≡ l ++ c ∷ r) × Lacks c l
unfolding split_once
split_once-eq c [] l r h = ground arith
split_once-eq c (a ∷ s) [] r h = ground arith
split_once-eq c (a ∷ s) (b ∷ l) r h = ground (arith, split_once-eq c s l r)

-- `char::is_whitespace`
unfoldable pub is_whitespace : ℕ → Bool
is_whitespace c =
    (leb 9 c && leb c 13)
    || nat_beq c 0x20
    || nat_beq c 0x85
    || nat_beq c 0xa0
    || nat_beq c 0x1680
    || (leb 0x2000 c && leb c 0x200a)
    || nat_beq c 0x2028
    || nat_beq c 0x2029
    || nat_beq c 0x202f
    || nat_beq c 0x205f
    || nat_beq c 0x3000

unfoldable pub trim_start : Str → Str
trim_start [] = []
trim_start (c ∷ s) = let rest = trim_start s in if is_whitespace c then rest else c ∷ s

-- A character, unless it is a space with nothing behind it.
abbrev pub unless_space : ℕ → Str → Str
unless_space c [] = if is_whitespace c then [] else c ∷ []
unless_space c (d ∷ s) = c ∷ d ∷ s

unfoldable pub trim_end : Str → Str
trim_end [] = []
trim_end (c ∷ s) = unless_space c (trim_end s)

unfoldable pub trim : Str → Str
unfolding trim_start trim_end
trim s = trim_end (trim_start s)

unfoldable pub is_empty : Str → Bool
is_empty [] = true
is_empty (c ∷ s) = false

-- `to_ascii_lowercase` of one character
unfoldable pub lower : ℕ → ℕ
lower c = if leb b'A' c && leb c b'Z' then c + 32 else c

unfoldable pub eq_ignore_ascii_case : Str → Str → Bool
unfolding lower
eq_ignore_ascii_case [] [] = true
eq_ignore_ascii_case [] (d ∷ t) = false
eq_ignore_ascii_case (c ∷ s) [] = false
eq_ignore_ascii_case (c ∷ s) (d ∷ t) = nat_beq (lower c) (lower d) && eq_ignore_ascii_case s t

-- The order of `str`: that of the bytes in UTF-8 is that of the code points.
unfoldable pub str_le : Str → Str → Bool
str_le [] t = true
str_le (c ∷ s) [] = false
str_le (c ∷ s) (d ∷ t) = let rest = str_le s t in if nat_beq c d then rest else leb c d

pub str_le_self : (s : Str) → str_le s s ≡ true
unfolding str_le
str_le_self [] = refl
str_le_self (c ∷ s) = ground (arith, str_le_self s)
