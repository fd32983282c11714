-- ===== src/Common/Split.antt =====
-- More operations of `str`: `split`, `starts_with`, `ends_with`, `to_ascii_uppercase`.
use Prim.Native.Nat.{◌-◌}
use mathlib.Core.Path.{◌≡◌}
use mathlib.Core.Bool.{Bool, true, false, ◌&&◌, ◌||◌}
use mathlib.Core.Option.{Option, none, some}
use mathlib.Core.List.{List, [], ◌∷◌, ◌++◌}
use Prim.Native.Nat.{ℕ}
use native.Mathlib.Omega.{arith}
use at_pc.Common.Tests.{leb, nat_beq, if◌then◌else◌}
use at_pc.Common.Text.{Str, Lacks, str_beq, strip_prefix}

-- The pieces after the first character `c`, when the text goes on with the given pieces.
abbrev pub before_pieces : ℕ → List Str → List Str
before_pieces c [] = (c ∷ []) ∷ []
before_pieces c (p ∷ ps) = (c ∷ p) ∷ ps

-- `s.split(c)`
unfoldable pub split : ℕ → Str → List Str
split c [] = [] ∷ []
split c (a ∷ s) = let rest = split c s in if nat_beq a c then [] ∷ rest else before_pieces a rest

abbrev is_some {ℓ} : {A : Type ℓ} → Option A → Bool
is_some none = false
is_some (some _) = true

unfoldable pub starts_with : Str → Str → Bool
starts_with prefix s = is_some (strip_prefix prefix s)

unfoldable pub ends_with : Str → Str → Bool
ends_with suffix [] = str_beq [] suffix
ends_with suffix (c ∷ s) = str_beq (c ∷ s) suffix || ends_with suffix s

-- `to_ascii_uppercase`
abbrev upper : ℕ → ℕ
upper c = if leb b'a' c && leb c b'z' then c - 32 else c

unfoldable pub to_ascii_uppercase : Str → Str
to_ascii_uppercase [] = []
to_ascii_uppercase (c ∷ s) = upper c ∷ to_ascii_uppercase s

pub split-append : (c : ℕ) (s t : Str) → Lacks c s → split c (s ++ c ∷ t) ≡ s ∷ split c t
unfolding split
split-append c [] t h = ground arith
split-append c (a ∷ s) t h = ground (arith, split-append c s t h.1)
