-- ===== src/Server/Router/Machine/CallId.antt =====
-- router.rs, `generate_call_id`: no two calls have one id, as long as the counter does not wrap around.
use at_pc.Common.{
  ℕ, ◌≤◌, ◌<◌, ◌≡◌, ◌≢◌, ap, sym, ◌∙◌, Str, ascii, decimal, decimal_injective, decimal-Lacks,
  strip_prefix, strip_prefix-append, split_once, split_once-append, Option, none, some, [], arith,
}
use at_pc.Server.Router.Invoke.{call_id}

abbrev pair_of : Option Str → Option (Str × Str)
pair_of none = none
pair_of (some s) = split_once b'-' s

seq_of : Option (Str × Str) → Str
seq_of none = []
seq_of (some (l, r)) = r

call_id-seq :
    (millis seq : ℕ)
    → seq_of (pair_of (strip_prefix (ascii "call-") (call_id millis seq))) ≡ decimal seq
unfolding seq_of
call_id-seq millis seq =
    ap (λ o. seq_of (pair_of o)) (strip_prefix-append (ascii "call-") _)
    ∙ ap seq_of (split_once-append b'-' (decimal millis) (decimal seq) (decimal-Lacks millis))

pub call_id_injective : (m n i j : ℕ) → call_id m i ≡ call_id n j → i ≡ j
call_id_injective m n i j e = decimal_injective i j (
    sym (call_id-seq m i)
    ∙ ap (λ s. seq_of (pair_of (strip_prefix (ascii "call-") s))) e
    ∙ call_id-seq n j)

-- The id was drawn when the counter was below `n`.
pub record Drawn (n : ℕ) (id : Str) : Type 0 where
  pub millis : ℕ
  pub seq : ℕ
  pub is_id : id ≡ call_id millis seq
  pub seq_below : seq < n

pub ne-Drawn : (n millis : ℕ) (id : Str) → Drawn n id → call_id millis n ≢ id
ne-Drawn n millis id d e =
    let q : n ≡ d.seq = call_id_injective millis d.millis n d.seq (e ∙ d.is_id) in
    let l : d.seq < n = d.seq_below in omega arith

pub mono-Drawn : (n m : ℕ) (id : Str) → n ≤ m → Drawn n id → Drawn m id
mono-Drawn n m id l d = record {
  millis = d.millis;
  seq = d.seq;
  is_id = d.is_id;
  seq_below = let k : d.seq < n = d.seq_below in omega arith;
}
