-- ===== src/Server/Audit/Write/Laws.antt =====
-- audit.rs, `write_record`: what is in the file when it returns.
use at_pc.Common.{
  take-drop, length-drop, ℕ, zero, suc, ◌+◌, ◌≤◌, ◌≡◌, ◌≢◌, refl, sym, ap, ◌∙◌, max, Option, none,
  some, [], ◌∷◌, ◌++◌, arith, length, take, drop,
}
use at_pc.Server.Audit.{File}
use at_pc.Server.Audit.Retry.{Attempt, ok, transient, permanent, tried, retry, retry_io}
use at_pc.Server.Audit.Write.{
  Sink, AuditResult, written, out_of_fuel, taken, write, written_or, write_loop, write_record,
}

pub append_nil : (bs : File) → bs ++ [] ≡ bs
append_nil [] = refl
append_nil (b ∷ bs) = ap (λ r. b ∷ r) (append_nil bs)

pub append_assoc : (a b c : File) → (a ++ b) ++ c ≡ a ++ (b ++ c)
append_assoc [] b c = refl
append_assoc (x ∷ a) b c = ap (λ r. x ∷ r) (append_assoc a b c)

take_nil : (n : ℕ) → take {A = ℕ} n [] ≡ []
take_nil zero = refl
take_nil (suc n) = refl

take-add : (m n : ℕ) (bs : File) → take m bs ++ take n (drop m bs) ≡ take (m + n) bs
take-add zero n bs = ap (λ k. take k bs) (omega arith)
take-add (suc m) n [] = take_nil n ∙ sym (take_nil (suc m + n))
take-add (suc m) n (b ∷ bs) =
    let next : suc (m + n) ≡ suc m + n = omega arith in
    ap (λ r. b ∷ r) (take-add m n bs) ∙ ap (λ k. take k (b ∷ bs)) next

-- What one piece does: nothing, or it appends some of the bytes.
abbrev Piece : Sink → File → Sink × Option ℕ → Type 0
Piece before rest (after, none) = (after.bytes ≡ before.bytes) × Unit
Piece before rest (after, some n) = (after.bytes ≡ before.bytes ++ take n rest) × (n ≤ length rest)

same-Piece :
    (sink : Sink) (rest : File) (r : Sink × Option ℕ)
    → Piece (record sink { calls = suc sink.calls }) rest r
    → Piece sink rest r
same-Piece sink rest (after, none) h = h
same-Piece sink rest (after, some n) h = h

tried-Piece :
    (sink : Sink) (rest : File) (again : ℕ → Sink → Sink × Option ℕ) (n : ℕ) (a : Attempt ℕ)
    → ((k : ℕ)
        → Piece
            (record sink { calls = suc sink.calls })
            rest
            (again k (record sink { calls = suc sink.calls })))
    → Piece sink rest (tried again n (taken sink rest a))
tried-Piece sink rest again n (ok m) h = (refl, omega arith)
tried-Piece sink rest again n permanent h = (refl, tt)
tried-Piece sink rest again zero transient h = (refl, tt)
tried-Piece sink rest again (suc n) transient h =
    same-Piece sink rest (again (suc n) (record sink { calls = suc sink.calls })) (h (suc n))

retry-Piece :
    (takes : ℕ → Attempt ℕ) (rest : File) (number n : ℕ) (sink : Sink)
    → Piece sink rest (retry (λ k s. write takes rest s) number n sink)
unfolding retry write
retry-Piece takes rest number zero sink = (refl, tt)
retry-Piece takes rest number (suc n) sink =
    tried-Piece sink rest (λ k s. retry (λ j t. write takes rest t) (number + 1) n s) n
      (takes sink.calls)
      (λ k. retry-Piece takes rest (number + 1) n (record sink { calls = suc sink.calls }))

-- Some of the bytes were appended, in order; all of them, if the result says so.
pub record Wrote (before : Sink) (rest : File) (r : Sink × AuditResult) : Type 0 where
  pub sent : ℕ
  pub prefix : r.0.bytes ≡ before.bytes ++ take sent rest
  pub whole : r.1 ≡ written → take sent rest ≡ rest
  pub ends : r.1 ≢ out_of_fuel

written_or-Wrote :
    (further : Sink → File → Sink × AuditResult) (before : Sink) (rest : File) (r : Sink × Option ℕ)
    → Piece before rest r
    → ((s : Sink) (n : ℕ) → Wrote s (drop (suc n) rest) (further s (drop (suc n) rest)))
    → Wrote before rest (written_or further rest r)
written_or-Wrote further before rest (s, none) p h = record {
  sent = 0;
  prefix = p.0 ∙ sym (append_nil before.bytes);
  whole = λ e. absurd (ground (arith, e));
  ends = λ e. ground (arith, e);
}
written_or-Wrote further before rest (s, some zero) p h = record {
  sent = 0;
  prefix = p.0;
  whole = λ e. absurd (ground (arith, e));
  ends = λ e. ground (arith, e);
}
written_or-Wrote further before rest (s, some (suc n)) p h =
    let w = h s n in
    record {
      sent = suc n + w.sent;
      prefix =
          w.prefix
          ∙ ap (λ b. b ++ take w.sent (drop (suc n) rest)) p.0
          ∙ append_assoc before.bytes (take (suc n) rest) (take w.sent (drop (suc n) rest))
          ∙ ap (λ b. before.bytes ++ b) (take-add (suc n) w.sent rest);
      whole = λ e.
          sym (take-add (suc n) w.sent rest)
          ∙ ap (λ b. take (suc n) rest ++ b) (w.whole e)
          ∙ take-drop (suc n) rest;
      ends = w.ends;
    }

write_loop-Wrote :
    (fuel max_attempts : ℕ) (takes : ℕ → Attempt ℕ) (sink : Sink) (rest : File)
    → length rest ≤ fuel
    → Wrote sink rest (write_loop fuel max_attempts takes sink rest)
unfolding write_loop retry_io
write_loop-Wrote fuel max_attempts takes sink [] l = record {
  sent = 0;
  prefix = sym (append_nil sink.bytes);
  whole = λ e. refl;
  ends = λ e. ground (arith, e);
}
write_loop-Wrote zero max_attempts takes sink (b ∷ bs) l = absurd (omega arith)
write_loop-Wrote (suc fuel) max_attempts takes sink (b ∷ bs) l =
    written_or-Wrote (λ s rest. write_loop fuel max_attempts takes s rest) sink (b ∷ bs) _
      (retry-Piece takes (b ∷ bs) 1 (max max_attempts 1) sink)
      (λ s n.
        write_loop-Wrote fuel max_attempts takes s (drop n bs)
          (ground (arith, l, length-drop n bs)))

-- Whatever the operating system does to each call, the loop ends within as many rounds as the record
-- has bytes; what then was appended to the file is a beginning of the record, and it is the whole
-- record if the result is `Ok`.
pub write_record-Wrote :
    (max_attempts : ℕ) (takes : ℕ → Attempt ℕ) (sink : Sink) (encoded : File)
    → Wrote sink encoded (write_record max_attempts takes sink encoded)
unfolding write_record
write_record-Wrote max_attempts takes sink encoded =
    write_loop-Wrote (length encoded) max_attempts takes sink encoded (omega arith)
