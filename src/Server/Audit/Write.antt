-- ===== src/Server/Audit/Write.antt =====
-- audit.rs, `write_record`: a record is written in pieces, each of which is tried again after a transient
-- error. `takes` says of each call what the operating system does: how many bytes it takes at most,
-- or with which error it fails, in which case it takes none.
pub mod Laws
use at_pc.Common.{
  ℕ, zero, suc, ◌+◌, ◌-◌, ◌≤◌, ◌<◌, ◌≡◌, ◌≢◌, refl, sym, ap, subst, ◌∙◌, min, max, Bool, true,
  false, Option, none, some, List, [], ◌∷◌, ◌++◌, nat_beq, arith, ◌⊎◌, inl, inr, Option-cases,
  Bool-cases, if◌then◌else◌, length, take, drop,
}
use at_pc.Server.Audit.{File}
use at_pc.Server.Audit.Retry.{Attempt, ok, transient, permanent, tried, retry, retry_io}

-- What has reached the file, and the number of calls so far.
pub record Sink : Type 0 where
  pub bytes : File
  pub calls : ℕ

pub data AuditResult : Type 0 where
  written io_failed zero_bytes out_of_fuel : AuditResult

abbrev pub taken : Sink → File → Attempt ℕ → Sink × Attempt ℕ
taken sink rest (ok n) = (
  record { bytes = sink.bytes ++ take (min n (length rest)) rest; calls = suc sink.calls },
  ok (min n (length rest)),
)
taken sink rest transient = (record sink { calls = suc sink.calls }, transient)
taken sink rest permanent = (record sink { calls = suc sink.calls }, permanent)

-- `writer.write(&encoded[offset..])`
unfoldable pub write : (ℕ → Attempt ℕ) → File → Sink → Sink × Attempt ℕ
write takes rest sink = taken sink rest (takes sink.calls)

abbrev pub written_or :
    (Sink → File → Sink × AuditResult) → File → Sink × Option ℕ → Sink × AuditResult
written_or further rest (sink, none) = (sink, io_failed)
written_or further rest (sink, some zero) = (sink, zero_bytes)
written_or further rest (sink, some (suc n)) = further sink (drop (suc n) rest)

-- `while offset < encoded.len()`; `rest` is `encoded[offset..]`.
unfoldable pub write_loop : ℕ → ℕ → (ℕ → Attempt ℕ) → Sink → File → Sink × AuditResult
unfolding write retry_io
write_loop fuel max_attempts takes sink [] = (sink, written)
write_loop zero max_attempts takes sink (b ∷ bs) = (sink, out_of_fuel)
write_loop (suc fuel) max_attempts takes sink (b ∷ bs) =
    written_or (λ s rest. write_loop fuel max_attempts takes s rest) (b ∷ bs)
      (retry_io max_attempts (λ number s. write takes (b ∷ bs) s) sink)

unfoldable pub write_record : ℕ → (ℕ → Attempt ℕ) → Sink → File → Sink × AuditResult
unfolding write_loop
write_record max_attempts takes sink encoded =
    write_loop (length encoded) max_attempts takes sink encoded
