-- ===== src/Server/Audit/Flush.antt =====
-- audit.rs: a flush or a shutdown that answers `Ok`.
use at_pc.Common.{
  ℕ, suc, max, ◌≡◌, ◌≢◌, refl, sym, ap, ◌∙◌, Option, none, some, List, [], ◌∷◌, ◌++◌, arith, All,
}
use at_pc.Server.Audit.{AuditRotation, File, Files}
use at_pc.Server.Audit.Write.Laws.{append_nil}
use at_pc.Server.Audit.Trail.{trail}
use at_pc.Server.Audit.Held.{held, flush_writer-Flushed}
use at_pc.Server.Audit.Writer.{
  AuditOutcome, Os, WriterState, flush_writer, noted, set_terminal_error, persist_record, or_empty,
}
use at_pc.Server.Audit.Queue.{
  WriterCommand, write_bytes, barrier, export_files, shut, tail, flushed, AuditLogger, replied,
  silent, Event, record_done, handle, first_command, next_command, flush_reply, export_reply, run,
  accepted, open_logger,
}
use at_pc.Server.Audit.Kept.{records, concat, Kept}
use at_pc.Server.Audit.Writer.{ensure_writer, begin}
use at_pc.Server.Audit.Held.{ensure_writer-Stays}
use at_pc.Server.Audit.Durable.{rotated_away, Granted, run-Kept}

noted-held : (n : ℕ) (r : WriterState × AuditOutcome) → held n (noted r) ≡ held n r.0
unfolding set_terminal_error
noted-held n (w, none) = refl
noted-held n (w, some error) = refl

open-Kept :
    (n max_attempts : ℕ) (files : Files) (os : Os)
    → Kept n (trail files (suc n)) [] [] (open_logger max_attempts files os)
unfolding open_logger begin
open-Kept n max_attempts files os = λ live fine.
    let w : WriterState = record {
      files = files;
      buffer = none;
      current_bytes = 0;
      terminal_error = none;
      persist_error = none;
    } in
    let same =
      noted-held n (ensure_writer max_attempts w os.opens os.measures)
      ∙ (ensure_writer-Stays n max_attempts w os.opens os.measures).0 in
    ([], refl, sym same)

noted-ok : (r : WriterState × AuditOutcome) → r.1 ≡ none → noted r ≡ r.0
noted-ok (w, none) h = refl
noted-ok (w, some error) h = absurd (ground (arith, h))

export_reply-other :
    (i : ℕ) (r : WriterState × AuditOutcome) (id : ℕ)
    → (export_reply i r).1 ≢ replied id (flushed none)
export_reply-other i (w, none) id h = ground (arith, h)
export_reply-other i (w, some error) id h = ground (arith, h)

record_done-silent : (r : WriterState × AuditOutcome) → (record_done r).1 ≡ silent
record_done-silent (w, none) = refl
record_done-silent (w, some error) = refl

module _ (n max_attempts : ℕ) (rotation : AuditRotation) where
  -- Which command was answered by `Ok`, and what the flush did.
  abbrev pub Done : AuditLogger → Option AuditOutcome → AuditLogger → Type 0
  Done l reply l' =
      (reply ≡ none)
      × (l.writer.terminal_error ≡ none)
      × (held n l'.writer ≡ held n l.writer)
      × (or_empty l'.writer.buffer ≡ [])

  flush_done :
      (l l' : AuditLogger) (os : Os) (id i : ℕ)
      → l'.writer ≡ noted (flush_writer max_attempts l.writer l.writer.terminal_error os)
      → (flush_reply i (flush_writer max_attempts l.writer l.writer.terminal_error os)).1
        ≡ replied id (flushed none)
      → Done l none l'
  flush_done l l' os id i e h =
      let r = flush_writer max_attempts l.writer l.writer.terminal_error os in
      let ((stays, empty), fine) =
        flush_writer-Flushed n max_attempts l.writer l.writer.terminal_error os in
      let went : r.1 ≡ none = ground (arith, h) in
      (
        refl,
        fine went,
        ap (λ w. held n w) e ∙ noted-held n r ∙ stays.0,
        ap (λ w. or_empty w.buffer) (e ∙ noted-ok r went) ∙ empty went,
      )

  pub first_done :
      (l : AuditLogger) (os : Os) (b : List WriterCommand) (reply : Option AuditOutcome) (id : ℕ)
      → (first_command max_attempts rotation l os b reply).1 ≡ replied id (flushed none)
      → Done l reply (first_command max_attempts rotation l os b reply).0
  unfolding handle
  first_done l os [] reply id h = absurd (ground (arith, h))
  first_done l os (c ∷ rest) (some result) id h = absurd (ground (arith, h))
  first_done l os (write_bytes encoded ∷ rest) none id h = absurd (
      ground
        (arith, h, record_done-silent (persist_record max_attempts rotation l.writer os encoded)))
  first_done l os (barrier i ∷ rest) none id h =
      flush_done l (first_command max_attempts rotation l os (barrier i ∷ rest) none).0 os id i refl
        h
  first_done l os (shut i ∷ rest) none id h =
      flush_done l (first_command max_attempts rotation l os (shut i ∷ rest) none).0 os id i refl h
  first_done l os (export_files i ∷ rest) none id h =
      absurd
        (export_reply-other i (flush_writer max_attempts l.writer l.writer.terminal_error os) id h)
  first_done l os (tail limit i ∷ rest) none id h = absurd (ground (arith, h))

  -- While the operating system grants every rename of a rotation at once: when a flush or a shutdown answers
  -- `Ok`, the bytes of every record that was admitted before it, but not of those still behind it, are in
  -- the files, whole and in the order of admission, after what the files held at the start; only the
  -- bytes of the oldest file that is kept are gone, at each rotation, and those from the beginning.
  pub flush_keeps :
      (capacity : ℕ) (files : Files) (os : Os) (es : List Event) (os' : Os) (id : ℕ)
      → suc n ≡ max rotation.retain_files 1
      → All Granted es
      → (next_command max_attempts rotation
          (run max_attempts rotation capacity (open_logger max_attempts files os) es)
          os').1
        ≡ replied id (flushed none)
      → let l = open_logger max_attempts files os in
        let l' = run max_attempts rotation capacity l es in
        let after = (next_command max_attempts rotation l' os').0.writer.files in
        (stored : List File) × (accepted max_attempts rotation capacity l es
          ≡ stored ++ records (l'.batch ++ l'.queue))
        × (trail files (suc n) ++ concat stored
            ≡ rotated_away n max_attempts rotation capacity l es ++ trail after (suc n))
  unfolding next_command
  flush_keeps capacity files os es os' id one_more granted h =
      let l = open_logger max_attempts files os in
      let l' = run max_attempts rotation capacity l es in
      let l'' = (next_command max_attempts rotation l' os').0 in
      let (live, fine, same, empty) = first_done l' os' l'.batch l'.shutdown_reply id h in
      let gone = rotated_away n max_attempts rotation capacity l es in
      let (stored, split, equal) =
        run-Kept n (trail files (suc n)) max_attempts rotation one_more capacity [] [] l es granted
          (open-Kept n max_attempts files os) live fine in
      (
        stored,
        split,
        equal
            ∙ ap (λ b. gone ++ b)
                (sym same
                  ∙ ap (λ b. trail l''.writer.files (suc n) ++ b) empty
                  ∙ append_nil (trail l''.writer.files (suc n))),
      )
