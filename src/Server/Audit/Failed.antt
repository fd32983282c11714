-- ===== src/Server/Audit/Failed.antt =====
-- audit.rs: a failure of the writer that was noted stays noted.
use at_pc.Common.{
  ℕ, ◌≡◌, ◌≢◌, refl, sym, ap, subst, ◌∙◌, Option, none, some, List, [], ◌∷◌, arith, inl, inr,
}
use at_pc.Server.Audit.{AuditRotation}
use at_pc.Server.Audit.Held.{flush_writer-Flushed, periodic_flush_writer-Stays}
use at_pc.Server.Audit.Writer.{
  PersistError, AuditOutcome, Os, WriterState, flush_writer, noted, set_terminal_error, first_of,
  persist_record, periodic_flush_writer,
}
use at_pc.Server.Audit.Queue.{
  Answer, unblocks, unblock, with_lock, WriterCommand, write_bytes, barrier, export_files, shut,
  tail, AuditLogger, Event, logs, flushes, exports, tails, shuts, ends, receives, handles, deadline,
  send, enqueue, shutdown, end_shutdown, receive, record_done, handle, first_command, next_command,
  received, at_deadline, export_reply, on_deadline, live_step, run,
}
use at_pc.Server.Audit.Kept.{unblock_cases, enqueue_cases, AdmissionState-cases}
use at_pc.Server.Audit.Durable.{first_of-found}
use at_pc.Server.Audit.Errors.{Errors, Stays-Errors, persist_record-Errors}

-- A failure was noted, for the thread and for the callers.
abbrev pub Failed : WriterState → Type 0
Failed w = (w.terminal_error ≢ none) × (w.persist_error ≢ none)

Errors-Failed : (w w' : WriterState) → Errors w w' → Failed w → Failed w'
Errors-Failed w w' (t, p) (f, g) = (λ h. f (sym t ∙ h), λ h. g (sym p ∙ h))

first_of-kept : (a b : Option PersistError) → b ≢ none → first_of a b ≢ none
first_of-kept none b h e = h e
first_of-kept (some x) b h e = ground (arith, e)

pub set_terminal_error-Failed :
    (w : WriterState) (e : PersistError) → Failed (set_terminal_error w e)
unfolding set_terminal_error
set_terminal_error-Failed w e = (
  first_of-found w.terminal_error e,
  first_of-kept w.persist_error (first_of w.terminal_error (some e))
      (first_of-found w.terminal_error e),
)

noted-Failed : (r : WriterState × AuditOutcome) → Failed r.0 → Failed (noted r)
noted-Failed (w, none) h = h
noted-Failed (w, some e) h = set_terminal_error-Failed w e

record_done-Failed : (r : WriterState × AuditOutcome) → Failed r.0 → Failed (record_done r).0
record_done-Failed (w, none) h = h
record_done-Failed (w, some e) h = set_terminal_error-Failed w e

export_reply-Failed :
    (id : ℕ) (r : WriterState × AuditOutcome) → Failed r.0 → Failed (export_reply id r).0
export_reply-Failed id (w, none) h = h
export_reply-Failed id (w, some e) h = set_terminal_error-Failed w e

module _ (max_attempts : ℕ) (rotation : AuditRotation) where
  flushed-Failed :
      (w : WriterState) (os : Os)
      → Failed w
      → Failed (flush_writer max_attempts w w.terminal_error os).0
  flushed-Failed w os h =
      Errors-Failed w (flush_writer max_attempts w w.terminal_error os).0
        (Stays-Errors w (flush_writer max_attempts w w.terminal_error os).0
          (flush_writer-Flushed 0 max_attempts w w.terminal_error os).0.0)
        h

  handle-Failed :
      (w : WriterState) (os : Os) (c : WriterCommand)
      → Failed w
      → Failed (handle max_attempts rotation w os c).0
  unfolding handle
  handle-Failed w os (write_bytes encoded) h =
      record_done-Failed (persist_record max_attempts rotation w os encoded) (
        Errors-Failed w (persist_record max_attempts rotation w os encoded).0
          (persist_record-Errors max_attempts rotation w os encoded) h)
  handle-Failed w os (barrier id) h =
      noted-Failed (flush_writer max_attempts w w.terminal_error os) (flushed-Failed w os h)
  handle-Failed w os (shut id) h =
      noted-Failed (flush_writer max_attempts w w.terminal_error os) (flushed-Failed w os h)
  handle-Failed w os (tail limit id) h =
      noted-Failed (flush_writer max_attempts w w.terminal_error os) (flushed-Failed w os h)
  handle-Failed w os (export_files id) h =
      export_reply-Failed id (flush_writer max_attempts w w.terminal_error os)
        (flushed-Failed w os h)

  first_command-Failed :
      (l : AuditLogger) (os : Os) (b : List WriterCommand) (reply : Option AuditOutcome)
      → Failed l.writer
      → Failed (first_command max_attempts rotation l os b reply).0.writer
  first_command-Failed l os [] reply h = h
  first_command-Failed l os (c ∷ rest) none h = handle-Failed l.writer os c h
  first_command-Failed l os (c ∷ rest) (some result) h = h

  at_deadline-Failed :
      (l : AuditLogger) (os : Os) (b : List WriterCommand) (reply : Option AuditOutcome)
      → Failed l.writer
      → Failed (at_deadline max_attempts rotation l os b reply).writer
  at_deadline-Failed l os [] none h =
      Errors-Failed l.writer (periodic_flush_writer max_attempts l.writer os)
        (Stays-Errors l.writer (periodic_flush_writer max_attempts l.writer os)
          (periodic_flush_writer-Stays 0 max_attempts l.writer os))
        h
  at_deadline-Failed l os [] (some result) h = h
  at_deadline-Failed l os (c ∷ rest) reply h = h

  received-Failed :
      (l : AuditLogger) (more : ℕ) (b : List WriterCommand) (reply : Option AuditOutcome)
      → (received l more b reply).writer ≡ l.writer
  received-Failed l more [] none = refl
  received-Failed l more [] (some result) = refl
  received-Failed l more (c ∷ rest) reply = refl

  module _ (capacity : ℕ) where
    enqueue-writer :
        (l : AuditLogger) (c : WriterCommand) → (enqueue capacity l c).0.writer ≡ l.writer
    enqueue-writer l c = elim (enqueue_cases 0 [] [] capacity l c) [
      | inl (o, stays, refused) ↦ ap (λ x. x.writer) stays
      | inr (inl (stays, off)) ↦ ap (λ x. x.writer) stays
      | inr (inr (puts, taken, on)) ↦ ap (λ x. x.writer) puts
    ]

    shutdown-writer : (l : AuditLogger) (id : ℕ) → (shutdown capacity l id).0.writer ≡ l.writer
    unfolding shutdown send
    shutdown-writer l id = elim (AdmissionState-cases l.state) [
      | inl e ↦ ground (arith, e)
      | inr (inl e) ↦ ground (arith, e)
      | inr (inr (inl e)) ↦ ground (arith, e)
      | inr (inr (inr (r, e))) ↦ ground (arith, e)
    ]

    locked-writer :
        (l : AuditLogger) (o : Option WriterCommand) (r : AuditLogger × Answer)
        → r.0.writer ≡ l.writer
        → (with_lock o l r).0.writer ≡ l.writer
    locked-writer l none r same = same
    locked-writer l (some c) r same = refl

    unblock-writer : (l : AuditLogger) → (unblock capacity l).0.writer ≡ l.writer
    unblock-writer l = elim (unblock_cases 0 [] [] capacity l) [
      | inl (stays, refused) ↦ ap (λ x. x.writer) stays
      | inr (c, st, blocked, puts, taken, on) ↦ ap (λ x. x.writer) puts
    ]

    end_shutdown-writer : (l : AuditLogger) → (end_shutdown l).0.writer ≡ l.writer
    unfolding end_shutdown
    end_shutdown-writer l = elim (AdmissionState-cases l.state) [
      | inl e ↦ ground (arith, e)
      | inr (inl e) ↦ ground (arith, e)
      | inr (inr (inl e)) ↦ ground (arith, e)
      | inr (inr (inr (r, e))) ↦ ground (arith, e)
    ]

    pub step-Failed :
        (l : AuditLogger) (e : Event)
        → Failed l.writer
        → Failed (live_step max_attempts rotation capacity l e).0.writer
    unfolding live_step next_command receive on_deadline
    step-Failed l (logs encoded) h =
        subst Failed
          (sym (
            locked-writer l l.sending (enqueue capacity l (write_bytes encoded))
              (enqueue-writer l (write_bytes encoded))))
          h
    step-Failed l (flushes id) h =
        subst Failed
          (sym (
            locked-writer l l.sending (enqueue capacity l (barrier id))
              (enqueue-writer l (barrier id))))
          h
    step-Failed l (exports id) h =
        subst Failed
          (sym (
            locked-writer l l.sending (enqueue capacity l (export_files id))
              (enqueue-writer l (export_files id))))
          h
    step-Failed l (tails limit id) h =
        subst Failed
          (sym (
            locked-writer l l.sending (enqueue capacity l (tail limit id))
              (enqueue-writer l (tail limit id))))
          h
    step-Failed l (shuts id) h =
        subst Failed
          (sym (locked-writer l l.sending (shutdown capacity l id) (shutdown-writer l id))) h
    step-Failed l unblocks h = subst Failed (sym (unblock-writer l)) h
    step-Failed l ends h = subst Failed (sym (end_shutdown-writer l)) h
    step-Failed l (receives more) h =
        subst Failed (sym (received-Failed l more l.batch l.shutdown_reply)) h
    step-Failed l (handles os) h = first_command-Failed l os l.batch l.shutdown_reply h
    step-Failed l (deadline os) h = at_deadline-Failed l os l.batch l.shutdown_reply h

    pub run-Failed :
        (l : AuditLogger) (es : List Event)
        → Failed l.writer
        → Failed (run max_attempts rotation capacity l es).writer
    unfolding run
    run-Failed l [] h = h
    run-Failed l (e ∷ es) h =
        run-Failed (live_step max_attempts rotation capacity l e).0 es (step-Failed l e h)
