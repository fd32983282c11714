-- ===== src/Server/Audit/Sticky.antt =====
-- audit.rs: a record that could not be written is not silently lost.
use at_pc.Common.{
  false, ℕ, ◌≡◌, ◌≢◌, refl, ap, ◌∙◌, Option, none, some, List, [], ◌∷◌, ◌++◌, arith, inl, inr,
  Option-cases,
}
use at_pc.Server.Audit.{AuditRotation, File}
use at_pc.Server.Audit.Writer.{PersistError, AuditOutcome, Os, WriterState, persist_record}
use at_pc.Server.Audit.Queue.{
  Answer, silent, unblocks, unblock, with_lock, record_of, record_in, is_record, WriterCommand,
  write_bytes, barrier, export_files, tail, flushed, AuditLogger, replied, Event, logs, flushes,
  exports, tails, shuts, ends, receives, handles, deadline, send, enqueue, shutdown, end_shutdown,
  receive, record_done, handle, first_command, next_command, received, at_deadline, on_deadline,
  live_step, run, accepted, admitted_record,
}
use at_pc.Server.Audit.Kept.{unblock_cases, list_nil, list_assoc, AdmissionState-cases}
use at_pc.Server.Audit.Flush.{first_done}
use at_pc.Server.Audit.Failed.{Failed, set_terminal_error-Failed, step-Failed, run-Failed}

module _ (max_attempts : ℕ) (rotation : AuditRotation) where
  module _ (capacity : ℕ) where
    -- The record of the blocked call, if it has one, is the only one that is still to be admitted.
    abbrev Told : AuditLogger → Event → AuditLogger × Answer → Type 0
    Told l e (l', answer) =
        admitted_record l.sending l.state e answer ++ record_of l'.sending ≡ record_of l.sending

    locked-Told :
        (l : AuditLogger) (e : Event) (o : Option WriterCommand) (r : AuditLogger × Answer)
        → l.sending ≡ o
        → (o ≡ none → Told l e r)
        → Told l e (with_lock o l r)
    locked-Told l e none r same told = told refl
    locked-Told l e (some c) r same told = ground arith

    log-Told :
        (l : AuditLogger) (encoded : File)
        → Failed l.writer
        → l.sending ≡ none
        → Told l (logs encoded) (enqueue capacity l (write_bytes encoded))
    unfolding enqueue
    log-Told l encoded h free = elim (AdmissionState-cases l.state) [
      | inl e ↦ ground (arith, e, free)
      | inr (inl e) ↦ elim (Option-cases l.writer.persist_error) [
        | inl clean ↦ absurd (h.1 clean)
        | inr (error, found) ↦ ground (arith, e, found, free)
      ]
      | inr (inr (inl e)) ↦ ground (arith, e, free)
      | inr (inr (inr (r, e))) ↦ ground (arith, e, free)
    ]

    quiet-Told :
        (l : AuditLogger) (e : Event) (r : AuditLogger × Answer)
        → record_in l.sending e ≡ []
        → record_of r.0.sending ≡ record_of l.sending
        → Told l e r
    quiet-Told l e (l', answer) no_record same = ground (arith, no_record, same)

    enqueue-sending :
        (l : AuditLogger) (c : WriterCommand)
        → is_record c ≡ false
        → record_of (some c) ≡ []
        → l.sending ≡ none
        → record_of (enqueue capacity l c).0.sending ≡ record_of l.sending
    unfolding enqueue send
    enqueue-sending l c quiet no_record free = elim (AdmissionState-cases l.state) [
      | inl e ↦ ground (arith, e, free)
      | inr (inl e) ↦ ground (arith, e, free, quiet, no_record)
      | inr (inr (inl e)) ↦ ground (arith, e, free)
      | inr (inr (inr (r, e))) ↦ ground (arith, e, free)
    ]

    shutdown-sending :
        (l : AuditLogger) (id : ℕ)
        → l.sending ≡ none
        → record_of (shutdown capacity l id).0.sending ≡ record_of l.sending
    unfolding shutdown send
    shutdown-sending l id free = elim (AdmissionState-cases l.state) [
      | inl e ↦ ground (arith, e, free)
      | inr (inl e) ↦ ground (arith, e, free)
      | inr (inr (inl e)) ↦ ground (arith, e, free)
      | inr (inr (inr (r, e))) ↦ ground (arith, e, free)
    ]

    unblock-Told : (l : AuditLogger) → Told l unblocks (unblock capacity l)
    unblock-Told l = elim (unblock_cases 0 [] [] capacity l) [
      | inl (stays, refused) ↦
          let none_in : admitted_record l.sending l.state unblocks (unblock capacity l).1 ≡ [] =
            ground (arith, refused) in
          ap (λ rs. rs ++ record_of (unblock capacity l).0.sending) none_in
          ∙ ap (λ x. record_of x.sending) stays
      | inr (c, st, blocked, puts, taken, on) ↦
          let it : admitted_record l.sending l.state unblocks (unblock capacity l).1
              ≡ record_of l.sending =
            ground (arith, taken, on) in
          ap (λ rs. rs ++ record_of (unblock capacity l).0.sending) it
          ∙ ap (λ x. record_of l.sending ++ record_of x.sending) puts
          ∙ list_nil (record_of l.sending)
    ]

    end_shutdown-sending : (l : AuditLogger) → (end_shutdown l).0.sending ≡ l.sending
    unfolding end_shutdown
    end_shutdown-sending l = elim (AdmissionState-cases l.state) [
      | inl e ↦ ground (arith, e)
      | inr (inl e) ↦ ground (arith, e)
      | inr (inr (inl e)) ↦ ground (arith, e)
      | inr (inr (inr (r, e))) ↦ ground (arith, e)
    ]

    received-sending :
        (l : AuditLogger) (more : ℕ) (b : List WriterCommand) (reply : Option AuditOutcome)
        → (received l more b reply).sending ≡ l.sending
    received-sending l more [] none = refl
    received-sending l more [] (some result) = refl
    received-sending l more (c ∷ rest) reply = refl

    first_command-sending :
        (l : AuditLogger) (os : Os) (b : List WriterCommand) (reply : Option AuditOutcome)
        → (first_command max_attempts rotation l os b reply).0.sending ≡ l.sending
    first_command-sending l os [] reply = refl
    first_command-sending l os (c ∷ rest) none = refl
    first_command-sending l os (c ∷ rest) (some result) = refl

    at_deadline-sending :
        (l : AuditLogger) (os : Os) (b : List WriterCommand) (reply : Option AuditOutcome)
        → (at_deadline max_attempts rotation l os b reply).sending ≡ l.sending
    at_deadline-sending l os [] none = refl
    at_deadline-sending l os [] (some result) = refl
    at_deadline-sending l os (c ∷ rest) reply = refl

    -- A call that puts a command without a record.
    call-Told :
        (l : AuditLogger) (e : Event) (c : WriterCommand)
        → record_in l.sending e ≡ []
        → is_record c ≡ false
        → record_of (some c) ≡ []
        → Told l e (with_lock l.sending l (enqueue capacity l c))
    call-Told l e c no_record quiet empty =
        locked-Told l e l.sending (enqueue capacity l c) refl (λ free.
          quiet-Told l e (enqueue capacity l c) no_record (enqueue-sending l c quiet empty free))

    step-Told :
        (l : AuditLogger) (e : Event)
        → Failed l.writer
        → Told l e (live_step max_attempts rotation capacity l e)
    unfolding live_step next_command receive on_deadline
    step-Told l (logs encoded) h =
        locked-Told l (logs encoded) l.sending (enqueue capacity l (write_bytes encoded)) refl
          (λ free. log-Told l encoded h free)
    step-Told l (flushes id) h = call-Told l (flushes id) (barrier id) refl refl refl
    step-Told l (exports id) h = call-Told l (exports id) (export_files id) refl refl refl
    step-Told l (tails limit id) h = call-Told l (tails limit id) (tail limit id) refl refl refl
    step-Told l (shuts id) h =
        locked-Told l (shuts id) l.sending (shutdown capacity l id) refl (λ free.
          quiet-Told l (shuts id) (shutdown capacity l id) refl (shutdown-sending l id free))
    step-Told l unblocks h = unblock-Told l
    step-Told l ends h =
        quiet-Told l ends (end_shutdown l) refl (ap record_of (end_shutdown-sending l))
    step-Told l (receives more) h =
        quiet-Told l (receives more) (receive l more, silent) refl
          (ap record_of (received-sending l more l.batch l.shutdown_reply))
    step-Told l (handles os) h =
        quiet-Told l (handles os) (next_command max_attempts rotation l os) refl
          (ap record_of (first_command-sending l os l.batch l.shutdown_reply))
    step-Told l (deadline os) h =
        quiet-Told l (deadline os) (on_deadline max_attempts rotation l os, silent) refl
          (ap record_of (at_deadline-sending l os l.batch l.shutdown_reply))

    accepted-Failed :
        (l : AuditLogger) (es : List Event)
        → Failed l.writer
        → accepted max_attempts rotation capacity l es
            ++ record_of (run max_attempts rotation capacity l es).sending
          ≡ record_of l.sending
    unfolding accepted run
    accepted-Failed l [] h = refl
    accepted-Failed l (e ∷ es) h =
        let (l', answer) = live_step max_attempts rotation capacity l e in
        let now = admitted_record l.sending l.state e answer in
        list_assoc now (accepted max_attempts rotation capacity l' es)
          (record_of (run max_attempts rotation capacity l' es).sending)
        ∙ ap (λ rs. now ++ rs)
            (accepted-Failed l' es (step-Failed max_attempts rotation capacity l e h))
        ∙ step-Told l e h

    command-Failed :
        (l : AuditLogger) (os : Os) (encoded : File) (rest : List WriterCommand)
        (b : List WriterCommand) (reply : Option AuditOutcome) (error : PersistError)
        → b ≡ write_bytes encoded ∷ rest
        → reply ≡ none
        → (persist_record max_attempts rotation l.writer os encoded).1 ≡ some error
        → Failed (first_command max_attempts rotation l os b reply).0.writer
    unfolding handle
    command-Failed l os encoded rest b reply error e live h =
        rw e (rw live (found (persist_record max_attempts rotation l.writer os encoded) h))
      where
        found : (r : WriterState × AuditOutcome) → r.1 ≡ some error → Failed (record_done r).0
        found (w, none) p = absurd (ground (arith, p))
        found (w, some x) p = set_terminal_error-Failed w x

    -- A record that was admitted and could not be written is not lost in silence: from then on, whatever
    -- happens, no further record is admitted, but for that of the one call that may then be blocked on a
    -- full queue, and no flush and no shutdown answers `Ok`.
    pub lost_is_told :
        (l : AuditLogger) (os : Os) (encoded : File) (rest : List WriterCommand)
        (error : PersistError) (es : List Event) (os' : Os) (id : ℕ)
        → l.batch ≡ write_bytes encoded ∷ rest
        → l.shutdown_reply ≡ none
        → (persist_record max_attempts rotation l.writer os encoded).1 ≡ some error
        → let l' = (next_command max_attempts rotation l os).0 in
          (accepted max_attempts rotation capacity l' es
              ++ record_of (run max_attempts rotation capacity l' es).sending
            ≡ record_of l'.sending)
          × ((next_command max_attempts rotation (run max_attempts rotation capacity l' es) os').1
              ≢ replied id (flushed none))
    unfolding next_command
    lost_is_told l os encoded rest error es os' id e live h =
        let l' = (next_command max_attempts rotation l os).0 in
        let after_run = run max_attempts rotation capacity l' es in
        let failed = command-Failed l os encoded rest l.batch l.shutdown_reply error e live h in
        (
          accepted-Failed l' es failed,
          λ ok.
              (run-Failed max_attempts rotation capacity l' es failed).0
                (first_done 0 max_attempts rotation after_run os' after_run.batch
                  after_run.shutdown_reply id ok).1,
        )
