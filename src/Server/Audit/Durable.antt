-- ===== src/Server/Audit/Durable.antt =====
-- audit.rs: what an answer of the writer's thread says about the files.
use at_pc.Common.{
  ℕ, suc, max, ◌≡◌, ◌≢◌, refl, sym, ap, subst, ◌∙◌, true, Option, none, some, List, [], ◌∷◌, ◌++◌,
  arith, take-drop, All,
}
use at_pc.Server.Audit.{AuditRotation, File}
use at_pc.Server.Audit.Write.Laws.{append_nil, append_assoc}
use at_pc.Server.Audit.Held.{held, Stays, flush_writer-Flushed, periodic_flush_writer-Stays}
use at_pc.Server.Audit.Grows.{taken_away, Grows, persist_record-Grows}
use at_pc.Server.Audit.Writer.{
  PersistError, AuditOutcome, Os, WriterState, flush_writer, noted, set_terminal_error, first_of,
  persist_record, periodic_flush_writer,
}
use at_pc.Server.Audit.Queue.{
  waits, unblocks, with_lock, enqueue, WriterCommand, write_bytes, barrier, export_files, shut,
  tail, AuditLogger, Answer, silent, Event, logs, flushes, exports, tails, shuts, ends, receives,
  handles, deadline, shutdown, end_shutdown, receive, record_done, handle, first_command,
  next_command, received, at_deadline, export_reply, on_deadline, record_in, live_step, run,
  accepted, admitted_record,
}
use at_pc.Server.Audit.Kept.{
  unblock-Kept, records, concat, list_assoc, records-append, concat-append, Kept, same-Kept,
  enqueue-Kept, shutdown-Kept, end_shutdown-Kept,
}

pub first_of-found : (o : Option PersistError) (e : PersistError) → first_of o (some e) ≢ none
first_of-found none e h = ground (arith, h)
first_of-found (some t) e h = ground (arith, h)

-- After an error there is a terminal one.
pub set_terminal_error-found :
    (w : WriterState) (e : PersistError) → (set_terminal_error w e).terminal_error ≢ none
unfolding set_terminal_error
set_terminal_error-found w e h = first_of-found w.terminal_error e h

export_reply-noted : (id : ℕ) (r : WriterState × AuditOutcome) → (export_reply id r).0 ≡ noted r
export_reply-noted id (w, none) = refl
export_reply-noted id (w, some error) = refl

-- Every rename of a rotation is granted at once.
abbrev pub Granted : Event → Type 0
Granted (handles os) = os.renames 1 ≡ (λ g. true)
Granted other = Unit

-- The bytes that a rotation takes away when the thread handles the next command.
abbrev pub gone_first : ℕ → ℕ → AuditRotation → AuditLogger → Os → List WriterCommand → File
gone_first n max_attempts rotation l os (write_bytes encoded ∷ rest) =
    taken_away n max_attempts rotation l.writer os encoded
gone_first n max_attempts rotation l os other = []

abbrev pub gone_for :
    ℕ → ℕ → AuditRotation → AuditLogger → Os → List WriterCommand → Option AuditOutcome → File
gone_for n max_attempts rotation l os batch none = gone_first n max_attempts rotation l os batch
gone_for n max_attempts rotation l os batch (some result) = []

abbrev pub gone_in : ℕ → ℕ → AuditRotation → AuditLogger → Event → File
gone_in n max_attempts rotation l (handles os) =
    gone_for n max_attempts rotation l os l.batch l.shutdown_reply
gone_in n max_attempts rotation l other = []

-- What the rotations of a run take away: the oldest file that is kept, at each of them.
unfoldable pub rotated_away : ℕ → ℕ → AuditRotation → ℕ → AuditLogger → List Event → File
rotated_away n max_attempts rotation capacity l [] = []
rotated_away n max_attempts rotation capacity l (e ∷ es) =
    let rest =
      rotated_away n max_attempts rotation capacity (live_step max_attempts rotation capacity l e).0
        es in
    gone_in n max_attempts rotation l e ++ rest

module _ (n : ℕ) (base gone : File) where
  received-Kept :
      (acc : List File) (l : AuditLogger) (more : ℕ) (b : List WriterCommand)
      (reply : Option AuditOutcome)
      → l.batch ≡ b
      → Kept n base gone acc l
      → Kept n base gone acc (received l more b reply)
  received-Kept acc l more [] none e kept = λ live fine.
      let (stored, split, equal) = kept live fine in
      (
        stored,
        split
            ∙ ap (λ b. stored ++ records (b ++ l.queue)) e
            ∙ ap (λ q. stored ++ records q) (sym (take-drop (suc more) l.queue)),
        equal,
      )
  received-Kept acc l more [] (some result) e kept = kept
  received-Kept acc l more (c ∷ cs) reply e kept = kept

  -- The writer alone has moved, and lost nothing.
  Stays-Kept :
      (acc : List File) (l : AuditLogger) (w : WriterState)
      → Stays n l.writer w
      → Kept n base gone acc l
      → Kept n base gone acc (record l { writer = w })
  Stays-Kept acc l w (same, t, p) kept live fine =
      let (stored, split, equal) = kept live (sym t ∙ fine) in
      (stored, split, equal ∙ ap (λ b. gone ++ b) (sym same))

  module _ (max_attempts : ℕ) (rotation : AuditRotation)
      (one_more : suc n ≡ max rotation.retain_files 1) where
    quiet-Kept :
        (acc : List File) (l : AuditLogger) (e : Event) (r : AuditLogger × Answer)
        → record_in l.sending e ≡ []
        → Kept n base gone acc r.0
        → Kept n base gone (acc ++ admitted_record l.sending l.state e r.1) r.0
    quiet-Kept acc l e (l', answer) no_record kept =
        same-Kept n base gone acc l' l' (admitted_record l.sending l.state e answer) refl
          (ground (arith, no_record)) kept

    locked-Kept :
        (acc : List File) (l : AuditLogger) (e : Event) (o : Option WriterCommand)
        (r : AuditLogger × Answer)
        → Kept n base gone acc l
        → Kept n base gone (acc ++ admitted_record l.sending l.state e r.1) r.0
        → let (l', answer) = with_lock o l r in
          Kept n base gone (acc ++ admitted_record l.sending l.state e answer) l'
    locked-Kept acc l e none r kept called = called
    locked-Kept acc l e (some c) r kept called =
        same-Kept n base gone acc l l (admitted_record l.sending l.state e waits) refl
          (ground arith) kept

    at_deadline-Kept :
        (acc : List File) (l : AuditLogger) (os : Os) (b : List WriterCommand)
        (reply : Option AuditOutcome)
        → Kept n base gone acc l
        → Kept n base gone acc (at_deadline max_attempts rotation l os b reply)
    at_deadline-Kept acc l os [] none kept =
        Stays-Kept acc l (periodic_flush_writer max_attempts l.writer os)
          (periodic_flush_writer-Stays n max_attempts l.writer os) kept
    at_deadline-Kept acc l os [] (some result) kept = kept
    at_deadline-Kept acc l os (c ∷ cs) reply kept = kept

    -- A reply to a flush: no record moves.
    noted-Kept :
        (acc : List File) (l : AuditLogger) (c : WriterCommand) (rest : List WriterCommand)
        (r : WriterState × AuditOutcome) (reply : Option AuditOutcome)
        → l.batch ≡ c ∷ rest
        → records (c ∷ rest) ≡ records rest
        → Stays n l.writer r.0
        → Kept n base gone acc l
        → (reply ≡ none → l.shutdown_reply ≡ none)
        → Kept n base gone acc (record l { batch = rest; writer = noted r; shutdown_reply = reply })
    noted-Kept acc l c rest (w, none) reply e skips (same, t, p) kept was live fine =
        let (stored, split, equal) = kept (was live) (sym t ∙ fine) in
        (
          stored,
          split
              ∙ ap (λ b. stored ++ records (b ++ l.queue)) e
              ∙ ap (λ q. stored ++ q)
                  (records-append (c ∷ rest) l.queue
                    ∙ ap (λ q. q ++ records l.queue) skips
                    ∙ sym (records-append rest l.queue)),
          equal ∙ ap (λ b. gone ++ b) (sym same),
        )
    noted-Kept acc l c rest (w, some error) reply e skips stays kept was live fine =
        absurd (set_terminal_error-found w error fine)

    written-Kept :
        (acc : List File) (l : AuditLogger) (encoded : File) (rest : List WriterCommand)
        (w : WriterState) (old : File)
        → l.batch ≡ write_bytes encoded ∷ rest
        → Grows n old l.writer encoded w
        → Kept n base gone acc l
        → Kept n base (gone ++ old) acc (record l { batch = rest; writer = w })
    written-Kept acc l encoded rest w old e (grown, t, p) kept live fine =
        let (stored, split, equal) = kept live (sym t ∙ fine) in
        (
          stored ++ encoded ∷ [],
          split
              ∙ ap (λ b. stored ++ records (b ++ l.queue)) e
              ∙ sym (list_assoc stored (encoded ∷ []) (records (rest ++ l.queue))),
          ap (λ b. base ++ b)
                (concat-append stored (encoded ∷ [])
                  ∙ ap (λ b. concat stored ++ b) (append_nil encoded))
              ∙ sym (append_assoc base (concat stored) encoded)
              ∙ ap (λ b. b ++ encoded) equal
              ∙ append_assoc gone (held n l.writer) encoded
              ∙ ap (λ b. gone ++ b) grown
              ∙ sym (append_assoc gone old (held n w)),
        )

    record_done-Kept :
        (acc : List File) (l : AuditLogger) (encoded : File) (rest : List WriterCommand)
        (r : WriterState × AuditOutcome) (old : File)
        → l.batch ≡ write_bytes encoded ∷ rest
        → (r.1 ≡ none → Grows n old l.writer encoded r.0)
        → Kept n base gone acc l
        → Kept n base (gone ++ old) acc (record l { batch = rest; writer = (record_done r).0 })
    record_done-Kept acc l encoded rest (w, none) old e grows kept =
        written-Kept acc l encoded rest w old e (grows refl) kept
    record_done-Kept acc l encoded rest (w, some error) old e grows kept =
        λ live fine. absurd (set_terminal_error-found w error fine)

    none_gone :
        (acc : List File) (l : AuditLogger)
        → Kept n base gone acc l
        → Kept n base (gone ++ []) acc l
    none_gone acc l kept = subst (λ g. Kept n base g acc l) (sym (append_nil gone)) kept

    first_command-Kept :
        (acc : List File) (l : AuditLogger) (os : Os) (b : List WriterCommand)
        (reply : Option AuditOutcome)
        → l.batch ≡ b
        → os.renames 1 ≡ (λ g. true)
        → Kept n base gone acc l
        → Kept n base
            (gone ++ gone_for n max_attempts rotation l os b reply)
            acc
            (first_command max_attempts rotation l os b reply).0
    unfolding handle
    first_command-Kept acc l os [] none e granted kept = none_gone acc l kept
    first_command-Kept acc l os [] (some result) e granted kept = none_gone acc l kept
    first_command-Kept acc l os (write_bytes encoded ∷ rest) none e granted kept =
        record_done-Kept acc l encoded rest
          (persist_record max_attempts rotation l.writer os encoded)
          (taken_away n max_attempts rotation l.writer os encoded) e
          (persist_record-Grows n max_attempts rotation one_more l.writer os encoded granted) kept
    first_command-Kept acc l os (barrier id ∷ rest) none e granted kept =
        none_gone acc
          (record l {
            batch = rest;
            writer = noted (flush_writer max_attempts l.writer l.writer.terminal_error os);
          })
          (noted-Kept acc l (barrier id) rest
            (flush_writer max_attempts l.writer l.writer.terminal_error os) l.shutdown_reply e refl
            (flush_writer-Flushed n max_attempts l.writer l.writer.terminal_error os).0.0 kept
            (λ h. h))
    first_command-Kept acc l os (tail limit id ∷ rest) none e granted kept =
        none_gone acc
          (record l {
            batch = rest;
            writer = noted (flush_writer max_attempts l.writer l.writer.terminal_error os);
          })
          (noted-Kept acc l (tail limit id) rest
            (flush_writer max_attempts l.writer l.writer.terminal_error os) l.shutdown_reply e refl
            (flush_writer-Flushed n max_attempts l.writer l.writer.terminal_error os).0.0 kept
            (λ h. h))
    first_command-Kept acc l os (export_files id ∷ rest) none e granted kept =
        let r = flush_writer max_attempts l.writer l.writer.terminal_error os in
        none_gone acc
          (record l {
            batch = rest;
            writer =
                (export_reply id (flush_writer max_attempts l.writer l.writer.terminal_error os)).0;
          })
          (subst (λ w. Kept n base gone acc (record l { batch = rest; writer = w }))
            (sym (export_reply-noted id r))
            (noted-Kept acc l (export_files id) rest r l.shutdown_reply e refl
              (flush_writer-Flushed n max_attempts l.writer l.writer.terminal_error os).0.0 kept
              (λ h. h)))
    first_command-Kept acc l os (shut id ∷ rest) none e granted kept =
        λ live fine. absurd (ground (arith, live))
    first_command-Kept acc l os (c ∷ rest) (some result) e granted kept = none_gone acc l kept

    module _ (capacity : ℕ) where
      handled-Kept :
          (acc : List File) (l : AuditLogger) (os : Os)
          → Kept n base
              (gone ++ gone_in n max_attempts rotation l (handles os))
              acc
              (next_command max_attempts rotation l os).0
          → Kept n base
              (gone ++ gone_in n max_attempts rotation l (handles os))
              (acc
                ++ admitted_record l.sending l.state
                    (handles os)
                    (next_command max_attempts rotation l os).1)
              (next_command max_attempts rotation l os).0
      handled-Kept acc l os kept =
          same-Kept n base (gone ++ gone_in n max_attempts rotation l (handles os)) acc
            (next_command max_attempts rotation l os).0 _ _ refl (ground arith) kept

      still :
          (acc : List File) (l : AuditLogger) (e : Event)
          → gone_in n max_attempts rotation l e ≡ []
          → (let (l', answer) = live_step max_attempts rotation capacity l e in
              Kept n base gone (acc ++ admitted_record l.sending l.state e answer) l')
          → let (l', answer) = live_step max_attempts rotation capacity l e in
            Kept n base
              (gone ++ gone_in n max_attempts rotation l e)
              (acc ++ admitted_record l.sending l.state e answer)
              l'
      still acc l e nothing kept =
          let (l', answer) = live_step max_attempts rotation capacity l e in
          subst (λ g. Kept n base g (acc ++ admitted_record l.sending l.state e answer) l')
            (sym (ap (λ b. gone ++ b) nothing ∙ append_nil gone)) kept

      pub step-Kept :
          (acc : List File) (l : AuditLogger) (e : Event)
          → Granted e
          → Kept n base gone acc l
          → let (l', answer) = live_step max_attempts rotation capacity l e in
            Kept n base
              (gone ++ gone_in n max_attempts rotation l e)
              (acc ++ admitted_record l.sending l.state e answer)
              l'
      unfolding live_step next_command receive on_deadline
      step-Kept acc l (logs encoded) g kept = still acc l (logs encoded) refl (
          locked-Kept acc l (logs encoded) l.sending (enqueue capacity l (write_bytes encoded)) kept
            (enqueue-Kept n base gone capacity acc l (write_bytes encoded) (logs encoded) refl
              kept))
      step-Kept acc l (flushes id) g kept = still acc l (flushes id) refl (
          locked-Kept acc l (flushes id) l.sending (enqueue capacity l (barrier id)) kept
            (enqueue-Kept n base gone capacity acc l (barrier id) (flushes id) refl kept))
      step-Kept acc l (exports id) g kept = still acc l (exports id) refl (
          locked-Kept acc l (exports id) l.sending (enqueue capacity l (export_files id)) kept
            (enqueue-Kept n base gone capacity acc l (export_files id) (exports id) refl kept))
      step-Kept acc l (tails limit id) g kept = still acc l (tails limit id) refl (
          locked-Kept acc l (tails limit id) l.sending (enqueue capacity l (tail limit id)) kept
            (enqueue-Kept n base gone capacity acc l (tail limit id) (tails limit id) refl kept))
      step-Kept acc l (shuts id) g kept = still acc l (shuts id) refl (
          locked-Kept acc l (shuts id) l.sending (shutdown capacity l id) kept (
            quiet-Kept acc l (shuts id) (shutdown capacity l id) refl
              (shutdown-Kept n base gone capacity acc l id kept)))
      step-Kept acc l unblocks g kept =
          still acc l unblocks refl (unblock-Kept n base gone capacity acc l kept)
      step-Kept acc l ends g kept =
          still acc l ends refl
            (quiet-Kept acc l ends (end_shutdown l) refl (end_shutdown-Kept n base gone acc l kept))
      step-Kept acc l (receives more) g kept = still acc l (receives more) refl (
          quiet-Kept acc l (receives more) (receive l more, silent) refl
            (received-Kept acc l more l.batch l.shutdown_reply refl kept))
      step-Kept acc l (handles os) g kept =
          handled-Kept acc l os (first_command-Kept acc l os l.batch l.shutdown_reply refl g kept)
      step-Kept acc l (deadline os) g kept = still acc l (deadline os) refl (
          quiet-Kept acc l (deadline os) (on_deadline max_attempts rotation l os, silent) refl
            (at_deadline-Kept acc l os l.batch l.shutdown_reply kept))

module _ (n : ℕ) (base : File) (max_attempts : ℕ) (rotation : AuditRotation)
    (one_more : suc n ≡ max rotation.retain_files 1) (capacity : ℕ) where
  pub run-Kept :
      (gone : File) (acc : List File) (l : AuditLogger) (es : List Event)
      → All Granted es
      → Kept n base gone acc l
      → Kept n base
          (gone ++ rotated_away n max_attempts rotation capacity l es)
          (acc ++ accepted max_attempts rotation capacity l es)
          (run max_attempts rotation capacity l es)
  unfolding run accepted rotated_away
  run-Kept gone acc l [] g kept =
      same-Kept n base (gone ++ []) acc l l [] refl refl
        (subst (λ g. Kept n base g acc l) (sym (append_nil gone)) kept)
  run-Kept gone acc l (e ∷ es) (g, gs) kept =
      let (l', answer) = live_step max_attempts rotation capacity l e in
      let away = gone_in n max_attempts rotation l e in
      let rest =
        run-Kept (gone ++ away) (acc ++ admitted_record l.sending l.state e answer) l' es gs
          (step-Kept n base gone max_attempts rotation one_more capacity acc l e g kept) in
      subst
        (λ a.
          Kept n base a
            (acc
              ++ (admitted_record l.sending l.state e answer
                  ++ accepted max_attempts rotation capacity l' es))
            (run max_attempts rotation capacity l' es))
        (append_assoc gone away (rotated_away n max_attempts rotation capacity l' es))
        (subst
          (λ a.
            Kept n base ((gone ++ away) ++ rotated_away n max_attempts rotation capacity l' es) a
              (run max_attempts rotation capacity l' es))
          (list_assoc acc (admitted_record l.sending l.state e answer)
            (accepted max_attempts rotation capacity l' es))
          rest)
