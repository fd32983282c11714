-- ===== src/Server/Audit/Queue.antt =====
-- audit.rs, `AuditLogger`: callers put commands into a bounded queue, and one thread takes them out. Each
-- event is what one of them does at a time; `shutdown` holds the lock on the admission from its
-- start to the answer, and a call that finds the queue full holds it until there is room, so that no
-- other call gets in between.
use at_pc.Common.{
  ℕ, suc, max, Bool, true, false, ◌&&◌, Option, none, some, List, [], ◌∷◌, ◌++◌, ltb, if◌then◌else◌,
  length, take, drop,
}
use at_pc.Server.Audit.{AuditRotation, File, Files}
use at_pc.Server.Audit.Snapshot.{export_jsonl_path}
use at_pc.Server.Audit.Writer.{
  PersistError, AuditOutcome, Os, WriterState, flush_writer, noted, persist_record,
  periodic_flush_writer, begin, set_terminal_error,
}

-- A command has the number of the channel for its reply.
pub data WriterCommand : Type 0 where
  write_bytes : File → WriterCommand
  barrier export_files shut : ℕ → WriterCommand
  tail : ℕ → ℕ → WriterCommand

-- What is sent through a channel; a tail reads the files as they are.
pub data Reply : Type 0 where
  flushed : AuditOutcome → Reply
  exported : File → Reply
  not_exported : PersistError → Reply
  tail_of : Files → ℕ → Reply

pub data AdmissionState : Type 0 where
  disabled running shutting_down : AdmissionState
  closed_with : AuditOutcome → AdmissionState

-- `batch` is what the thread has taken out of the queue. Once it has replied to a shutdown, it has ended.
-- `sending` is the command of the call that is blocked in `sender.send` and holds the lock.
pub record AuditLogger : Type 0 where
  pub state : AdmissionState
  pub sending : Option WriterCommand
  pub queue : List WriterCommand
  pub batch : List WriterCommand
  pub writer : WriterState
  pub shutdown_reply : Option AuditOutcome

-- `waits`: the call goes on once there is room, or the lock is free.
pub data Answer : Type 0 where
  admitted waits shut_down in_progress : Answer
  persist_failed : PersistError → Answer
  shut_with : AuditOutcome → Answer
  replied : ℕ → Reply → Answer
  silent : Answer

pub data Event : Type 0 where
  logs : File → Event
  flushes exports : ℕ → Event
  tails : ℕ → ℕ → Event
  shuts : ℕ → Event
  unblocks ends : Event
  receives : ℕ → Event
  handles : Os → Event
  deadline : Os → Event

abbrev pub is_record : WriterCommand → Bool
is_record (write_bytes bytes) = true
is_record other = false

-- `sender.send`, which blocks while the queue is full.
unfoldable pub send : ℕ → AuditLogger → WriterCommand → AuditLogger × Answer
send capacity l command =
    if ltb (length l.queue) (max capacity 1)
    then (record l { queue = l.queue ++ command ∷ [] }, admitted)
    else (record l { sending = some command }, waits)

abbrev pub refused_or :
    Option PersistError → AuditLogger → AuditLogger × Answer → AuditLogger × Answer
refused_or none l sent = sent
refused_or (some error) l sent = (l, persist_failed error)

-- While it is shutting down, the lock is not free.
unfoldable pub enqueue : ℕ → AuditLogger → WriterCommand → AuditLogger × Answer
unfolding send
enqueue capacity l command = elim l.state [
  | disabled ↦ (l, admitted)
  | running ↦
      refused_or (if is_record command then l.writer.persist_error else none) l
        (send capacity l command)
  | shutting_down ↦ (l, waits)
  | closed_with result ↦ (l, shut_down)
]

abbrev pub sent_shutdown : AuditLogger × Answer → AuditLogger × Answer
sent_shutdown (l, admitted) = (record l { state = shutting_down }, admitted)
sent_shutdown (l, answer) = (l, answer)

-- `shutdown_blocking` up to its wait for the reply; with a full queue it blocks before that.
unfoldable pub shutdown : ℕ → AuditLogger → ℕ → AuditLogger × Answer
unfolding send
shutdown capacity l id = elim l.state [
  | disabled ↦ (l, shut_with none)
  | running ↦ sent_shutdown (send capacity l (shut id))
  | shutting_down ↦ (l, waits)
  | closed_with result ↦ (l, shut_with result)
]

-- A call that needs the lock on the admission.
abbrev pub with_lock :
    Option WriterCommand → AuditLogger → AuditLogger × Answer → AuditLogger × Answer
with_lock none l called = called
with_lock (some command) l called = (l, waits)

abbrev pub goes_on : WriterCommand → AuditLogger × Answer → AuditLogger × Answer
goes_on (shut id) r = sent_shutdown r
goes_on other r = r

abbrev pub woken : ℕ → AuditLogger → Option WriterCommand → AuditLogger × Answer
woken capacity l none = (l, silent)
woken capacity l (some command) =
    goes_on command (send capacity (record l { sending = none }) command)

-- The blocked call tries again, once `send` wakes it up: what it tested before, it does not test again.
unfoldable pub unblock : ℕ → AuditLogger → AuditLogger × Answer
unfolding send
unblock capacity l = elim l.state [
  | disabled ↦ (l, silent)
  | running ↦ woken capacity l l.sending
  | shutting_down ↦ (l, silent)
  | closed_with result ↦ (l, silent)
]

abbrev pub end_with : AuditLogger → Option AuditOutcome → AuditLogger × Answer
end_with l none = (l, waits)
end_with l (some result) = (record l { state = closed_with result }, shut_with result)

-- The rest of it, once the reply is there and the thread has ended.
unfoldable pub end_shutdown : AuditLogger → AuditLogger × Answer
end_shutdown l = elim l.state [
  | disabled ↦ (l, silent)
  | running ↦ (l, silent)
  | shutting_down ↦ end_with l l.shutdown_reply
  | closed_with old ↦ (l, silent)
]

abbrev pub received : AuditLogger → ℕ → List WriterCommand → Option AuditOutcome → AuditLogger
received l more [] none = record l {
  queue = drop (suc more) l.queue;
  batch = take (suc more) l.queue;
}
received l more [] (some result) = l
received l more (command ∷ rest) reply = l

-- `recv_timeout`, and `try_recv` for `more` further commands, while the thread runs.
unfoldable pub receive : AuditLogger → ℕ → AuditLogger
receive l more = received l more l.batch l.shutdown_reply

abbrev pub flush_reply : ℕ → WriterState × AuditOutcome → WriterState × Answer
flush_reply id (w, result) = (noted (w, result), replied id (flushed result))

abbrev pub export_reply : ℕ → WriterState × AuditOutcome → WriterState × Answer
export_reply id (w, none) = (w, replied id (exported (export_jsonl_path w.files)))
export_reply id (w, some error) = (set_terminal_error w error, replied id (not_exported error))

abbrev pub tail_reply : ℕ → ℕ → WriterState × AuditOutcome → WriterState × Answer
tail_reply limit id (w, result) = (noted (w, result), replied id (tail_of w.files limit))

abbrev pub record_done : WriterState × AuditOutcome → WriterState × Answer
record_done (w, none) = (w, silent)
record_done (w, some error) = (record (set_terminal_error w error) { buffer = none }, silent)

abbrev pub is_admitted : Answer → Bool
is_admitted admitted = true
is_admitted other = false

abbrev pub is_running : AdmissionState → Bool
is_running running = true
is_running other = false

abbrev pub record_of : Option WriterCommand → List File
record_of (some (write_bytes encoded)) = encoded ∷ []
record_of other = []

abbrev pub record_in : Option WriterCommand → Event → List File
record_in sending (logs encoded) = encoded ∷ []
record_in sending unblocks = record_of sending
record_in sending other = []

-- Without a path, a record is admitted and forgotten.
abbrev pub admitted_record : Option WriterCommand → AdmissionState → Event → Answer → List File
admitted_record sending state e answer =
    if is_running state && is_admitted answer then record_in sending e else []

unfoldable pub open_logger : ℕ → Files → Os → AuditLogger
unfolding begin
open_logger max_attempts files os = record {
  state = running;
  sending = none;
  queue = [];
  batch = [];
  writer = begin max_attempts files os;
  shutdown_reply = none;
}

module _ (max_attempts : ℕ) (rotation : AuditRotation) where
  -- The arms of the loop, and the end of the thread.
  unfoldable pub handle : WriterState → Os → WriterCommand → WriterState × Answer
  handle w os (write_bytes encoded) =
      record_done (persist_record max_attempts rotation w os encoded)
  handle w os (barrier id) = flush_reply id (flush_writer max_attempts w w.terminal_error os)
  handle w os (export_files id) = export_reply id (flush_writer max_attempts w w.terminal_error os)
  handle w os (tail limit id) =
      tail_reply limit id (flush_writer max_attempts w w.terminal_error os)
  handle w os (shut id) = flush_reply id (flush_writer max_attempts w w.terminal_error os)

  -- A shutdown leaves the rest of the batch, and ends the thread.
  abbrev pub left : WriterCommand → List WriterCommand → List WriterCommand
  left (shut id) rest = []
  left other rest = rest

  abbrev pub last_reply : WriterCommand → Answer → Option AuditOutcome → Option AuditOutcome
  last_reply (shut id) (replied i (flushed result)) before = some result
  last_reply other answer before = before

  abbrev pub take_command :
      AuditLogger → WriterCommand → List WriterCommand → WriterState × Answer → AuditLogger × Answer
  take_command l command rest (w, answer) = (
    record l {
      batch = left command rest;
      writer = w;
      shutdown_reply = last_reply command answer l.shutdown_reply;
    },
    answer,
  )

  abbrev pub first_command :
      AuditLogger → Os → List WriterCommand → Option AuditOutcome → AuditLogger × Answer
  first_command l os [] reply = (l, silent)
  first_command l os (command ∷ rest) none =
      take_command l command rest (handle l.writer os command)
  first_command l os (command ∷ rest) (some result) = (l, silent)

  unfoldable pub next_command : AuditLogger → Os → AuditLogger × Answer
  unfolding handle
  next_command l os = first_command l os l.batch l.shutdown_reply

  abbrev pub at_deadline : AuditLogger → Os → List WriterCommand → Option AuditOutcome → AuditLogger
  at_deadline l os [] none = record l { writer = periodic_flush_writer max_attempts l.writer os }
  at_deadline l os [] (some result) = l
  at_deadline l os (command ∷ rest) reply = l

  -- When nothing came for the length of the interval, or after a batch.
  unfoldable pub on_deadline : AuditLogger → Os → AuditLogger
  unfolding periodic_flush_writer
  on_deadline l os = at_deadline l os l.batch l.shutdown_reply

  module _ (capacity : ℕ) where
    unfoldable pub live_step : AuditLogger → Event → AuditLogger × Answer
    unfolding enqueue shutdown unblock end_shutdown receive next_command
    live_step l (logs encoded) = with_lock l.sending l (enqueue capacity l (write_bytes encoded))
    live_step l (flushes id) = with_lock l.sending l (enqueue capacity l (barrier id))
    live_step l (exports id) = with_lock l.sending l (enqueue capacity l (export_files id))
    live_step l (tails limit id) = with_lock l.sending l (enqueue capacity l (tail limit id))
    live_step l (shuts id) = with_lock l.sending l (shutdown capacity l id)
    live_step l unblocks = unblock capacity l
    live_step l ends = end_shutdown l
    live_step l (receives more) = (receive l more, silent)
    live_step l (handles os) = next_command l os
    live_step l (deadline os) = (on_deadline l os, silent)

    unfoldable pub run : AuditLogger → List Event → AuditLogger
    unfolding live_step
    run l [] = l
    run l (e ∷ es) = run (live_step l e).0 es

    -- The records that were admitted, in order.
    unfoldable pub accepted : AuditLogger → List Event → List File
    unfolding live_step
    accepted l [] = []
    accepted l (e ∷ es) =
        let (l', answer) = live_step l e in
        let rest = accepted l' es in admitted_record l.sending l.state e answer ++ rest
