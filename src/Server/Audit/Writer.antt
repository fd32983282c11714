-- ===== src/Server/Audit/Writer.antt =====
-- audit.rs, what the writer's thread does with a command. What the operating system does during one
-- command is an argument. The open file has a buffer in front: of a buffer that is not flushed, or whose
-- flush fails, some bytes may reach the file all the same.
use at_pc.Common.{
  ℕ, ◌+◌, min, Bool, true, false, ◌&&◌, Option, none, some, [], ◌++◌, ltb, if◌then◌else◌, length,
  take, drop,
}
use at_pc.Server.Audit.{AuditRotation, File, Files, set_file}
use at_pc.Server.Audit.Retry.{
  Attempt, ok, transient, permanent, Done, done, retry_io, rotate_retrying,
}
use at_pc.Server.Audit.Write.{
  Sink, AuditResult, written, io_failed, zero_bytes, out_of_fuel, write_record,
}

pub data PersistError : Type 0 where
  open_failed append_failed flush_failed sync_failed rotate_failed : PersistError

-- `AuditResult`: `none` is `Ok`.
abbrev pub AuditOutcome : Type 0
AuditOutcome = Option PersistError

pub record Os : Type 0 where
  pub opens : ℕ → Attempt Done
  pub opens_again : ℕ → Attempt Done
  pub measures : Bool
  pub takes : ℕ → Attempt ℕ
  pub spills : ℕ
  pub flushes : ℕ → Attempt Done
  pub syncs : ℕ → Attempt Done
  pub renames : ℕ → ℕ → Bool
  pub is_transient : ℕ → Bool

-- `buffer` is there while the file is open.
pub record WriterState : Type 0 where
  pub files : Files
  pub buffer : Option File
  pub current_bytes : ℕ
  pub terminal_error : Option PersistError
  pub persist_error : Option PersistError

abbrev pub or_empty : Option File → File
or_empty none = []
or_empty (some f) = f

-- The active file with more bytes at its end.
abbrev pub appended : Files → File → Files
appended files more = set_file files 0 (some (or_empty (files 0) ++ more))

abbrev pub spill : WriterState → ℕ → File → WriterState
spill w k buffer = record w {
  files = appended w.files (take k buffer);
  buffer = some (drop k buffer);
}

abbrev is_ok : Option Done → Bool
is_ok none = false
is_ok (some d) = true

unfoldable pub granted : ℕ → (ℕ → Attempt Done) → Bool
granted max_attempts answers = is_ok (retry_io max_attempts (λ n (s : Done). (s, answers n)) done).1

abbrev pub saturating_add : ℕ → ℕ → ℕ
saturating_add a b = min (a + b) 18446744073709551615

-- `std::fs::metadata(path).map(|meta| meta.len()).unwrap_or(0)`
abbrev pub size_of : Files → Bool → ℕ
size_of files measures = if measures then length (or_empty (files 0)) else 0

abbrev pub first_of : Option PersistError → Option PersistError → Option PersistError
first_of none e = e
first_of (some t) e = some t

unfoldable pub set_terminal_error : WriterState → PersistError → WriterState
set_terminal_error w error =
    let terminal = first_of w.terminal_error (some error) in
    record w { terminal_error = terminal; persist_error = first_of w.persist_error terminal }

-- An error of the command becomes the terminal one, if there is none yet.
abbrev pub noted : WriterState × AuditOutcome → WriterState
noted (w, none) = w
noted (w, some error) = set_terminal_error w error

module _ (max_attempts : ℕ) where
  abbrev pub opened : WriterState → Bool → Bool → WriterState × AuditOutcome
  opened w true measures = (
    record w {
      files = appended w.files [];
      buffer = some [];
      current_bytes = size_of w.files measures;
    },
    none,
  )
  opened w false measures = (w, some open_failed)

  abbrev pub opened_if : WriterState → Option File → Bool → Bool → WriterState × AuditOutcome
  opened_if w none opens measures = opened w opens measures
  opened_if w (some buffer) opens measures = (w, none)

  unfoldable pub ensure_writer :
      WriterState → (ℕ → Attempt Done) → Bool → WriterState × AuditOutcome
  ensure_writer w opens measures = opened_if w w.buffer (granted max_attempts opens) measures

  -- `writer.flush()` and, if it goes through, `writer.sync_data()`
  abbrev pub flush_buffer : WriterState → Os → Option File → WriterState × AuditOutcome
  flush_buffer w os none = (w, none)
  flush_buffer w os (some buffer) =
      if granted max_attempts os.flushes
      then (
        record w { files = appended w.files buffer; buffer = some [] },
        if granted max_attempts os.syncs then none else some sync_failed,
      )
      else (spill w os.spills buffer, some flush_failed)

  unfoldable pub flush_writer : WriterState → Option PersistError → Os → WriterState × AuditOutcome
  flush_writer w terminal_error os =
      let (w', result) = flush_buffer w os w.buffer in (w', first_of terminal_error result)

  abbrev pub flush_once : WriterState → ℕ → Option File → Attempt Done → WriterState
  flush_once w spills none attempt = w
  flush_once w spills (some buffer) (ok d) = record w {
    files = appended w.files buffer;
    buffer = some [];
  }
  flush_once w spills (some buffer) transient = spill w spills buffer
  flush_once w spills (some buffer) permanent = spill w spills buffer

  unfoldable pub periodic_flush_writer : WriterState → Os → WriterState
  periodic_flush_writer w os = flush_once w os.spills w.buffer (os.flushes 1)

  abbrev pub rotated : WriterState → Files × Option Done → WriterState × AuditOutcome
  rotated w (files, none) = (record w { files = files }, some rotate_failed)
  rotated w (files, some d) = (record w { files = files }, none)

  abbrev pub closed_file : WriterState → WriterState
  closed_file w = record w { buffer = none; current_bytes = 0 }

  unfoldable pub rotate_active_writer : WriterState → Os → ℕ → WriterState × AuditOutcome
  unfolding flush_writer
  rotate_active_writer w os retain_files =
      let (w', result) = flush_writer w none os in
      elim result [
        | none ↦
            rotated (closed_file w')
              (rotate_retrying max_attempts retain_files os.renames os.is_transient w'.files)
        | some error ↦ (closed_file w', some error)
      ]

  -- What `write_record` leaves in the buffer, part of which may reach the file.
  abbrev pub appends : WriterState → Os → ℕ → Sink × AuditResult → WriterState × AuditOutcome
  appends w os record_len (sink, written) = (
    record (spill w os.spills sink.bytes) {
      current_bytes = saturating_add w.current_bytes record_len;
    },
    none,
  )
  appends w os record_len (sink, io_failed) = (spill w os.spills sink.bytes, some append_failed)
  appends w os record_len (sink, zero_bytes) = (spill w os.spills sink.bytes, some append_failed)
  appends w os record_len (sink, out_of_fuel) = (spill w os.spills sink.bytes, some append_failed)

  unfoldable pub append_record : WriterState → Os → File → WriterState × AuditOutcome
  unfolding write_record
  append_record w os encoded =
      appends w os (length encoded) (
        write_record max_attempts os.takes (record { bytes = or_empty w.buffer; calls = 0 })
          encoded)

  abbrev pub after :
      WriterState × AuditOutcome
      → (WriterState → WriterState × AuditOutcome)
      → WriterState × AuditOutcome
  after (w, some error) next = (w, some error)
  after (w, none) next = next w

  module _ (rotation : AuditRotation) where
    unfoldable pub is_due : WriterState → ℕ → Bool
    is_due w record_len =
        ltb 0 w.current_bytes
        && (ltb 0 rotation.max_file_bytes
            && ltb rotation.max_file_bytes (saturating_add w.current_bytes record_len))

    unfoldable pub persist_record : WriterState → Os → File → WriterState × AuditOutcome
    unfolding ensure_writer rotate_active_writer append_record
    persist_record w os encoded = after (ensure_writer w os.opens os.measures) (λ w'.
        if is_due w' (length encoded)
        then after (rotate_active_writer w' os rotation.retain_files) (λ w''.
          after (ensure_writer w'' os.opens_again os.measures) (λ w3. append_record w3 os encoded))
        else append_record w' os encoded)

-- The thread's first steps; the open file keeps what it has.
unfoldable pub begin : ℕ → Files → Os → WriterState
unfolding ensure_writer set_terminal_error
begin max_attempts files os =
    let w : WriterState = record {
      files = files;
      buffer = none;
      current_bytes = 0;
      terminal_error = none;
      persist_error = none;
    } in
    record (noted (ensure_writer max_attempts w os.opens os.measures)) {
      current_bytes = size_of files os.measures;
    }
