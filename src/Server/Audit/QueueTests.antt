-- ===== src/Server/Audit/QueueTests.antt =====
-- audit.rs, the writer's thread: two records and a flush, and a record that cannot be written.
use at_pc.Common.{
  ◌≡◌, ◌≢◌, refl, true, none, some, List, [], ◌∷◌, ◌++◌, nat_beq, arith, if◌then◌else◌,
}
use at_pc.Server.Audit.{AuditRotation, File, Files}
use at_pc.Server.Audit.Retry.{Attempt, ok, permanent, Done, done}
use at_pc.Server.Audit.Trail.{trail}
use at_pc.Server.Audit.Writer.{Os, append_failed}
use at_pc.Server.Audit.Queue.{
  record_of, AuditLogger, Event, logs, flushes, receives, handles, replied, flushed, run, accepted,
  next_command, open_logger,
}
use at_pc.Server.Audit.Kept.{records, concat}
use at_pc.Server.Audit.Durable.{rotated_away}
use at_pc.Server.Audit.Flush.{flush_keeps}
use at_pc.Server.Audit.Sticky.{lost_is_told}

abbrev rotation : AuditRotation
rotation = record { max_file_bytes = 3; retain_files = 2 }

abbrev one_file : Files
one_file g = if nat_beq g 0 then some (1 ∷ 2 ∷ []) else none

abbrev well : Os
well = record {
  opens = λ n. ok done;
  opens_again = λ n. ok done;
  measures = true;
  takes = λ n. ok 100;
  spills = 1;
  flushes = λ n. ok done;
  syncs = λ n. ok done;
  renames = λ n g. true;
  is_transient = λ n. true;
}

abbrev disk_full : Os
disk_full = record well { takes = λ n. permanent }

abbrev two_records : List Event
two_records =
    logs (3 ∷ []) ∷ logs (4 ∷ 5 ∷ []) ∷ flushes 7 ∷ receives 9 ∷ handles well ∷ handles well ∷ []

abbrev at_flush : AuditLogger
at_flush = run 3 rotation 8 (open_logger 3 one_file well) two_records

-- The second record does not fit, so that there is a rotation.
rotation_run : (next_command 3 rotation at_flush well).0.writer.files 0 ≡ some (4 ∷ 5 ∷ [])
unfolding next_command run open_logger at_pc.Server.Audit.Writer.granted
    at_pc.Server.Audit.Retry.retry_io at_pc.Server.Audit.Writer.flush_writer
    at_pc.Server.Audit.Writer.persist_record at_pc.Server.Audit.Writer.is_due
    at_pc.Server.Audit.Retry.rotate_retrying at_pc.Server.Audit.rotate_log_files
rotation_run = refl

flush_keeps_example :
    (stored : List File) × (accepted 3 rotation 8 (open_logger 3 one_file well) two_records
      ≡ stored ++ records (at_flush.batch ++ at_flush.queue))
    × (trail one_file 2 ++ concat stored
        ≡ rotated_away 1 3 rotation 8 (open_logger 3 one_file well) two_records
          ++ trail (next_command 3 rotation at_flush well).0.writer.files 2)
unfolding next_command run open_logger at_pc.Server.Audit.Writer.granted
    at_pc.Server.Audit.Retry.retry_io at_pc.Server.Audit.Writer.flush_writer
    at_pc.Server.Audit.Writer.persist_record at_pc.Server.Audit.Writer.is_due
    at_pc.Server.Audit.Retry.rotate_retrying at_pc.Server.Audit.rotate_log_files
flush_keeps_example =
    flush_keeps 1 3 rotation 8 one_file well two_records well 7 (omega arith)
      (tt, (tt, (tt, (tt, (refl, (refl, tt)))))) refl

abbrev one_record : AuditLogger
one_record = run 3 rotation 8 (open_logger 3 one_file well) (logs (3 ∷ []) ∷ receives 0 ∷ [])

lost_is_told_example :
    (accepted 3 rotation 8 (next_command 3 rotation one_record disk_full).0 two_records
        ++ record_of
            (run 3 rotation 8 (next_command 3 rotation one_record disk_full).0 two_records).sending
      ≡ record_of (next_command 3 rotation one_record disk_full).0.sending)
    × ((next_command 3 rotation
          (run 3 rotation 8 (next_command 3 rotation one_record disk_full).0 two_records)
          well).1
        ≢ replied 7 (flushed none))
unfolding next_command run open_logger at_pc.Server.Audit.Writer.granted
    at_pc.Server.Audit.Retry.retry_io at_pc.Server.Audit.Writer.persist_record
    at_pc.Server.Audit.Writer.is_due
lost_is_told_example =
    lost_is_told 3 rotation 8 one_record disk_full (3 ∷ []) [] append_failed two_records well 7 refl
      refl refl
