-- ===== src/Server/Audit/Errors.antt =====
-- audit.rs: an operation of the writer leaves the noted errors alone; the loop notes its error.
use at_pc.Common.{ℕ, ◌≡◌, refl, ◌∙◌, Option, none, some, inl, inr, Bool-cases, Option-cases, length}
use at_pc.Server.Audit.{AuditRotation, File, Files}
use at_pc.Server.Audit.Held.{Stays, flush_writer-Flushed}
use at_pc.Server.Audit.Writer.{
  AuditOutcome, Os, WriterState, flush_writer, rotated, closed_file, appends, append_record, after,
  is_due, rotate_active_writer, ensure_writer, persist_record, or_empty,
}
use at_pc.Server.Audit.Retry.{Done, rotate_retrying}
use at_pc.Server.Audit.Write.{
  Sink, AuditResult, written, io_failed, zero_bytes, out_of_fuel, write_record,
}
use at_pc.Server.Audit.Held.{ensure_writer-Stays}

-- The errors that were noted before.
abbrev pub Errors : WriterState → WriterState → Type 0
Errors w w' = (w'.terminal_error ≡ w.terminal_error) × (w'.persist_error ≡ w.persist_error)

pub Stays-Errors : (w w' : WriterState) → Stays 0 w w' → Errors w w'
Stays-Errors w w' (same, t, p) = (t, p)

Errors-Errors : (w w' w'' : WriterState) → Errors w w' → Errors w' w'' → Errors w w''
Errors-Errors w w' w'' (t, p) (t', p') = (t' ∙ t, p' ∙ p)

module _ (max_attempts : ℕ) where
  rotated-Errors :
      (w : WriterState) (r : Files × Option Done) → Errors w (rotated max_attempts w r).0
  rotated-Errors w (files, none) = (refl, refl)
  rotated-Errors w (files, some d) = (refl, refl)

  appends-Errors :
      (w : WriterState) (os : Os) (len : ℕ) (r : Sink × AuditResult)
      → Errors w (appends max_attempts w os len r).0
  appends-Errors w os len (sink, written) = (refl, refl)
  appends-Errors w os len (sink, io_failed) = (refl, refl)
  appends-Errors w os len (sink, zero_bytes) = (refl, refl)
  appends-Errors w os len (sink, out_of_fuel) = (refl, refl)

  append_record-Errors :
      (w : WriterState) (os : Os) (encoded : File)
      → Errors w (append_record max_attempts w os encoded).0
  unfolding append_record
  append_record-Errors w os encoded =
      let sink : Sink = record { bytes = or_empty w.buffer; calls = 0 } in
      appends-Errors w os (length encoded) (write_record max_attempts os.takes sink encoded)

  after-Errors :
      (w : WriterState) (r : WriterState × AuditOutcome)
      (next : WriterState → WriterState × AuditOutcome)
      → Errors w r.0
      → ((w' : WriterState) → Errors w' (next w').0)
      → Errors w (after max_attempts r next).0
  after-Errors w (w', none) next h rest = Errors-Errors w w' (next w').0 h (rest w')
  after-Errors w (w', some error) next h rest = h

  rotate_active_writer-Errors :
      (w : WriterState) (os : Os) (retain : ℕ)
      → Errors w (rotate_active_writer max_attempts w os retain).0
  unfolding rotate_active_writer
  rotate_active_writer-Errors w os retain =
      let flush = flush_writer max_attempts w none os in
      let same = Stays-Errors w flush.0 (flush_writer-Flushed 0 max_attempts w none os).0.0 in
      let renamed = rotate_retrying max_attempts retain os.renames os.is_transient flush.0.files in
      elim (Option-cases flush.1) [
        | inl e ↦
            rw (e, rotate_active_writer)
              (Errors-Errors w (closed_file max_attempts flush.0)
                (rotated max_attempts (closed_file max_attempts flush.0) renamed).0 same
                (rotated-Errors (closed_file max_attempts flush.0) renamed))
        | inr (error, e) ↦ rw (e, rotate_active_writer) same
      ]

  pub persist_record-Errors :
      (rotation : AuditRotation) (w : WriterState) (os : Os) (encoded : File)
      → Errors w (persist_record max_attempts rotation w os encoded).0
  unfolding persist_record
  persist_record-Errors rotation w os encoded =
      after-Errors w (ensure_writer max_attempts w os.opens os.measures) _
        (Stays-Errors w (ensure_writer max_attempts w os.opens os.measures).0
          (ensure_writer-Stays 0 max_attempts w os.opens os.measures))
        (λ w'. elim (Bool-cases (is_due max_attempts rotation w' (length encoded))) [
          | inl due ↦ rw due (
              after-Errors w' (rotate_active_writer max_attempts w' os rotation.retain_files) _
                (rotate_active_writer-Errors w' os rotation.retain_files)
                (λ w''.
                  after-Errors w'' (ensure_writer max_attempts w'' os.opens_again os.measures) _
                    (Stays-Errors w'' (ensure_writer max_attempts w'' os.opens_again os.measures).0
                      (ensure_writer-Stays 0 max_attempts w'' os.opens_again os.measures))
                    (λ w3. append_record-Errors w3 os encoded)))
          | inr fits ↦ rw fits (append_record-Errors w' os encoded)
        ])
