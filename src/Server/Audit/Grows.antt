-- ===== src/Server/Audit/Grows.antt =====
-- audit.rs: a record that was written without an error is at the end of the trail; a rotation takes away the oldest
-- file.
use at_pc.Common.{
  ℕ, suc, max, ◌≡◌, refl, sym, ap, ◌∙◌, Bool, true, none, some, [], ◌++◌, arith, subst,
  if◌then◌else◌, inl, inr, Bool-cases, Option-cases, length,
}
use at_pc.Server.Audit.{AuditRotation, File}
use at_pc.Server.Audit.Retry.{rotate_retrying}
use at_pc.Server.Audit.Write.{
  Sink, AuditResult, written, io_failed, zero_bytes, out_of_fuel, write_record,
}
use at_pc.Server.Audit.Write.Laws.{append_nil, append_assoc, write_record-Wrote, Wrote}
use at_pc.Server.Audit.Trail.{trail, rotate_retrying-once}
use at_pc.Server.Audit.Writer.{
  AuditOutcome, Os, WriterState, or_empty, granted, ensure_writer, flush_writer, rotated,
  closed_file, rotate_active_writer, appends, append_record, after, is_due, persist_record,
}
use at_pc.Server.Audit.Held.{held, Stays, spill-held, ensure_writer-Stays, flush_writer-Flushed}

-- What an operation may do where it does not fail: `more` is added at the end, `old` is gone.
abbrev pub Grows : ℕ → File → WriterState → File → WriterState → Type 0
Grows n old w more w' =
    (held n w ++ more ≡ old ++ held n w')
    × (w'.terminal_error ≡ w.terminal_error)
    × (w'.persist_error ≡ w.persist_error)

module _ (n max_attempts : ℕ) where
  appends-Grows :
      (w : WriterState) (os : Os) (len : ℕ) (encoded : File) (r : Sink × AuditResult)
      → Wrote (record { bytes = or_empty w.buffer; calls = 0 }) encoded r
      → (appends max_attempts w os len r).1 ≡ none
      → Grows n [] w encoded (appends max_attempts w os len r).0
  appends-Grows w os len encoded (sink, written) wrote h =
      let bytes : sink.bytes ≡ or_empty w.buffer ++ encoded =
        wrote.prefix ∙ ap (λ b. or_empty w.buffer ++ b) (wrote.whole refl) in
      (
        append_assoc (trail w.files (suc n)) (or_empty w.buffer) encoded
            ∙ ap (λ b. trail w.files (suc n) ++ b) (sym bytes)
            ∙ sym (spill-held n w os.spills sink.bytes),
        refl,
        refl,
      )
  appends-Grows w os len encoded (sink, io_failed) wrote h = absurd (ground (arith, h))
  appends-Grows w os len encoded (sink, zero_bytes) wrote h = absurd (ground (arith, h))
  appends-Grows w os len encoded (sink, out_of_fuel) wrote h = absurd (ground (arith, h))

  append_record-Grows :
      (w : WriterState) (os : Os) (encoded : File)
      → (append_record max_attempts w os encoded).1 ≡ none
      → Grows n [] w encoded (append_record max_attempts w os encoded).0
  unfolding append_record
  append_record-Grows w os encoded h =
      let sink : Sink = record { bytes = or_empty w.buffer; calls = 0 } in
      appends-Grows w os (length encoded) encoded (write_record max_attempts os.takes sink encoded)
        (write_record-Wrote max_attempts os.takes sink encoded) h

  Stays-Grows :
      (w w' w'' : WriterState) (old more : File)
      → Stays n w w'
      → Grows n old w' more w''
      → Grows n old w more w''
  Stays-Grows w w' w'' old more (same, t, p) (grown, t', p') =
      (ap (λ b. b ++ more) (sym same) ∙ grown, t' ∙ t, p' ∙ p)

  Grows-Grows :
      (w w' w'' : WriterState) (old more : File)
      → Grows n old w [] w'
      → Grows n [] w' more w''
      → Grows n old w more w''
  Grows-Grows w w' w'' old more (first, t, p) (second, t', p') = (
    ap (λ b. b ++ more) (sym (append_nil (held n w)) ∙ first)
        ∙ append_assoc old (held n w') more
        ∙ ap (λ b. old ++ b) second,
    t' ∙ t,
    p' ∙ p,
  )

  -- The oldest file that is kept, as a rotation finds it once it has flushed the buffer.
  abbrev pub oldest : WriterState → Os → File
  oldest w os = or_empty ((flush_writer max_attempts w none os).0.files n)

  -- The bytes that a rotation takes away for a record, if the record needs one.
  abbrev pub taken_away : AuditRotation → WriterState → Os → File → File
  taken_away rotation w os encoded =
      let w' = (ensure_writer max_attempts w os.opens os.measures).0 in
      if is_due max_attempts rotation w' (length encoded) then oldest w' os else []

  module _ (rotation : AuditRotation) (one_more : suc n ≡ max rotation.retain_files 1) where
    rotated-Grows :
        (w w' : WriterState) (renames : ℕ → ℕ → Bool) (is_transient : ℕ → Bool)
        → Stays n w w'
        → or_empty w'.buffer ≡ []
        → renames 1 ≡ (λ g. true)
        → Grows n
            (or_empty (w'.files n))
            w
            []
            (rotated max_attempts
              (closed_file max_attempts w')
              (rotate_retrying max_attempts rotation.retain_files renames is_transient w'.files)).0
    rotated-Grows w w' renames is_transient (same, t, p) empty granted =
        let (files, went, moved) =
          rotate_retrying-once max_attempts rotation.retain_files renames is_transient w'.files n
            one_more granted in
        rw went (
          append_nil (held n w)
              ∙ sym same
              ∙ ap (λ b. trail w'.files (suc n) ++ b) empty
              ∙ append_nil (trail w'.files (suc n))
              ∙ moved
              ∙ ap (λ b. or_empty (w'.files n) ++ b) (sym (append_nil (trail files (suc n)))),
          t,
          p,
        )

    rotate_active_writer-Grows :
        (w : WriterState) (os : Os)
        → os.renames 1 ≡ (λ g. true)
        → (rotate_active_writer max_attempts w os rotation.retain_files).1 ≡ none
        → Grows n
            (oldest w os)
            w
            []
            (rotate_active_writer max_attempts w os rotation.retain_files).0
    unfolding rotate_active_writer
    rotate_active_writer-Grows w os granted h =
        let flush = flush_writer max_attempts w none os in
        let ((stays, empty), t) = flush_writer-Flushed n max_attempts w none os in
        elim (Option-cases flush.1) [
          | inl e ↦
              rw (e, rotate_active_writer)
                (rotated-Grows w flush.0 os.renames os.is_transient stays (empty e) granted)
          | inr (error, e) ↦ absurd (ground (arith, e, h))
        ]

    after-ok :
        (r : WriterState × AuditOutcome) (next : WriterState → WriterState × AuditOutcome)
        → (after max_attempts r next).1 ≡ none
        → (r.1 ≡ none) × (after max_attempts r next ≡ next r.0)
    after-ok (w, none) next h = (refl, refl)
    after-ok (w, some error) next h = absurd (ground (arith, h))

    -- The rotation, the new file and the record.
    abbrev rotate_first : WriterState → Os → File → WriterState × AuditOutcome
    rotate_first w os encoded =
        after max_attempts (rotate_active_writer max_attempts w os rotation.retain_files) (λ w''.
          after max_attempts (ensure_writer max_attempts w'' os.opens_again os.measures)
            (λ w3. append_record max_attempts w3 os encoded))

    rotate_first-Grows :
        (w : WriterState) (os : Os) (encoded : File)
        → os.renames 1 ≡ (λ g. true)
        → (rotate_first w os encoded).1 ≡ none
        → Grows n (oldest w os) w encoded (rotate_first w os encoded).0
    rotate_first-Grows w os encoded granted h =
        let moved = rotate_active_writer max_attempts w os rotation.retain_files in
        let again = ensure_writer max_attempts moved.0 os.opens_again os.measures in
        let (e, then_open) =
          after-ok moved
            (λ w''.
              after max_attempts (ensure_writer max_attempts w'' os.opens_again os.measures)
                (λ w3. append_record max_attempts w3 os encoded))
            h in
        let h' : (after max_attempts again (λ w3. append_record max_attempts w3 os encoded)).1
            ≡ none =
          ap (λ r. r.1) (sym then_open) ∙ h in
        let (e', then_write) = after-ok again (λ w3. append_record max_attempts w3 os encoded) h' in
        let written_last = append_record max_attempts again.0 os encoded in
        let h'' : written_last.1 ≡ none = ap (λ r. r.1) (sym then_write) ∙ h' in
        subst (λ (r : WriterState × AuditOutcome). Grows n (oldest w os) w encoded r.0)
          (sym (then_open ∙ then_write))
          (Grows-Grows w moved.0 written_last.0 (oldest w os) encoded
            (rotate_active_writer-Grows w os granted e)
            (Stays-Grows moved.0 again.0 written_last.0 [] encoded
              (ensure_writer-Stays n max_attempts moved.0 os.opens_again os.measures)
              (append_record-Grows again.0 os encoded h'')))

    pub persist_record-Grows :
        (w : WriterState) (os : Os) (encoded : File)
        → os.renames 1 ≡ (λ g. true)
        → (persist_record max_attempts rotation w os encoded).1 ≡ none
        → Grows n
            (taken_away rotation w os encoded)
            w
            encoded
            (persist_record max_attempts rotation w os encoded).0
    unfolding persist_record
    persist_record-Grows w os encoded granted h =
        let first = ensure_writer max_attempts w os.opens os.measures in
        let next : WriterState → WriterState × AuditOutcome = λ w'.
          if is_due max_attempts rotation w' (length encoded)
          then rotate_first w' os encoded
          else append_record max_attempts w' os encoded in
        let (e, then_next) = after-ok first next h in
        let h' : (next first.0).1 ≡ none = ap (λ r. r.1) (sym then_next) ∙ h in
        let old = taken_away rotation w os encoded in
        let grows : Grows n old first.0 encoded (next first.0).0 =
          elim (Bool-cases (is_due max_attempts rotation first.0 (length encoded))) [
            | inl due ↦
                rw due (rotate_first-Grows first.0 os encoded granted (ground (arith, due, h')))
            | inr fits ↦ rw fits (append_record-Grows first.0 os encoded (ground (arith, fits, h')))
          ] in
        subst (λ (r : WriterState × AuditOutcome). Grows n old w encoded r.0) (sym then_next)
          (Stays-Grows w first.0 (next first.0).0 old encoded
            (ensure_writer-Stays n max_attempts w os.opens os.measures) grows)
