-- ===== src/Server/Audit/Held.antt =====
-- audit.rs: opening the file and flushing it leave the trail as it is, whether they succeed or fail.
use at_pc.Common.{
  ℕ, suc, ◌≡◌, refl, sym, ap, ◌∙◌, Bool, true, false, Option, none, some, [], ◌++◌, arith, inl, inr,
  Bool-cases, take, drop, take-drop,
}
use at_pc.Server.Audit.{File}
use at_pc.Server.Audit.Retry.{Done, Attempt, ok, transient, permanent}
use at_pc.Server.Audit.Write.Laws.{append_nil, append_assoc}
use at_pc.Server.Audit.Trail.{trail, trail-appended}
use at_pc.Server.Audit.Writer.{
  PersistError, AuditOutcome, Os, WriterState, or_empty, appended, spill, granted, opened_if,
  flush_once, flush_buffer, first_of, ensure_writer, flush_writer, periodic_flush_writer,
}

-- The trail with what the open file has in its buffer.
abbrev pub held : ℕ → WriterState → File
held n w = trail w.files (suc n) ++ or_empty w.buffer

module _ (n : ℕ) where
  -- With a buffer, some of it reaches the file.
  pub spill-held :
      (w : WriterState) (k : ℕ) (buffer : File)
      → held n (spill w k buffer) ≡ trail w.files (suc n) ++ buffer
  spill-held w k buffer =
      ap (λ b. b ++ drop k buffer) (trail-appended w.files (take k buffer) n)
      ∙ append_assoc (trail w.files (suc n)) (take k buffer) (drop k buffer)
      ∙ ap (λ b. trail w.files (suc n) ++ b) (take-drop k buffer)

  flush-held :
      (w : WriterState) (buffer : File)
      → trail (appended w.files buffer) (suc n) ++ [] ≡ trail w.files (suc n) ++ buffer
  flush-held w buffer =
      append_nil (trail (appended w.files buffer) (suc n)) ∙ trail-appended w.files buffer n

  buffered :
      (w : WriterState) (o : Option File)
      → w.buffer ≡ o
      → trail w.files (suc n) ++ or_empty o ≡ held n w
  buffered w o e = ap (λ o'. trail w.files (suc n) ++ or_empty o') (sym e)

  -- Nothing is added and nothing goes.
  abbrev pub Stays : WriterState → WriterState → Type 0
  Stays w w' =
      (held n w' ≡ held n w)
      × (w'.terminal_error ≡ w.terminal_error)
      × (w'.persist_error ≡ w.persist_error)

  module _ (max_attempts : ℕ) where
    opened_if-Stays :
        (w : WriterState) (o : Option File) (opens measures : Bool)
        → w.buffer ≡ o
        → Stays w (opened_if max_attempts w o opens measures).0
    opened_if-Stays w none true measures e = (flush-held w [] ∙ buffered w none e, refl, refl)
    opened_if-Stays w none false measures e = (refl, refl, refl)
    opened_if-Stays w (some buffer) opens measures e = (refl, refl, refl)

    pub ensure_writer-Stays :
        (w : WriterState) (opens : ℕ → Attempt Done) (measures : Bool)
        → Stays w (ensure_writer max_attempts w opens measures).0
    unfolding ensure_writer
    ensure_writer-Stays w opens measures =
        opened_if-Stays w w.buffer (granted max_attempts opens) measures refl

    flush_once-Stays :
        (w : WriterState) (k : ℕ) (o : Option File) (attempt : Attempt Done)
        → w.buffer ≡ o
        → Stays w (flush_once max_attempts w k o attempt)
    flush_once-Stays w k none attempt e = (refl, refl, refl)
    flush_once-Stays w k (some buffer) (ok d) e =
        (flush-held w buffer ∙ buffered w (some buffer) e, refl, refl)
    flush_once-Stays w k (some buffer) transient e =
        (spill-held w k buffer ∙ buffered w (some buffer) e, refl, refl)
    flush_once-Stays w k (some buffer) permanent e =
        (spill-held w k buffer ∙ buffered w (some buffer) e, refl, refl)

    pub periodic_flush_writer-Stays :
        (w : WriterState) (os : Os) → Stays w (periodic_flush_writer max_attempts w os)
    unfolding periodic_flush_writer
    periodic_flush_writer-Stays w os = flush_once-Stays w os.spills w.buffer (os.flushes 1) refl

    -- A flush, and where it succeeds, the buffer is empty.
    abbrev pub Flushed : WriterState → WriterState × AuditOutcome → Type 0
    Flushed w r = Stays w r.0 × (r.1 ≡ none → or_empty r.0.buffer ≡ [])

    flush_buffer-Flushed :
        (w : WriterState) (os : Os) (o : Option File)
        → w.buffer ≡ o
        → Flushed w (flush_buffer max_attempts w os o)
    flush_buffer-Flushed w os none e = ((refl, refl, refl), λ ok. ap or_empty e)
    flush_buffer-Flushed w os (some buffer) e =
        elim (Bool-cases (granted max_attempts os.flushes)) [
          | inl g ↦
              rw g ((flush-held w buffer ∙ buffered w (some buffer) e, refl, refl), λ ok. refl)
          | inr g ↦ rw g (
            (spill-held w os.spills buffer ∙ buffered w (some buffer) e, refl, refl),
            λ ok. absurd (ground (arith, ok)),
          )
        ]

    first_of-none : (t r : Option PersistError) → first_of t r ≡ none → (t ≡ none) × (r ≡ none)
    first_of-none none r h = (refl, h)
    first_of-none (some t) r h = absurd (ground (arith, h))

    pub flush_writer-Flushed :
        (w : WriterState) (t : Option PersistError) (os : Os)
        → Flushed w (flush_writer max_attempts w t os)
          × ((flush_writer max_attempts w t os).1 ≡ none → t ≡ none)
    unfolding flush_writer
    flush_writer-Flushed w t os =
        let (stays, empty) = flush_buffer-Flushed w os w.buffer refl in
        let result = (flush_buffer max_attempts w os w.buffer).1 in
        ((stays, λ h. empty (first_of-none t result h).1), λ h. (first_of-none t result h).0)
