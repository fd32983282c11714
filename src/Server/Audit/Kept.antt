-- ===== src/Server/Audit/Kept.antt =====
-- audit.rs: where the admitted records are.
use at_pc.Common.{
  ℕ, max, ◌≡◌, refl, sym, ap, subst, ◌∙◌, true, false, Option, none, some, List, [], ◌∷◌, ◌++◌,
  arith, ◌⊎◌, inl, inr, Bool-cases, Option-cases, length, if◌then◌else◌, ltb,
}
use at_pc.Server.Audit.{File}
use at_pc.Server.Audit.Write.Laws.{append_assoc}
use at_pc.Server.Audit.Held.{held}
use at_pc.Server.Audit.Writer.{AuditOutcome}
use at_pc.Server.Audit.Queue.{
  woken, admitted, waits, unblocks, unblock, goes_on, record_of, WriterCommand, write_bytes,
  barrier, export_files, shut, tail, AdmissionState, disabled, running, shutting_down, closed_with,
  AuditLogger, Event, send, enqueue, shutdown, end_with, end_shutdown, is_record, is_admitted,
  record_in, admitted_record,
}

-- The records among the commands.
abbrev pub records : List WriterCommand → List File
records [] = []
records (write_bytes encoded ∷ cs) = encoded ∷ records cs
records (c ∷ cs) = records cs

abbrev pub concat : List File → File
concat [] = []
concat (f ∷ fs) = f ++ concat fs

pub list_assoc : {A : Type 0} (a b c : List A) → (a ++ b) ++ c ≡ a ++ (b ++ c)
list_assoc [] b c = refl
list_assoc (x ∷ a) b c = ap (λ r. x ∷ r) (list_assoc a b c)

pub list_nil : {A : Type 0} (a : List A) → a ++ [] ≡ a
list_nil [] = refl
list_nil (x ∷ a) = ap (λ r. x ∷ r) (list_nil a)

pub records-append : (cs ds : List WriterCommand) → records (cs ++ ds) ≡ records cs ++ records ds
records-append [] ds = refl
records-append (write_bytes encoded ∷ cs) ds = ap (λ r. encoded ∷ r) (records-append cs ds)
records-append (barrier id ∷ cs) ds = records-append cs ds
records-append (export_files id ∷ cs) ds = records-append cs ds
records-append (shut id ∷ cs) ds = records-append cs ds
records-append (tail limit id ∷ cs) ds = records-append cs ds

pub concat-append : (fs gs : List File) → concat (fs ++ gs) ≡ concat fs ++ concat gs
concat-append [] gs = refl
concat-append (f ∷ fs) gs =
    ap (λ b. f ++ b) (concat-append fs gs) ∙ sym (append_assoc f (concat fs) (concat gs))

-- While the thread runs and nothing has failed, the records admitted so far are those whose bytes are in
-- the trail, but for what is gone, and then those that wait.
abbrev pub Kept : ℕ → File → File → List File → AuditLogger → Type 0
Kept n base gone admitted_records l =
    l.shutdown_reply ≡ none
    → l.writer.terminal_error ≡ none
    → (stored : List File) × (admitted_records ≡ stored ++ records (l.batch ++ l.queue))
      × (base ++ concat stored ≡ gone ++ held n l.writer)

pub AdmissionState-cases :
    (x : AdmissionState)
    → (x ≡ disabled)
      ⊎ (x ≡ running)
      ⊎ (x ≡ shutting_down)
      ⊎ ((r : AuditOutcome) × (x ≡ closed_with r))
AdmissionState-cases disabled = inl refl
AdmissionState-cases running = inr (inl refl)
AdmissionState-cases shutting_down = inr (inr (inl refl))
AdmissionState-cases (closed_with r) = inr (inr (inr (r, refl)))

module _ (n : ℕ) (base gone : File) where
  put-Kept :
      (admitted_records : List File) (l : AuditLogger) (c : WriterCommand) (st : AdmissionState)
      → Kept n base gone admitted_records l
      → Kept n base gone
          (admitted_records ++ records (c ∷ []))
          (record l { state = st; queue = l.queue ++ c ∷ [] })
  put-Kept acc l c st kept live fine =
      let (stored, split, equal) = kept live fine in
      (
        stored,
        ap (λ a. a ++ records (c ∷ [])) split
            ∙ list_assoc stored (records (l.batch ++ l.queue)) (records (c ∷ []))
            ∙ ap (λ r. stored ++ r)
                (sym (records-append (l.batch ++ l.queue) (c ∷ []))
                  ∙ ap records (list_assoc l.batch l.queue (c ∷ []))),
        equal,
      )

  -- A call blocks or moves nothing, or puts its command into the queue.
  pub enqueue_cases :
      (capacity : ℕ) (l : AuditLogger) (c : WriterCommand)
      → ((o : Option WriterCommand) × ((enqueue capacity l c).0 ≡ record l { sending = o })
          × (is_admitted (enqueue capacity l c).1 ≡ false))
        ⊎ (((enqueue capacity l c).0 ≡ l) × (l.state ≡ disabled))
        ⊎ (((enqueue capacity l c).0 ≡ record l { queue = l.queue ++ c ∷ [] })
            × (is_admitted (enqueue capacity l c).1 ≡ true)
            × (l.state ≡ running))
  unfolding enqueue send
  enqueue_cases capacity l c = elim (AdmissionState-cases l.state) [
    | inl e ↦ inr (inl (ground (arith, e), e))
    | inr (inl e) ↦ elim (Option-cases (if is_record c then l.writer.persist_error else none)) [
      | inl none_yet ↦ elim (Bool-cases (ltb (length l.queue) (max capacity 1))) [
        | inl room ↦
            inr (inr (ground (arith, e, none_yet, room), ground (arith, e, none_yet, room), e))
        | inr no_room ↦
            inl (some c, ground (arith, e, none_yet, no_room), ground (arith, e, none_yet, no_room))
      ]
      | inr (error, found) ↦ inl (l.sending, ground (arith, e, found), ground (arith, e, found))
    ]
    | inr (inr (inl e)) ↦ inl (l.sending, ground (arith, e), ground (arith, e))
    | inr (inr (inr (r, e))) ↦ inl (l.sending, ground (arith, e), ground (arith, e))
  ]

  pub same-Kept :
      (acc : List File) (l l' : AuditLogger) (more : List File)
      → l' ≡ l
      → more ≡ []
      → Kept n base gone acc l
      → Kept n base gone (acc ++ more) l'
  same-Kept acc l l' more e none_more kept =
      subst (λ x. Kept n base gone (acc ++ more) x) (sym e)
        (subst (λ a. Kept n base gone a l) (sym (ap (λ m. acc ++ m) none_more ∙ list_nil acc)) kept)

  pub enqueue-Kept :
      (capacity : ℕ) (acc : List File) (l : AuditLogger) (c : WriterCommand) (e : Event)
      → record_in l.sending e ≡ records (c ∷ [])
      → Kept n base gone acc l
      → Kept n base gone
          (acc ++ admitted_record l.sending l.state e (enqueue capacity l c).1)
          (enqueue capacity l c).0
  enqueue-Kept capacity acc l c e same kept = elim (enqueue_cases capacity l c) [
    | inl (o, stays, refused) ↦
        same-Kept acc (record l { sending = o }) _ _ stays (ground (arith, refused)) kept
    | inr (inl (stays, off)) ↦ same-Kept acc l _ _ stays (ground (arith, off)) kept
    | inr (inr (puts, taken, on)) ↦
        let more : admitted_record l.sending l.state e (enqueue capacity l c).1 ≡ records (c ∷ []) =
          ground (arith, taken, on, same) in
        subst
          (λ x.
            Kept n base gone (acc ++ admitted_record l.sending l.state e (enqueue capacity l c).1)
              x)
          (sym puts)
          (subst (λ m. Kept n base gone (acc ++ m) (record l { queue = l.queue ++ c ∷ [] }))
            (sym more) (put-Kept acc l c l.state kept))
  ]

  -- The blocked call, when it is woken up with or without room in the queue.
  goes_on-room :
      (capacity : ℕ) (l : AuditLogger) (c : WriterCommand)
      → ltb (length l.queue) (max capacity 1) ≡ true
      → (st : AdmissionState) × (goes_on c (send capacity (record l { sending = none }) c)
          ≡ (record l { state = st; sending = none; queue = l.queue ++ c ∷ [] }, admitted))
  unfolding send
  goes_on-room capacity l (write_bytes encoded) room = (l.state, ground (arith, room))
  goes_on-room capacity l (barrier id) room = (l.state, ground (arith, room))
  goes_on-room capacity l (export_files id) room = (l.state, ground (arith, room))
  goes_on-room capacity l (tail limit id) room = (l.state, ground (arith, room))
  goes_on-room capacity l (shut id) room = (shutting_down, ground (arith, room))

  goes_on-full :
      (capacity : ℕ) (l : AuditLogger) (c : WriterCommand)
      → ltb (length l.queue) (max capacity 1) ≡ false
      → goes_on c (send capacity (record l { sending = none }) c)
        ≡ (record l { sending = some c }, waits)
  unfolding send
  goes_on-full capacity l (write_bytes encoded) full = ground (arith, full)
  goes_on-full capacity l (barrier id) full = ground (arith, full)
  goes_on-full capacity l (export_files id) full = ground (arith, full)
  goes_on-full capacity l (tail limit id) full = ground (arith, full)
  goes_on-full capacity l (shut id) full = ground (arith, full)

  -- What happens to the blocked call: nothing, or its command is put into the queue.
  pub unblock_cases :
      (capacity : ℕ) (l : AuditLogger)
      → ((unblock capacity l).0 ≡ l) × (is_admitted (unblock capacity l).1 ≡ false)
        ⊎ ((c : WriterCommand) × (st : AdmissionState) × (l.sending ≡ some c)
            × ((unblock capacity l).0
                ≡ record l { state = st; sending = none; queue = l.queue ++ c ∷ [] })
            × (is_admitted (unblock capacity l).1 ≡ true)
            × (l.state ≡ running))
  unfolding unblock
  unblock_cases capacity l = elim (AdmissionState-cases l.state) [
    | inl e ↦ inl (ground (arith, e), ground (arith, e))
    | inr (inl e) ↦ elim (Option-cases l.sending) [
      | inl free ↦ inl (ground (arith, e, free), ground (arith, e, free))
      | inr (c, blocked) ↦
          let opened : unblock capacity l ≡ woken capacity l l.sending = ground (arith, e) in
          elim (Bool-cases (ltb (length l.queue) (max capacity 1))) [
            | inl room ↦
                let (st, on) = goes_on-room capacity l c room in
                let eq : unblock capacity l ≡ (
                  record l { state = st; sending = none; queue = l.queue ++ c ∷ [] },
                  admitted,
                ) =
                  opened ∙ ap (λ o. woken capacity l o) blocked ∙ on in
                inr (c, st, blocked, ap (λ r. r.0) eq, ap (λ r. is_admitted r.1) eq, e)
            | inr full ↦
                let still : record l { sending = some c } ≡ l =
                  ap (λ o. record l { sending = o }) (sym blocked) in
                let eq : unblock capacity l ≡ (record l { sending = some c }, waits) =
                  opened ∙ ap (λ o. woken capacity l o) blocked ∙ goes_on-full capacity l c full in
                inl (ap (λ r. r.0) eq ∙ still, ap (λ r. is_admitted r.1) eq)
          ]
    ]
    | inr (inr (inl e)) ↦ inl (ground (arith, e), ground (arith, e))
    | inr (inr (inr (r, e))) ↦ inl (ground (arith, e), ground (arith, e))
  ]

  record_of-records : (c : WriterCommand) → record_of (some c) ≡ records (c ∷ [])
  record_of-records (write_bytes encoded) = refl
  record_of-records (barrier id) = refl
  record_of-records (export_files id) = refl
  record_of-records (tail limit id) = refl
  record_of-records (shut id) = refl

  pub unblock-Kept :
      (capacity : ℕ) (acc : List File) (l : AuditLogger)
      → Kept n base gone acc l
      → Kept n base gone
          (acc ++ admitted_record l.sending l.state unblocks (unblock capacity l).1)
          (unblock capacity l).0
  unblock-Kept capacity acc l kept = elim (unblock_cases capacity l) [
    | inl (stays, refused) ↦ same-Kept acc l _ _ stays (ground (arith, refused)) kept
    | inr (c, st, blocked, puts, taken, on) ↦
        let more : admitted_record l.sending l.state unblocks (unblock capacity l).1
            ≡ records (c ∷ []) =
          ground (arith, taken, on, blocked, record_of-records c) in
        subst (λ a. Kept n base gone (acc ++ a) (unblock capacity l).0) (sym more)
          (subst (λ x. Kept n base gone (acc ++ records (c ∷ [])) x) (sym puts)
            (put-Kept acc l c st kept))
  ]

  pub shutdown-Kept :
      (capacity : ℕ) (acc : List File) (l : AuditLogger) (id : ℕ)
      → Kept n base gone acc l
      → Kept n base gone acc (shutdown capacity l id).0
  unfolding shutdown send
  shutdown-Kept capacity acc l id kept = elim (AdmissionState-cases l.state) [
    | inl e ↦
        let same : l ≡ (shutdown capacity l id).0 = ground (arith, e) in
        subst (λ x. Kept n base gone acc x) same kept
    | inr (inl e) ↦ elim (Bool-cases (ltb (length l.queue) (max capacity 1))) [
      | inl room ↦
          let puts : record l { state = shutting_down; queue = l.queue ++ shut id ∷ [] }
              ≡ (shutdown capacity l id).0 =
            ground (arith, e, room) in
          subst (λ x. Kept n base gone acc x) puts
            (subst
              (λ a.
                Kept n base gone a
                  (record l { state = shutting_down; queue = l.queue ++ shut id ∷ [] }))
              (list_nil acc) (put-Kept acc l (shut id) shutting_down kept))
      | inr no_room ↦
          let same : record l { sending = some (shut id) } ≡ (shutdown capacity l id).0 =
            ground (arith, e, no_room) in
          subst (λ x. Kept n base gone acc x) same kept
    ]
    | inr (inr (inl e)) ↦
        let same : l ≡ (shutdown capacity l id).0 = ground (arith, e) in
        subst (λ x. Kept n base gone acc x) same kept
    | inr (inr (inr (r, e))) ↦
        let same : l ≡ (shutdown capacity l id).0 = ground (arith, e) in
        subst (λ x. Kept n base gone acc x) same kept
  ]

  end_with-Kept :
      (acc : List File) (l : AuditLogger) (o : Option AuditOutcome)
      → Kept n base gone acc l
      → Kept n base gone acc (end_with l o).0
  end_with-Kept acc l none kept = kept
  end_with-Kept acc l (some result) kept = kept

  pub end_shutdown-Kept :
      (acc : List File) (l : AuditLogger)
      → Kept n base gone acc l
      → Kept n base gone acc (end_shutdown l).0
  unfolding end_shutdown
  end_shutdown-Kept acc l kept = elim (AdmissionState-cases l.state) [
    | inl e ↦
        let same : l ≡ (end_shutdown l).0 = ground (arith, e) in
        subst (λ x. Kept n base gone acc x) same kept
    | inr (inl e) ↦
        let same : l ≡ (end_shutdown l).0 = ground (arith, e) in
        subst (λ x. Kept n base gone acc x) same kept
    | inr (inr (inl e)) ↦
        let same : (end_with l l.shutdown_reply).0 ≡ (end_shutdown l).0 = ground (arith, e) in
        subst (λ x. Kept n base gone acc x) same (end_with-Kept acc l l.shutdown_reply kept)
    | inr (inr (inr (r, e))) ↦
        let same : l ≡ (end_shutdown l).0 = ground (arith, e) in
        subst (λ x. Kept n base gone acc x) same kept
  ]
