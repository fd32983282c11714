-- ===== src/Server/Registry/Stale.antt =====
-- ws/registry.rs: a connection that was replaced by a newer one of the same terminal has no say any more.
use at_pc.Common.{
  ℕ, suc, ◌+◌, ◌^◌, ◌≤◌, ◌<◌, ◌≡◌, ◌≢◌, refl, Str, Bool, false, Option, none, some, List, [], ◌∷◌,
  arith, inl, str_eq, length, subst, ◌⊎◌,
}
use at_pc.Map.Laws.{get-insert, get-insert_self, get-modify, get-remove}
use at_pc.Time.{Instant}
use at_pc.Protocol.{TerminalInfo, TerminalStatus, offline}
use at_pc.Server.Registry.{
  TerminalSession, TerminalRegistry, session_of, new_session, register, unregister,
  update_heartbeat, set_status, with_status, set_status_if_current, send_to_terminal, sent_over,
  get_sender, remove_terminal, sweep_offline, update_terminal_meta,
}
use at_pc.Server.Registry.Sweep.{get-sweep, get-heartbeat}

pub data Op (Metrics Sender : Type 0) : Type 0 where
  registers : TerminalInfo → Sender → Instant → ℕ → Op Metrics Sender
  unregisters : Str → Op Metrics Sender
  beats : Str → Metrics → Instant → Op Metrics Sender
  sets_status : Str → TerminalStatus → Op Metrics Sender
  sets_if_current : Str → ℕ → TerminalStatus → Op Metrics Sender
  sends : Str → (Sender → Bool) → Op Metrics Sender
  removes : Str → Op Metrics Sender
  sweeps : Instant → Op Metrics Sender
  updates_meta : Str → Option Str → Option Str → Option (List Str) → ℕ → Op Metrics Sender

module _ {Metrics Sender : Type 0} where
  unfoldable pub step :
      TerminalRegistry Metrics Sender → Op Metrics Sender → TerminalRegistry Metrics Sender
  step r (registers info sender now clock) = (register r info sender now clock).0
  step r (unregisters id) = (unregister r id).0
  step r (beats id metrics now) = (update_heartbeat r id metrics now).0
  step r (sets_status id status) = (set_status r id status).0
  step r (sets_if_current id n status) = (set_status_if_current r id n status).0
  step r (sends id opened) = (send_to_terminal r id opened).0
  step r (removes id) = (remove_terminal r id).0
  step r (sweeps now) = (sweep_offline r now).0
  step r (updates_meta id custom_name notes tags now) =
      (update_terminal_meta r id custom_name notes tags now).0

  unfoldable pub run :
      TerminalRegistry Metrics Sender → List (Op Metrics Sender) → TerminalRegistry Metrics Sender
  run r [] = r
  run r (o ∷ os) = run (step r o) os

  -- The number of the connection that a terminal has.
  abbrev number : Option (TerminalSession Metrics Sender) → Option ℕ
  number none = none
  number (some s) = some s.session_id

  -- What an operation can do to the number of a terminal's connection.
  abbrev Renumbered :
      TerminalRegistry Metrics Sender → TerminalRegistry Metrics Sender → Str → Type 0
  Renumbered r r' id =
      (number (session_of r' id) ≡ number (session_of r id))
      ⊎ ((number (session_of r' id) ≡ none) ⊎ (number (session_of r' id) ≡ some r.session_seq))

  status-number :
      (r : TerminalRegistry Metrics Sender) (j id : Str) (status : TerminalStatus)
      → number (session_of (set_status r j status).0 id) ≡ number (session_of r id)
  unfolding set_status
  status-number r j id status = ground (arith, get-modify j id (with_status status) r.sessions)

  sent-number :
      (r : TerminalRegistry Metrics Sender) (j id : Str) (opened : Sender → Bool)
      (o : Option Sender)
      → number (session_of (sent_over r j opened o).0 id) ≡ number (session_of r id)
  unfolding sent_over
  sent-number r j id opened none = refl
  sent-number r j id opened (some sender) = ground (arith, status-number r j id offline)

  send-number :
      (r : TerminalRegistry Metrics Sender) (j id : Str) (opened : Sender → Bool)
      → number (session_of (send_to_terminal r j opened).0 id) ≡ number (session_of r id)
  unfolding send_to_terminal
  send-number r j id opened = sent-number r j id opened (get_sender r j)

  step-number :
      (r : TerminalRegistry Metrics Sender) (o : Op Metrics Sender) (id : Str)
      → Renumbered r (step r o) id
  unfolding step register unregister set_status_if_current remove_terminal sweep_offline
      update_terminal_meta
  step-number r (registers info sender now clock) id =
      ground (
        arith,
        get-insert info.terminal_id id (new_session r.session_seq info sender now) r.sessions,
      )
  step-number r (unregisters j) id = ground (arith, get-remove j id r.sessions)
  step-number r (beats j metrics now) id = inl (ground (arith, get-heartbeat r j id metrics now))
  step-number r (sets_status j status) id = inl (status-number r j id status)
  step-number r (sets_if_current j n status) id =
      inl (ground (arith, get-modify j id (with_status status) r.sessions))
  step-number r (sends j opened) id = inl (send-number r j id opened)
  step-number r (removes j) id = ground (arith, get-remove j id r.sessions)
  step-number r (sweeps now) id =
      inl (ground (arith, get-sweep r.offline_threshold now r.sessions id))
  step-number r (updates_meta j custom_name notes tags now) id = inl refl

  send-seq :
      (r : TerminalRegistry Metrics Sender) (j : Str) (opened : Sender → Bool)
      → (send_to_terminal r j opened).0.session_seq ≡ r.session_seq
  unfolding send_to_terminal get_sender set_status
  send-seq r j opened = ground arith

  step-seq :
      (r : TerminalRegistry Metrics Sender) (o : Op Metrics Sender)
      → suc r.session_seq < 2 ^ 64
      → r.session_seq ≤ (step r o).session_seq × (step r o).session_seq ≤ suc r.session_seq
  unfolding step register unregister set_status set_status_if_current remove_terminal sweep_offline
      update_heartbeat update_terminal_meta
  step-seq r (registers info sender now clock) l = ground arith
  step-seq r (unregisters j) l = ground arith
  step-seq r (beats j metrics now) l = ground arith
  step-seq r (sets_status j status) l = ground arith
  step-seq r (sets_if_current j n status) l = ground arith
  step-seq r (sends j opened) l = ground (arith, send-seq r j opened)
  step-seq r (removes j) l = ground arith
  step-seq r (sweeps now) l = ground arith
  step-seq r (updates_meta j custom_name notes tags now) l = ground arith

  run-seq :
      (r : TerminalRegistry Metrics Sender) (os : List (Op Metrics Sender))
      → r.session_seq + length os < 2 ^ 64
      → r.session_seq ≤ (run r os).session_seq × (run r os).session_seq ≤ r.session_seq + length os
  unfolding run
  run-seq r [] l = (omega arith, omega arith)
  run-seq r (o ∷ os) l =
      let k = step-seq r o (omega arith) in
      let u = run-seq (step r o) os (omega arith) in (omega arith, omega arith)

  -- Another connection, or none, is the terminal's, and the number will not be drawn again.
  IsStale : TerminalRegistry Metrics Sender → Str → ℕ → Type 0
  IsStale r id n = (number (session_of r id) ≢ some n) × n < r.session_seq

  step-IsStale :
      (r : TerminalRegistry Metrics Sender) (o : Op Metrics Sender) (id : Str) (n : ℕ)
      → suc r.session_seq < 2 ^ 64
      → IsStale r id n
      → IsStale (step r o) id n
  unfolding IsStale
  step-IsStale r o id n l (h, u) =
      let k = step-seq r o l in (ground (arith, step-number r o id), omega arith)

  run-IsStale :
      (r : TerminalRegistry Metrics Sender) (os : List (Op Metrics Sender)) (id : Str) (n : ℕ)
      → r.session_seq + length os < 2 ^ 64
      → IsStale r id n
      → IsStale (run r os) id n
  unfolding run
  run-IsStale r [] id n l h = h
  run-IsStale r (o ∷ os) id n l h =
      let k = step-seq r o (omega arith) in
      run-IsStale (step r o) os id n (omega arith) (step-IsStale r o id n (omega arith) h)

  stale_refused :
      (r : TerminalRegistry Metrics Sender) (id : Str) (n : ℕ) (status : TerminalStatus)
      → IsStale r id n
      → set_status_if_current r id n status ≡ (r, false)
  unfolding IsStale set_status_if_current
  stale_refused r id n status h = ground arith

  register-IsStale :
      (r : TerminalRegistry Metrics Sender) (info : TerminalInfo) (sender : Sender) (now : Instant)
      (clock : ℕ)
      → suc r.session_seq < 2 ^ 64
      → ((register r info sender now clock).0.session_seq ≡ suc r.session_seq)
        × ((register r info sender now clock).1 ≡ r.session_seq)
        × ((n : ℕ)
            → n < r.session_seq
            → IsStale (register r info sender now clock).0 info.terminal_id n)
  unfolding register IsStale
  register-IsStale r info sender now clock l = (
    grind arith,
    refl,
    λ n u. (
      ground (
        arith,
        get-insert_self info.terminal_id (new_session r.session_seq info sender now) r.sessions,
      ),
      ground arith,
    ),
  )

  -- Once a terminal has registered again, whatever ran before and after, the old connection's number
  -- changes no status: the call answers `false` and leaves the registry as it is. Condition: fewer than
  -- 2^64 registrations, so that the counter does not wrap around.
  pub replaced_is_stale :
      (r : TerminalRegistry Metrics Sender) (info info' : TerminalInfo) (sender sender' : Sender)
      (at at' : Instant) (clock clock' : ℕ) (os os' : List (Op Metrics Sender))
      (status : TerminalStatus)
      → info'.terminal_id ≡ info.terminal_id
      → r.session_seq + length os + length os' + 2 < 2 ^ 64
      → let (r1, n) = register r info sender at clock in
        let r2 = (register (run r1 os) info' sender' at' clock').0 in
        set_status_if_current (run r2 os') info.terminal_id n status ≡ (run r2 os', false)
  replaced_is_stale r info info' sender sender' at at' clock clock' os os' status e l =
      let r1 = (register r info sender at clock).0 in
      let a = register-IsStale r info sender at clock (omega arith) in
      let u = run-seq r1 os (omega arith) in
      let b = register-IsStale (run r1 os) info' sender' at' clock' (omega arith) in
      let r2 = (register (run r1 os) info' sender' at' clock').0 in
      let n = (register r info sender at clock).1 in
      stale_refused (run r2 os') info.terminal_id n status (
        run-IsStale r2 os' info.terminal_id n (omega arith)
          (subst (λ id. IsStale r2 id n) e (b.2 n (omega arith))))
