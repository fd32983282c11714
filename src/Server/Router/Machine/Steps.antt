-- ===== src/Server/Router/Machine/Steps.antt =====
-- router.rs: the invariant of the waiting tasks over any sequence of events.
use at_pc.Common.{
  ℕ, suc, ◌+◌, ◌%◌, ◌^◌, ◌≤◌, ◌<◌, ◌≡◌, refl, subst, Str, Bool, true, false, Option, none, some,
  List, [], ◌∷◌, arith, length, str_eq, nat_eq, if◌then◌else◌,
}
use at_pc.Map
use at_pc.Map.{Map}
use at_pc.Time.{Instant}
use at_pc.Protocol.{offline, status_beq}
use at_pc.Server.Registry
use at_pc.Server.Registry.{TerminalRegistry, RegistryResult, send_to_terminal}
use at_pc.Server.Registry.Views.{TerminalEntry, get_terminal}
use at_pc.Server.Router.{McpRouter}
use at_pc.Server.Router.Pending.{
  PendingCallEntry, Calls, add_call, drop_call, answer_call, send, err, cancelled,
}
use at_pc.Server.Router.Invoke.{
  Started, currently_offline, call_id, generate_call_id, sent_or_dropped, invoke_online,
  invoke_known, begin_invoke, give_up, cancel_found, cancel_tool_call, process_tool_result,
  handle_terminal_disconnected, effective_timeout,
}
use at_pc.Server.Router.Machine.{
  Waiter, Machine, Outcome, returned, closed, timed_out, still_waiting, awaited, Event, invokes,
  resumes, results, cancels, disconnects, registry_becomes, draws, started, resumed, resume, step,
  run,
}
use at_pc.Server.Router.Machine.Kept.{
  IsKept, draw-IsKept, remove-IsKept, gone-IsKept, answer-IsKept, abort-IsKept, unsent-IsKept,
  sent-IsKept,
}

at_next :
    {Value : Type 0} {c : Calls Value} {waiting : Map Str Waiter} {n k : ℕ}
    → n ≡ k
    → IsKept c waiting n
    → IsKept c waiting k
at_next {Value} {c} {waiting} e = subst (λ n. IsKept c waiting n) e

module _ {Metrics Sender Value : Type 0} where
  abbrev pub IsWell : Machine Metrics Sender Value → Type 0
  IsWell m = IsKept m.router.calls m.waiting m.router.call_counter

  -- The invariant holds, and the counter is at most one ahead.
  abbrev GoesOn : Machine Metrics Sender Value → ℕ → Type 0
  GoesOn m n = IsWell m × (m.router.call_counter ≤ suc n)

  sent-GoesOn :
      (m : Machine Metrics Sender Value) (terminal_id tool : Str) (millis : ℕ) (now : Instant)
      (timeout : ℕ) (registry : TerminalRegistry Metrics Sender) (sent : RegistryResult)
      → m.router.call_counter + 1 < 2 ^ 64
      → IsWell m
      → let id = call_id millis m.router.call_counter in
        let (calls, rx) = add_call m.router.calls id terminal_id tool now timeout in
        let router = record m.router {
          call_counter = (m.router.call_counter + 1) % 2 ^ 64;
          calls = calls;
          registry = registry;
        } in
        let (r, how) = sent_or_dropped router id rx sent in
        GoesOn (started m r terminal_id how) m.router.call_counter
  unfolding add_call
  sent-GoesOn m terminal_id tool millis now timeout registry Registry.ok l k =
      let n = m.router.call_counter in
      let next : suc n ≡ (n + 1) % 2 ^ 64 = omega arith in
      (
        at_next next (sent-IsKept m.router.calls m.waiting n millis terminal_id tool now timeout k),
        omega arith,
      )
  sent-GoesOn m terminal_id tool millis now timeout registry (Registry.err e) l k =
      let n = m.router.call_counter in
      let next : suc n ≡ (n + 1) % 2 ^ 64 = omega arith in
      (
        at_next next
            (unsent-IsKept m.router.calls m.waiting n millis terminal_id tool now timeout k),
        omega arith,
      )

  invoke-GoesOn :
      (m : Machine Metrics Sender Value) (o : Option (TerminalEntry Metrics))
      (terminal_id tool : Str) (millis : ℕ) (now : Instant) (timeout : ℕ) (opened : Sender → Bool)
      → m.router.call_counter + 1 < 2 ^ 64
      → IsWell m
      → let (r, how) = invoke_known m.router o terminal_id tool millis now timeout opened in
        GoesOn (started m r terminal_id how) m.router.call_counter
  unfolding invoke_known invoke_online generate_call_id
  invoke-GoesOn m none terminal_id tool millis now timeout opened l k = (k, omega arith)
  invoke-GoesOn m (some t) terminal_id tool millis now timeout opened l k =
      let online = invoke_online m.router terminal_id tool millis now timeout opened in
      let begun : Bool → McpRouter Metrics Sender Value × Started =
        λ b. if b then (m.router, currently_offline) else online in
      elim (status_beq t.status offline)
        as (λ b. GoesOn (started m (begun b).0 terminal_id (begun b).1) m.router.call_counter) [
          | true ↦ (k, omega arith)
          | false ↦
              let (registry, sent) = send_to_terminal m.router.registry terminal_id opened in
              sent-GoesOn m terminal_id tool millis now (effective_timeout timeout) registry sent l
                k
        ]

  resume-GoesOn :
      (m : Machine Metrics Sender Value) (id : Str) (w : Waiter) (opened : Sender → Bool)
      (o : Outcome Value)
      → IsWell m
      → GoesOn (resumed m id w opened o) m.router.call_counter
  unfolding give_up
  resume-GoesOn m id w opened still_waiting k = (k, omega arith)
  resume-GoesOn m id w opened timed_out k =
      (gone-IsKept m.router.calls m.waiting m.router.call_counter id k, omega arith)
  resume-GoesOn m id w opened (returned result) k =
      (remove-IsKept m.router.calls m.waiting m.router.call_counter id k, omega arith)
  resume-GoesOn m id w opened closed k =
      (remove-IsKept m.router.calls m.waiting m.router.call_counter id k, omega arith)

  wake-GoesOn :
      (m : Machine Metrics Sender Value) (id : Str) (o : Option Waiter) (elapsed : Bool)
      (opened : Sender → Bool)
      → IsWell m
      → GoesOn (resume m id o elapsed opened) m.router.call_counter
  wake-GoesOn m id none elapsed opened k = (k, omega arith)
  wake-GoesOn m id (some w) elapsed opened k =
      resume-GoesOn m id w opened (awaited m.router.calls w.rx elapsed) k

  cancel-GoesOn :
      (m : Machine Metrics Sender Value) (id : Str) (o : Option PendingCallEntry)
      (opened : Sender → Bool)
      → Map.get id m.router.calls.pending_calls ≡ o
      → IsWell m
      → GoesOn (record m { router = (cancel_found m.router id o opened).0 }) m.router.call_counter
  unfolding answer_call
  cancel-GoesOn m id none opened p k = (k, omega arith)
  cancel-GoesOn m id (some entry) opened p k = (
    subst
        (λ (o : Option PendingCallEntry).
          IsKept (send (drop_call m.router.calls id) o (err (cancelled id))) m.waiting
            m.router.call_counter)
        p (answer-IsKept m.router.calls m.waiting m.router.call_counter id (err (cancelled id)) k),
    omega arith,
  )

  step-GoesOn :
      (m : Machine Metrics Sender Value) (e : Event Metrics Sender Value)
      → m.router.call_counter + 1 < 2 ^ 64
      → IsWell m
      → GoesOn (step m e) m.router.call_counter
  unfolding step generate_call_id begin_invoke cancel_tool_call process_tool_result
      handle_terminal_disconnected
  step-GoesOn m (invokes terminal_id tool millis now timeout opened) l k =
      invoke-GoesOn m (get_terminal m.router.registry terminal_id now) terminal_id tool millis now
        timeout opened l k
  step-GoesOn m (resumes id elapsed opened) l k =
      wake-GoesOn m id (Map.get id m.waiting) elapsed opened k
  step-GoesOn m (results id success result error) l k =
      (answer-IsKept m.router.calls m.waiting m.router.call_counter id _ k, omega arith)
  step-GoesOn m (cancels id opened) l k =
      cancel-GoesOn m id (Map.get id m.router.calls.pending_calls) opened refl k
  step-GoesOn m (disconnects terminal_id reason) l k = (
    abort-IsKept m.router.calls m.waiting m.router.call_counter terminal_id reason k,
    omega arith,
  )
  step-GoesOn m (draws millis) l k =
      let n = m.router.call_counter in
      let next : suc n ≡ (n + 1) % 2 ^ 64 = omega arith in
      (at_next next (draw-IsKept m.router.calls m.waiting n k), omega arith)
  step-GoesOn m (registry_becomes registry) l k = (k, omega arith)

  pub run-IsKept :
      (m : Machine Metrics Sender Value) (es : List (Event Metrics Sender Value))
      → m.router.call_counter + length es < 2 ^ 64
      → IsWell m
      → IsWell (run m es)
  unfolding run
  run-IsKept m [] l k = k
  run-IsKept m (e ∷ es) l k =
      let s = step-GoesOn m e (omega arith) k in
      let b = s.1 in run-IsKept (step m e) es (omega arith) s.0
