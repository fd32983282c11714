-- ===== src/Server/Router/Machine/Answered.antt =====
-- router.rs: what the tasks that wait in `invoke_tool` can rely on, over any sequence of events.
use at_pc.Common.{
  ◌+◌, ◌^◌, ◌<◌, ◌≡◌, ◌≢◌, ap, sym, ◌∙◌, Str, Bool, Option, none, some, List, [], inl, inr, subst,
  arith, length, ==_self, str_eq, nat_eq, Option-cases, ascii,
}
use at_pc.Map
use at_pc.Map.{Map}
use at_pc.Map.Laws.{map_opt, get-remove}
use at_pc.Map.Distinct.{Distinct}
use at_pc.Server.Router.Pending.{Channel, CallResult, PendingCallEntry, drop_call, tool_result}
use at_pc.Server.Router.Invoke.{give_up, process_tool_result}
use at_pc.Server.Router.Served.{tx_at}
use at_pc.Server.Router.Machine.{
  Waiter, Machine, returned, closed, timed_out, awaited, Event, resumed, run,
}
use at_pc.Server.Router.Machine.Prospect.{
  sent, open_still, served-Prospect, answer-awaited, answer-awaited_other, unanswered-ne,
}
use at_pc.Server.Router.Machine.Steps.{IsWell, run-IsKept}

module _ {Metrics Sender Value : Type 0} where
  -- No task waits, and no call is pending.
  pub record IsNew (m : Machine Metrics Sender Value) : Type 0 where
    pub nothing_pending : m.router.calls.pending_calls ≡ []
    pub nothing_sent : m.router.calls.answers ≡ []
    pub nobody_waits : m.waiting ≡ []

  new-IsWell : (m : Machine Metrics Sender Value) → IsNew m → IsWell m
  unfolding Map.get Map.contains_key
  new-IsWell m n =
      let none_at : (id : Str) → Map.get id m.waiting ≡ none =
        λ id. ap (λ w. Map.get id w) n.nobody_waits in
      let no_tx : (id : Str) → tx_at m.router.calls id ≡ none =
        λ id. ap (λ w. map_opt (λ (e : PendingCallEntry). e.tx) (Map.get id w)) n.nothing_pending in
      let no_answer : (t : Channel) → Map.get t m.router.calls.answers ≡ none =
        λ t. ap (λ w. Map.get t w) n.nothing_sent in
      record {
        sound = record {
          unanswered = λ id t p. absurd (ground (arith, no_tx id, p));
          pending_below = λ id t p. absurd (ground (arith, no_tx id, p));
          single = λ i j t p q. absurd (ground (arith, no_tx i, p));
          sent_below = λ t p. absurd (ground (arith, no_answer t, p));
          once = subst Distinct (sym n.nothing_sent) tt;
        };
        served = λ id w p. absurd (ground (arith, none_at id, p));
        waiting_drawn = λ id w p. absurd (ground (arith, none_at id, p));
        own = λ id w t p q. absurd (ground (arith, none_at id, p));
      }

  reached :
      (m : Machine Metrics Sender Value) (es : List (Event Metrics Sender Value))
      → IsNew m
      → m.router.call_counter + length es < 2 ^ 64
      → IsWell (run m es)
  reached m es n l = run-IsKept m es l (new-IsWell m n)

  abbrev IsGone : Str → Machine Metrics Sender Value → Type 0
  IsGone id m = (Map.get id m.waiting ≡ none) × (Map.get id m.router.calls.pending_calls ≡ none)

  returned-IsGone :
      (m : Machine Metrics Sender Value) (id : Str) (w : Waiter) (r : CallResult Value)
      → IsWell m
      → Map.get id m.waiting ≡ some w
      → Map.get w.rx m.router.calls.answers ≡ some r
      → IsGone id (record m { waiting = Map.remove id m.waiting })
  returned-IsGone m id w r k p q = (
    ground (arith, get-remove id id m.waiting, ==_self id),
    elim (Option-cases (Map.get id m.router.calls.pending_calls)) [
      | inl none_left ↦ none_left
      | inr (entry, left) ↦
          let mine : tx_at m.router.calls id ≡ some entry.tx = ground (arith, left) in
          absurd
            (ground (arith, k.own id w entry.tx p mine, k.sound.unanswered id entry.tx mine, q))
    ],
  )

  timed_out-IsGone :
      (m : Machine Metrics Sender Value) (id : Str) (w : Waiter) (opened : Sender → Bool)
      → IsGone id (resumed m id w opened timed_out)
  unfolding give_up drop_call
  timed_out-IsGone m id w opened = (
    ground (arith, get-remove id id m.waiting, ==_self id),
    ground (arith, get-remove id id m.router.calls.pending_calls, ==_self id),
  )

  -- From a new router, over any sequence of events in which the id counter does not wrap around: no channel is answered
  -- twice; and a task that still waits finds its answer, or its channel with a sender, so that the arm
  -- for a closed channel is never taken.
  pub run-never_closed :
      (m : Machine Metrics Sender Value) (es : List (Event Metrics Sender Value))
      → IsNew m
      → m.router.call_counter + length es < 2 ^ 64
      → Distinct (run m es).router.calls.answers
        × ((id : Str) (w : Waiter) (elapsed : Bool)
            → Map.get id (run m es).waiting ≡ some w
            → awaited (run m es).router.calls w.rx elapsed ≢ closed)
  run-never_closed m es n l =
      let k = reached m es n l in
      (
        k.sound.once,
        λ id w elapsed p.
            elim (served-Prospect (run m es).router.calls id w.rx elapsed (k.served id w p)
              k.sound) [
                | sent r q e ↦ λ c. ground (arith, e, c)
                | open_still q e ↦ λ c. unanswered-ne {Value = Value} elapsed (sym e ∙ c)
              ],
      )

  -- A result that comes in for a call that waits without an answer is what the task of that call
  -- returns, whether or not its timeout has passed; no other waiting task sees a difference.
  pub process_tool_result-delivers :
      (m : Machine Metrics Sender Value) (es : List (Event Metrics Sender Value)) (id : Str)
      (w : Waiter) (success : Bool) (result : Value) (error : Option Str) (elapsed : Bool)
      → IsNew m
      → m.router.call_counter + length es < 2 ^ 64
      → Map.get id (run m es).waiting ≡ some w
      → Map.get w.rx (run m es).router.calls.answers ≡ none
      → let before = (run m es).router in
        let after = process_tool_result before id success result error in
        (awaited after.calls w.rx elapsed
          ≡ returned (tool_result success result error (ascii "Tool execution failed on agent")))
        × ((j : Str) (v : Waiter)
            → Map.get j (run m es).waiting ≡ some v
            → id ≢ j
            → awaited after.calls v.rx elapsed ≡ awaited before.calls v.rx elapsed)
  unfolding process_tool_result Map.contains_key
  process_tool_result-delivers m es id w success result error elapsed n l p u =
      let k = reached m es n l in
      let c = (run m es).router.calls in
      let r = tool_result success result error (ascii "Tool execution failed on agent") in
      (
        elim (k.served id w p) [
          | inl q ↦ answer-awaited c id w.rx r elapsed q
          | inr q ↦ absurd (ground (arith, u, q))
        ],
        λ j v q ne. answer-awaited_other c id j v.rx r elapsed k.sound (k.served j v q) ne,
      )
