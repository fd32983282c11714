-- ===== src/Server/Router/TakenOut.antt =====
-- router.rs: answering takes senders out of the map, and puts none in.
use at_pc.Common.{◌≡◌, Str, Option, none, some, List, [], ◌∷◌, arith, str_eq, nat_eq}
use at_pc.Map
use at_pc.Map.{Map}
use at_pc.Server.Router.Pending.{
  Channel, CallResult, err, disconnected, target_keys, PendingCallEntry, Calls, drop_call,
  answer_call, answer_all, send, abort_pending_calls_for_terminal,
}
use at_pc.Server.Router.Served.{tx_at, tx_at-drop}

module _ {Value : Type 0} where
  tx_at-answer :
      (c : Calls Value) (id : Str) (result : CallResult Value) (o : Option PendingCallEntry)
      (j : Str) (t : Channel)
      → tx_at (send (drop_call c id) o result) j ≡ some t
      → tx_at c j ≡ some t
  tx_at-answer c id result none j t p = ground (arith, tx_at-drop c id j, p)
  tx_at-answer c id result (some entry) j t p = ground (arith, tx_at-drop c id j, p)

  pub answer-tx_at :
      (c : Calls Value) (id : Str) (result : CallResult Value) (j : Str) (t : Channel)
      → tx_at (answer_call c id result) j ≡ some t
      → tx_at c j ≡ some t
  unfolding answer_call
  answer-tx_at c id result j t p = tx_at-answer c id result (Map.get id c.pending_calls) j t p

  answer_all-tx_at :
      (c : Calls Value) (ids : List Str) (result : CallResult Value) (j : Str) (t : Channel)
      → tx_at (answer_all c ids result) j ≡ some t
      → tx_at c j ≡ some t
  unfolding answer_all
  answer_all-tx_at c [] result j t p = p
  answer_all-tx_at c (id ∷ ids) result j t p =
      answer-tx_at c id result j t (answer_all-tx_at (answer_call c id result) ids result j t p)

  pub abort-tx_at :
      (c : Calls Value) (terminal_id reason j : Str) (t : Channel)
      → tx_at (abort_pending_calls_for_terminal c terminal_id reason) j ≡ some t
      → tx_at c j ≡ some t
  unfolding abort_pending_calls_for_terminal
  abort-tx_at c terminal_id reason j t p =
      answer_all-tx_at c (target_keys terminal_id c.pending_calls)
        (err (disconnected terminal_id reason)) j t p
