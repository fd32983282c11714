-- ===== src/Server/Router/Machine/Prospect.antt =====
-- router.rs: what a waiting task can still get through its channel.
use at_pc.Common.{
  ◌≡◌, ◌≢◌, refl, ap, sym, ◌∙◌, Str, Bool, true, false, Option, none, some, [], ◌∷◌, inl, inr,
  arith, ==_ne, ==_self, str_eq, nat_eq, Option-cases,
}
use at_pc.Map
use at_pc.Map.{Map}
use at_pc.Map.Laws.{map_opt}
use at_pc.Server.Router.Pending.{
  Channel, CallResult, PendingCallEntry, Calls, drop_call, answer_call, send,
}
use at_pc.Server.Router.Served.{tx_at, IsSound, IsServed, answer-IsSound, answer-IsServed}
use at_pc.Server.Router.Machine.{returned, closed, has_sender, unanswered, answered_or, awaited}

has_sender-get :
    (m : Map Str PendingCallEntry) (id : Str) (rx : Channel)
    → map_opt (λ (e : PendingCallEntry). e.tx) (Map.get id m) ≡ some rx
    → has_sender rx m ≡ true
unfolding has_sender Map.get
has_sender-get [] id rx p = absurd (ground (arith, p))
has_sender-get ((k, e) ∷ m) id rx p = ground (arith, p, has_sender-get m id rx)

module _ {Value : Type 0} where
  pub awaited-answered :
      (c : Calls Value) (rx : Channel) (r : CallResult Value) (elapsed : Bool)
      → Map.get rx c.answers ≡ some r
      → awaited c rx elapsed ≡ returned r
  unfolding awaited
  awaited-answered c rx r elapsed p =
      ap (λ o. answered_or o (unanswered (has_sender rx c.pending_calls) elapsed)) p

  awaited-unanswered :
      (c : Calls Value) (rx : Channel) (elapsed : Bool)
      → Map.get rx c.answers ≡ none
      → awaited c rx elapsed ≡ unanswered (has_sender rx c.pending_calls) elapsed
  unfolding awaited
  awaited-unanswered c rx elapsed p =
      ap (λ o. answered_or o (unanswered (has_sender rx c.pending_calls) elapsed)) p

  pub unanswered-ne : (elapsed : Bool) → unanswered {Value = Value} true elapsed ≢ closed
  unanswered-ne true e = ground (arith, e)
  unanswered-ne false e = ground (arith, e)

  -- A call that is served awaits an answer that was sent, or can be.
  pub data Prospect (c : Calls Value) (rx : Channel) (elapsed : Bool) : Type 0 where
    sent :
        (r : CallResult Value)
        → Map.get rx c.answers ≡ some r
        → awaited c rx elapsed ≡ returned r
        → Prospect c rx elapsed
    open_still :
        Map.get rx c.answers ≡ none
        → awaited c rx elapsed ≡ unanswered true elapsed
        → Prospect c rx elapsed

  pub served-Prospect :
      (c : Calls Value) (id : Str) (rx : Channel) (elapsed : Bool)
      → IsServed c id rx
      → IsSound c
      → Prospect c rx elapsed
  unfolding Map.contains_key
  served-Prospect c id rx elapsed (inl p) h =
      let n = h.unanswered id rx p in
      open_still n (
        awaited-unanswered c rx elapsed n
        ∙ ap (λ b. unanswered b elapsed) (has_sender-get c.pending_calls id rx p))
  served-Prospect c id rx elapsed (inr p) h = elim (Option-cases (Map.get rx c.answers)) [
    | inl n ↦ absurd (ground (arith, n, p))
    | inr (r, q) ↦ sent r q (awaited-answered c rx r elapsed q)
  ]

  get-sent :
      (c : Calls Value) (id : Str) (o : Option PendingCallEntry) (result : CallResult Value)
      (rx : Channel)
      → map_opt (λ (e : PendingCallEntry). e.tx) o ≡ some rx
      → Map.get rx (send (drop_call c id) o result).answers ≡ some result
  unfolding drop_call Map.get
  get-sent c id none result rx p = absurd (ground (arith, p))
  get-sent c id (some entry) result rx p = ground (arith, p, ==_self rx)

  get-sent_other :
      (c : Calls Value) (id : Str) (o : Option PendingCallEntry) (result : CallResult Value)
      (rx : Channel)
      → map_opt (λ (e : PendingCallEntry). e.tx) o ≢ some rx
      → Map.get rx (send (drop_call c id) o result).answers ≡ Map.get rx c.answers
  unfolding drop_call Map.get
  get-sent_other c id none result rx ne = refl
  get-sent_other c id (some entry) result rx ne =
      ground (arith, ==_ne entry.tx rx (λ e. ne (ap some e)))

  -- The answer of one call, as the task of that call sees it, and as another one does.
  pub answer-awaited :
      (c : Calls Value) (id : Str) (rx : Channel) (result : CallResult Value) (elapsed : Bool)
      → tx_at c id ≡ some rx
      → awaited (answer_call c id result) rx elapsed ≡ returned result
  unfolding answer_call
  answer-awaited c id rx result elapsed p =
      awaited-answered (answer_call c id result) rx result elapsed
        (get-sent c id (Map.get id c.pending_calls) result rx p)

  other-tx :
      (c : Calls Value) (id j : Str) (rx : Channel)
      → IsSound c
      → IsServed c j rx
      → id ≢ j
      → tx_at c id ≢ some rx
  unfolding Map.contains_key
  other-tx c id j rx h (inl q) ne p = ne (h.single id j rx p q)
  other-tx c id j rx h (inr q) ne p = ground (arith, h.unanswered id rx p, q)

  pub answer-awaited_other :
      (c : Calls Value) (id j : Str) (rx : Channel) (result : CallResult Value) (elapsed : Bool)
      → IsSound c
      → IsServed c j rx
      → id ≢ j
      → awaited (answer_call c id result) rx elapsed ≡ awaited c rx elapsed
  answer-awaited_other c id j rx result elapsed h v ne =
      let same : Map.get rx (answer_call c id result).answers ≡ Map.get rx c.answers =
        unfold answer_call in
        get-sent_other c id (Map.get id c.pending_calls) result rx (other-tx c id j rx h v ne) in
      elim (served-Prospect c j rx elapsed v h) [
        | sent r p w ↦ awaited-answered _ rx r elapsed (same ∙ p) ∙ sym w
        | open_still n w ↦
            elim (served-Prospect (answer_call c id result) j rx elapsed
              (answer-IsServed c id result j rx v) (answer-IsSound c id result h)) [
                | sent r p w' ↦ absurd (ground (arith, p, same, n))
                | open_still n' w' ↦ w' ∙ sym w
              ]
      ]
