-- ===== src/Server/Router/Served.antt =====
-- router.rs: the channels of the pending calls. Every operation on the map keeps each channel to at most
-- one answer, and loses no sender without an answer but by `drop_call`.
use at_pc.Common.{
  ap, ◌∙◌, ℕ, ◌<◌, ◌≡◌, ◌≢◌, refl, Str, true, Option, none, some, List, [], ◌∷◌, ◌⊎◌, inl, inr,
  arith, ◌==◌, ==_iff, ==_ne, ==_self, str_eq, nat_eq, Option-cases, Bool-cases, if◌then◌else◌,
}
use at_pc.Map
use at_pc.Map.{Map}
use at_pc.Map.Laws.{map_opt, get-insert, get-remove}
use at_pc.Map.Distinct.{Distinct}
use at_pc.Time.{Instant}
use at_pc.Server.Router.Pending.{
  Channel, CallResult, err, disconnected, target_keys, PendingCallEntry, new_entry, Calls, add_call,
  drop_call, answer_call, answer_all, send, abort_pending_calls_for_terminal,
}

module _ {Value : Type 0} where
  -- The channel of the call with this id.
  abbrev pub tx_at : Calls Value → Str → Option Channel
  tx_at c id = map_opt (λ (e : PendingCallEntry). e.tx) (Map.get id c.pending_calls)

  pub record IsSound (c : Calls Value) : Type 0 where
    pub unanswered : (id : Str) (t : Channel) → tx_at c id ≡ some t → Map.get t c.answers ≡ none
    pub pending_below : (id : Str) (t : Channel) → tx_at c id ≡ some t → t < c.next_channel
    pub single : (i j : Str) (t : Channel) → tx_at c i ≡ some t → tx_at c j ≡ some t → i ≡ j
    pub sent_below : (t : Channel) → Map.contains_key t c.answers ≡ true → t < c.next_channel
    pub once : Distinct c.answers

  -- The call has its sender in the map still, or it has its answer.
  abbrev pub IsServed : Calls Value → Str → Channel → Type 0
  IsServed c id rx = (tx_at c id ≡ some rx) ⊎ (Map.contains_key rx c.answers ≡ true)

  pub tx_at-drop :
      (c : Calls Value) (id j : Str)
      → tx_at (drop_call c id) j ≡ (if id == j then none else tx_at c j)
  unfolding drop_call
  tx_at-drop c id j = ground (arith, get-remove id j c.pending_calls)

  pub drop-IsSound : (c : Calls Value) (id : Str) → IsSound c → IsSound (drop_call c id)
  unfolding drop_call
  drop-IsSound c id h = record {
    unanswered = λ j t p. ground (arith, tx_at-drop c id j, h.unanswered j t, p);
    pending_below = λ j t p. ground (arith, tx_at-drop c id j, h.pending_below j t, p);
    single =
        λ i j t p q. ground (arith, tx_at-drop c id i, tx_at-drop c id j, h.single i j t, p, q);
    sent_below = h.sent_below;
    once = h.once;
  }

  pub tx_at-add :
      (c : Calls Value) (id terminal tool : Str) (now : Instant) (timeout : ℕ) (j : Str)
      → tx_at (add_call c id terminal tool now timeout).0 j
        ≡ (if id == j then some c.next_channel else tx_at c j)
  unfolding add_call
  tx_at-add c id terminal tool now timeout j =
      ground (
        arith,
        get-insert id j (new_entry terminal tool now timeout c.next_channel) c.pending_calls,
      )

  get-unsent :
      (c : Calls Value) (t : Channel) → IsSound c → c.next_channel ≡ t → Map.get t c.answers ≡ none
  unfolding Map.contains_key
  get-unsent c t h e = elim (Option-cases (Map.get t c.answers)) [
    | inl p ↦ p
    | inr (r, p) ↦ absurd (ground (arith, h.sent_below t, p))
  ]

  pub add-IsSound :
      (c : Calls Value) (id terminal tool : Str) (now : Instant) (timeout : ℕ)
      → IsSound c
      → IsSound (add_call c id terminal tool now timeout).0
  unfolding add_call
  add-IsSound c id terminal tool now timeout h =
      let at = tx_at-add c id terminal tool now timeout in
      record {
        unanswered = λ j t p. ground (arith, at j, h.unanswered j t, get-unsent c t h, p);
        pending_below = λ j t p. ground (arith, at j, h.pending_below j t, p);
        single = λ i j t p q. ground (
          arith,
          at i,
          at j,
          h.single i j t,
          h.pending_below i t,
          h.pending_below j t,
          p,
          q,
          ==_iff id i,
          ==_iff id j,
        );
        sent_below = λ t p. ground (arith, h.sent_below t p);
        once = h.once;
      }

  pub add-IsServed :
      (c : Calls Value) (id terminal tool : Str) (now : Instant) (timeout : ℕ) (j : Str)
      (rx : Channel)
      → id ≢ j
      → IsServed c j rx
      → IsServed (add_call c id terminal tool now timeout).0 j rx
  unfolding add_call
  add-IsServed c id terminal tool now timeout j rx ne (inl p) =
      inl (ground (arith, tx_at-add c id terminal tool now timeout j, ==_ne id j ne, p))
  add-IsServed c id terminal tool now timeout j rx ne (inr p) = inr p

  pub add-IsServed_self :
      (c : Calls Value) (id terminal tool : Str) (now : Instant) (timeout : ℕ)
      → IsServed (add_call c id terminal tool now timeout).0 id c.next_channel
  add-IsServed_self c id terminal tool now timeout =
      inl (ground (arith, tx_at-add c id terminal tool now timeout id, ==_self id))

  pub drop-IsServed :
      (c : Calls Value) (id j : Str) (rx : Channel)
      → id ≢ j
      → IsServed c j rx
      → IsServed (drop_call c id) j rx
  drop-IsServed c id j rx ne (inl p) = inl (ground (arith, tx_at-drop c id j, ==_ne id j ne, p))
  drop-IsServed c id j rx ne (inr p) = inr (unfold drop_call in p)

  -- No other call has the channel of the one that was taken out.
  tx_at_ne :
      (c : Calls Value) (id j : Str) (t u : Channel)
      → IsSound c
      → tx_at c id ≡ some u
      → tx_at (drop_call c id) j ≡ some t
      → u ≢ t
  tx_at_ne c id j t u h mine p q =
      ground (arith, tx_at-drop c id j, h.single id j t (mine ∙ ap some q), p, ==_iff id j)

  answered-IsSound :
      (c : Calls Value) (id : Str) (result : CallResult Value) (o : Option PendingCallEntry)
      → Map.get id c.pending_calls ≡ o
      → IsSound c
      → IsSound (send (drop_call c id) o result)
  unfolding drop_call Map.contains_key Map.get
  answered-IsSound c id result none e h = drop-IsSound c id h
  answered-IsSound c id result (some entry) e h =
      let d = drop-IsSound c id h in
      let mine : tx_at c id ≡ some entry.tx = ground (arith, e) in
      record {
        unanswered = λ j t p.
            ground
              (arith, d.unanswered j t p, tx_at_ne c id j t entry.tx h mine p, ==_iff entry.tx t);
        pending_below = d.pending_below;
        single = d.single;
        sent_below = λ t p. ground (arith, h.sent_below t, h.pending_below id entry.tx mine, p);
        once = (h.unanswered id entry.tx mine, h.once);
      }

  pub answer-IsSound :
      (c : Calls Value) (id : Str) (result : CallResult Value)
      → IsSound c
      → IsSound (answer_call c id result)
  unfolding answer_call
  answer-IsSound c id result h = answered-IsSound c id result (Map.get id c.pending_calls) refl h

  answered-IsServed :
      (c : Calls Value) (id : Str) (result : CallResult Value) (o : Option PendingCallEntry)
      (j : Str) (rx : Channel)
      → Map.get id c.pending_calls ≡ o
      → IsServed c j rx
      → IsServed (send (drop_call c id) o result) j rx
  unfolding drop_call Map.contains_key Map.get
  answered-IsServed c id result none j rx e (inl p) =
      inl (ground (arith, tx_at-drop c id j, e, p, ==_iff id j))
  answered-IsServed c id result none j rx e (inr p) = inr p
  answered-IsServed c id result (some entry) j rx e (inl p) = elim (Bool-cases (id == j)) [
    | inl q ↦ inr (ground (arith, q, ==_iff id j, e, p, ==_self rx))
    | inr q ↦ inl (ground (arith, tx_at-drop c id j, q, p))
  ]
  answered-IsServed c id result (some entry) j rx e (inr p) = inr (ground (arith, p))

  pub answer-IsServed :
      (c : Calls Value) (id : Str) (result : CallResult Value) (j : Str) (rx : Channel)
      → IsServed c j rx
      → IsServed (answer_call c id result) j rx
  unfolding answer_call
  answer-IsServed c id result j rx h =
      answered-IsServed c id result (Map.get id c.pending_calls) j rx refl h

  answer_all-IsSound :
      (c : Calls Value) (ids : List Str) (result : CallResult Value)
      → IsSound c
      → IsSound (answer_all c ids result)
  unfolding answer_all
  answer_all-IsSound c [] result h = h
  answer_all-IsSound c (id ∷ ids) result h =
      answer_all-IsSound (answer_call c id result) ids result (answer-IsSound c id result h)

  answer_all-IsServed :
      (c : Calls Value) (ids : List Str) (result : CallResult Value) (j : Str) (rx : Channel)
      → IsServed c j rx
      → IsServed (answer_all c ids result) j rx
  unfolding answer_all
  answer_all-IsServed c [] result j rx h = h
  answer_all-IsServed c (id ∷ ids) result j rx h =
      answer_all-IsServed (answer_call c id result) ids result j rx
        (answer-IsServed c id result j rx h)

  pub abort-IsSound :
      (c : Calls Value) (terminal_id reason : Str)
      → IsSound c
      → IsSound (abort_pending_calls_for_terminal c terminal_id reason)
  unfolding abort_pending_calls_for_terminal
  abort-IsSound c terminal_id reason h =
      answer_all-IsSound c (target_keys terminal_id c.pending_calls)
        (err (disconnected terminal_id reason)) h

  pub abort-IsServed :
      (c : Calls Value) (terminal_id reason j : Str) (rx : Channel)
      → IsServed c j rx
      → IsServed (abort_pending_calls_for_terminal c terminal_id reason) j rx
  unfolding abort_pending_calls_for_terminal
  abort-IsServed c terminal_id reason j rx h =
      answer_all-IsServed c (target_keys terminal_id c.pending_calls)
        (err (disconnected terminal_id reason)) j rx h
