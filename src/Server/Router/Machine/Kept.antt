-- ===== src/Server/Router/Machine/Kept.antt =====
-- router.rs: what every event keeps, so that no task waits for an answer that cannot come.
use at_pc.Common.{
  subst, ℕ, suc, ◌≡◌, sym, Str, some, inl, inr, arith, ◌==◌, ==_iff, ==_ne, str_eq, nat_eq,
  Bool-cases,
}
use at_pc.Map
use at_pc.Map.{Map}
use at_pc.Map.Laws.{get-insert, get-remove}
use at_pc.Time.{Instant}
use at_pc.Server.Router.Pending.{
  Channel, CallResult, Calls, add_call, drop_call, answer_call, abort_pending_calls_for_terminal,
}
use at_pc.Server.Router.Invoke.{call_id}
use at_pc.Server.Router.Served.{
  tx_at, IsSound, IsServed, drop-IsSound, add-IsSound, add-IsServed, add-IsServed_self,
  drop-IsServed, answer-IsSound, answer-IsServed, abort-IsSound, abort-IsServed, tx_at-drop,
  tx_at-add,
}
use at_pc.Server.Router.TakenOut.{answer-tx_at, abort-tx_at}
use at_pc.Server.Router.Machine.{Waiter}
use at_pc.Server.Router.Machine.CallId.{Drawn, ne-Drawn, mono-Drawn}

module _ {Value : Type 0} where
  -- Waiting tasks are served, and no id is ahead of the counter.
  pub record IsKept (c : Calls Value) (waiting : Map Str Waiter) (counter : ℕ) : Type 0 where
    pub sound : IsSound c
    pub served : (id : Str) (w : Waiter) → Map.get id waiting ≡ some w → IsServed c id w.rx
    pub waiting_drawn : (id : Str) (w : Waiter) → Map.get id waiting ≡ some w → Drawn counter id
    pub own :
        (id : Str) (w : Waiter) (t : Channel)
        → Map.get id waiting ≡ some w
        → tx_at c id ≡ some t
        → t ≡ w.rx

  pub draw-IsKept :
      (c : Calls Value) (waiting : Map Str Waiter) (n : ℕ)
      → IsKept c waiting n
      → IsKept c waiting (suc n)
  draw-IsKept c waiting n k = record {
    sound = k.sound;
    served = k.served;
    waiting_drawn = λ j w p. mono-Drawn n (suc n) j (omega arith) (k.waiting_drawn j w p);
    own = k.own;
  }

  pub remove-IsKept :
      (c : Calls Value) (waiting : Map Str Waiter) (n : ℕ) (id : Str)
      → IsKept c waiting n
      → IsKept c (Map.remove id waiting) n
  remove-IsKept c waiting n id k = record {
    sound = k.sound;
    served = λ j w p. k.served j w (ground (arith, get-remove id j waiting, p));
    waiting_drawn = λ j w p. k.waiting_drawn j w (ground (arith, get-remove id j waiting, p));
    own = λ j w t p q. k.own j w t (ground (arith, get-remove id j waiting, p)) q;
  }

  pub gone-IsKept :
      (c : Calls Value) (waiting : Map Str Waiter) (n : ℕ) (id : Str)
      → IsKept c waiting n
      → IsKept (drop_call c id) (Map.remove id waiting) n
  gone-IsKept c waiting n id k =
      let r = remove-IsKept c waiting n id k in
      record {
        sound = drop-IsSound c id k.sound;
        served = λ j w p.
            drop-IsServed c id j w.rx
              (λ e. ground (arith, get-remove id j waiting, p, e, ==_iff id j)) (r.served j w p);
        waiting_drawn = r.waiting_drawn;
        own = λ j w t p q. r.own j w t p (ground (arith, tx_at-drop c id j, q));
      }

  pub answer-IsKept :
      (c : Calls Value) (waiting : Map Str Waiter) (n : ℕ) (id : Str) (result : CallResult Value)
      → IsKept c waiting n
      → IsKept (answer_call c id result) waiting n
  answer-IsKept c waiting n id result k = record {
    sound = answer-IsSound c id result k.sound;
    served = λ j w p. answer-IsServed c id result j w.rx (k.served j w p);
    waiting_drawn = k.waiting_drawn;
    own = λ j w t p q. k.own j w t p (answer-tx_at c id result j t q);
  }

  pub abort-IsKept :
      (c : Calls Value) (waiting : Map Str Waiter) (n : ℕ) (terminal_id reason : Str)
      → IsKept c waiting n
      → IsKept (abort_pending_calls_for_terminal c terminal_id reason) waiting n
  abort-IsKept c waiting n terminal_id reason k = record {
    sound = abort-IsSound c terminal_id reason k.sound;
    served = λ j w p. abort-IsServed c terminal_id reason j w.rx (k.served j w p);
    waiting_drawn = k.waiting_drawn;
    own = λ j w t p q. k.own j w t p (abort-tx_at c terminal_id reason j t q);
  }

  module _ (c : Calls Value) (waiting : Map Str Waiter) (n millis : ℕ) (terminal tool : Str)
      (now : Instant) (timeout : ℕ) (k : IsKept c waiting n) where
    abbrev new_id : Str
    new_id = call_id millis n

    add-IsKept : IsKept (add_call c new_id terminal tool now timeout).0 waiting (suc n)
    add-IsKept = record {
      sound = add-IsSound c new_id terminal tool now timeout k.sound;
      served = λ j w p.
          add-IsServed c new_id terminal tool now timeout j w.rx
            (ne-Drawn n millis j (k.waiting_drawn j w p)) (k.served j w p);
      waiting_drawn = λ j w p. mono-Drawn n (suc n) j (omega arith) (k.waiting_drawn j w p);
      own = λ j w t p q. k.own j w t p (
          ground (
            arith,
            tx_at-add c new_id terminal tool now timeout j,
            ==_ne new_id j (ne-Drawn n millis j (k.waiting_drawn j w p)),
            q,
          ));
    }

    pub unsent-IsKept :
        IsKept (drop_call (add_call c new_id terminal tool now timeout).0 new_id) waiting (suc n)
    unsent-IsKept =
        let a = add-IsKept in
        record {
          sound = drop-IsSound _ new_id a.sound;
          served = λ j w p.
              drop-IsServed _ new_id j w.rx (ne-Drawn n millis j (k.waiting_drawn j w p))
                (a.served j w p);
          waiting_drawn = a.waiting_drawn;
          own = λ j w t p q. a.own j w t p (
              ground
                (arith, tx_at-drop (add_call c new_id terminal tool now timeout).0 new_id j, q));
        }

    pub sent-IsKept :
        IsKept
          (add_call c new_id terminal tool now timeout).0
          (Map.insert new_id (record { rx = c.next_channel; terminal_id = terminal }) waiting)
          (suc n)
    sent-IsKept =
        let a = add-IsKept in
        let new : Waiter = record { rx = c.next_channel; terminal_id = terminal } in
        record {
          sound = a.sound;
          served = λ j w p. elim (Bool-cases (new_id == j)) [
            | inl q ↦
                let same : c.next_channel ≡ w.rx =
                  ground (arith, get-insert new_id j new waiting, p, q) in
                subst
                  (λ (t : Channel). IsServed (add_call c new_id terminal tool now timeout).0 j t)
                  same
                  (subst
                    (λ i. IsServed (add_call c new_id terminal tool now timeout).0 i c.next_channel)
                    ((==_iff new_id j).0 q) (add-IsServed_self c new_id terminal tool now timeout))
            | inr q ↦ a.served j w (ground (arith, get-insert new_id j new waiting, p, q))
          ];
          waiting_drawn = λ j w p. elim (Bool-cases (new_id == j)) [
            | inl q ↦ record {
              millis = millis;
              seq = n;
              is_id = sym ((==_iff new_id j).0 q);
              seq_below = omega arith;
            }
            | inr q ↦ a.waiting_drawn j w (ground (arith, get-insert new_id j new waiting, p, q))
          ];
          own = λ j w t p r. elim (Bool-cases (new_id == j)) [
            | inl q ↦ ground (
              arith,
              get-insert new_id j new waiting,
              tx_at-add c new_id terminal tool now timeout j,
              p,
              q,
              r,
            )
            | inr q ↦ a.own j w t (ground (arith, get-insert new_id j new waiting, p, q)) r
          ];
        }
