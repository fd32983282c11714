-- ===== src/Server/Tickets/Laws.antt =====
-- desktop_ticket.rs: a ticket opens its terminal once, within its time.
use at_pc.Common.{
  ap, ◌∙◌, ℕ, ◌+◌, ◌<◌, ◌≡◌, ◌≢◌, Str, none, some, List, [], ◌∷◌, arith, All, str_eq, ◌==◌, ==_ne,
  ltb, if◌then◌else◌,
}
use at_pc.Map
use at_pc.Map.{Map}
use at_pc.Map.Laws.{get-insert_self, get-insert_ne, get-remove, get-remove_self}
use at_pc.Map.Distinct.{Distinct, get-retain, insert-Distinct, remove-Distinct, retain-Distinct}
use at_pc.Time.{Instant}
use at_pc.Protocol.{Role}
use at_pc.Server.Tickets.{
  not_found, expired, terminal_mismatch, ok, err, DesktopTicket, DesktopTicketStore, new_ticket,
  is_alive, issue, redeem, consume,
}

pub data Op : Type 0 where
  issues : Str → Role → List ℕ → Instant → Op
  consumes : Str → Str → Instant → Op

unfoldable pub step : DesktopTicketStore → Op → DesktopTicketStore
step s (issues terminal_id role bytes now) = (issue s terminal_id role bytes now).0
step s (consumes ticket terminal_id now) = (consume s ticket terminal_id now).0

unfoldable pub run : DesktopTicketStore → List Op → DesktopTicketStore
run s [] = s
run s (o ∷ os) = run (step s o) os

-- The operation does not draw this ticket.
abbrev pub DrawsOther : Str → Op → Type 0
DrawsOther ticket (issues terminal_id role bytes now) = new_ticket bytes ≢ ticket
DrawsOther ticket (consumes ticket' terminal_id now) = Unit

-- Nor does it take this ticket, and it runs before the ticket ends.
abbrev pub Spares : Str → Instant → Op → Type 0
Spares ticket end (issues terminal_id role bytes now) = (new_ticket bytes ≢ ticket) × now < end
Spares ticket end (consumes ticket' terminal_id now) = ticket' ≢ ticket

step-Distinct : (s : DesktopTicketStore) (o : Op) → Distinct s.tickets → Distinct (step s o).tickets
unfolding step issue consume
step-Distinct s (issues terminal_id role bytes now) d =
    insert-Distinct (new_ticket bytes) _ _ (retain-Distinct (is_alive now) s.tickets d)
step-Distinct s (consumes ticket terminal_id now) d = remove-Distinct ticket s.tickets d

step_gone :
    (s : DesktopTicketStore) (o : Op) (ticket : Str)
    → Distinct s.tickets
    → DrawsOther ticket o
    → Map.get ticket s.tickets ≡ none
    → Map.get ticket (step s o).tickets ≡ none
unfolding step issue consume
step_gone s (issues terminal_id role bytes now) ticket d u h =
    get-insert_ne (new_ticket bytes) ticket _ _ u
    ∙ (ground (arith, get-retain (is_alive now) ticket s.tickets d, h))
step_gone s (consumes ticket' terminal_id now) ticket d u h =
    ground (arith, get-remove ticket' ticket s.tickets)

run_gone :
    (s : DesktopTicketStore) (os : List Op) (ticket : Str)
    → Distinct s.tickets
    → All (DrawsOther ticket) os
    → Map.get ticket s.tickets ≡ none
    → Map.get ticket (run s os).tickets ≡ none
unfolding run
run_gone s [] ticket d u h = h
run_gone s (o ∷ os) ticket d u h =
    run_gone (step s o) os ticket (step-Distinct s o d) u.1 (step_gone s o ticket d u.0 h)

-- Once a ticket was presented, with whatever answer, it is never accepted again, unless the same random
-- bytes are drawn again.
pub consumed_once :
    (s : DesktopTicketStore) (ticket terminal_id terminal_id' : Str) (at now : Instant)
    (os : List Op)
    → Distinct s.tickets
    → All (DrawsOther ticket) os
    → (consume (run (consume s ticket terminal_id at).0 os) ticket terminal_id' now).1
      ≡ err not_found
unfolding consume
consumed_once s ticket terminal_id terminal_id' at now os d u =
    ap (λ o. redeem o terminal_id' now)
      (run_gone (consume s ticket terminal_id at).0 os ticket (remove-Distinct ticket s.tickets d) u
        (get-remove_self ticket s.tickets))

step_there :
    (s : DesktopTicketStore) (o : Op) (ticket : Str) (v : DesktopTicket)
    → Distinct s.tickets
    → Spares ticket v.expires_at o
    → Map.get ticket s.tickets ≡ some v
    → Map.get ticket (step s o).tickets ≡ some v
unfolding step issue consume
step_there s (issues terminal_id role bytes now) ticket v d (u, l) h =
    get-insert_ne (new_ticket bytes) ticket _ _ u
    ∙ (ground (arith, get-retain (is_alive now) ticket s.tickets d, h))
step_there s (consumes ticket' terminal_id now) ticket v d u h =
    ground (arith, get-remove ticket' ticket s.tickets, ==_ne ticket' ticket u)

run_there :
    (s : DesktopTicketStore) (os : List Op) (ticket : Str) (v : DesktopTicket)
    → Distinct s.tickets
    → All (Spares ticket v.expires_at) os
    → Map.get ticket s.tickets ≡ some v
    → Map.get ticket (run s os).tickets ≡ some v
unfolding run
run_there s [] ticket v d u h = h
run_there s (o ∷ os) ticket v d u h =
    run_there (step s o) os ticket v (step-Distinct s o d) u.1 (step_there s o ticket v d u.0 h)

-- A ticket that was issued, and neither presented nor drawn again since, is answered by its age and its
-- terminal: expired after its time to live, a mismatch for another terminal, and else the role it was
-- issued for. Condition: whatever was issued in between was issued before the ticket ended.
pub issue-consume :
    (s : DesktopTicketStore) (terminal_id terminal_id' : Str) (role : Role) (bytes : List ℕ)
    (at now : Instant) (os : List Op)
    → Distinct s.tickets
    → All (Spares (new_ticket bytes) (at + s.ttl)) os
    → let (s', ticket) = issue s terminal_id role bytes at in
      (consume (run s' os) ticket terminal_id' now).1 ≡ (
        if ltb (at + s.ttl) now
        then err expired
        else if terminal_id == terminal_id'
        then ok role
        else err terminal_mismatch)
unfolding issue consume
issue-consume s terminal_id terminal_id' role bytes at now os d u =
    ap (λ o. redeem o terminal_id' now)
      (run_there (issue s terminal_id role bytes at).0 os (new_ticket bytes) _
        (insert-Distinct (new_ticket bytes) _ _ (retain-Distinct (is_alive at) s.tickets d)) u
        (get-insert_self (new_ticket bytes) _ _))
