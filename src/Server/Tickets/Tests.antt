-- ===== src/Server/Tickets/Tests.antt =====
-- desktop_ticket.rs: tickets at concrete inputs.
use at_pc.Common.{◌≡◌, ◌≢◌, ascii, [], ◌∷◌, arith, str_eq}
use at_pc.Time.{from_secs}
use at_pc.Protocol.{admin}
use at_pc.Server.KeyStore.Credential.{hex_encode}
use at_pc.Server.Tickets.{DesktopTicketStore, new_store, new_ticket, err, not_found, consume}
use at_pc.Server.Tickets.Laws.{issues, run, consumed_once}

abbrev empty : DesktopTicketStore
empty = new_store (from_secs 30)

tickets_differ : new_ticket (1 ∷ []) ≢ new_ticket (2 ∷ [])
unfolding hex_encode
tickets_differ e = ground arith

consumed_once_example :
    (consume
      (run
        (consume empty (new_ticket (2 ∷ [])) (ascii "a") 3).0
        (issues (ascii "a") admin (1 ∷ []) 5 ∷ []))
      (new_ticket (2 ∷ []))
      (ascii "b")
      9).1
    ≡ err not_found
consumed_once_example =
    consumed_once empty (new_ticket (2 ∷ [])) (ascii "a") (ascii "b") 3 9
      (issues (ascii "a") admin (1 ∷ []) 5 ∷ []) tt (tickets_differ, tt)
