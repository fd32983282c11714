-- ===== src/Server/Tickets.antt =====
-- crates/server/src/desktop_ticket.rs: single-use tickets for a remote desktop connection. Random bytes
-- and `Instant::now()` are arguments; each operation holds the write lock.
pub mod Laws
pub mod Tests
use at_pc.Common.{
  ℕ, ◌+◌, Str, ascii, Bool, true, false, List, [], ◌∷◌, ◌++◌, Option, none, some, ltb, ◌==◌, str_eq,
  if◌then◌else◌,
}
use at_pc.Map
use at_pc.Map.{Map}
use at_pc.Time.{Instant, Duration}
use at_pc.Protocol.{Role}
use at_pc.Server.KeyStore.Credential.{hex_encode}

pub data TicketError : Type 0 where
  not_found expired terminal_mismatch : TicketError

-- `Result<Role, TicketError>`
pub data TicketResult : Type 0 where
  ok : Role → TicketResult
  err : TicketError → TicketResult

pub record DesktopTicket : Type 0 where
  pub ticket : Str
  pub terminal_id : Str
  pub role : Role
  pub expires_at : Instant

pub record DesktopTicketStore : Type 0 where
  pub tickets : Map Str DesktopTicket
  pub ttl : Duration

-- `DesktopTicketStore::new`
abbrev pub new_store : Duration → DesktopTicketStore
new_store ttl = record { tickets = []; ttl = ttl }

abbrev pub new_ticket : List ℕ → Str
new_ticket random_bytes = ascii "rdt_" ++ hex_encode random_bytes

abbrev pub is_alive : Instant → Str → DesktopTicket → Bool
is_alive now id v = ltb now v.expires_at

unfoldable pub issue : DesktopTicketStore → Str → Role → List ℕ → Instant → DesktopTicketStore × Str
issue s terminal_id role random_bytes now =
    let ticket = new_ticket random_bytes in
    let entry : DesktopTicket = record {
      ticket = ticket;
      terminal_id = terminal_id;
      role = role;
      expires_at = now + s.ttl;
    } in
    (record s { tickets = Map.insert ticket entry (Map.retain (is_alive now) s.tickets) }, ticket)

-- The checks on the ticket that was taken out of the store.
abbrev pub redeem : Option DesktopTicket → Str → Instant → TicketResult
redeem none terminal_id now = err not_found
redeem (some entry) terminal_id now =
    if ltb entry.expires_at now
    then err expired
    else if entry.terminal_id == terminal_id
    then ok entry.role
    else err terminal_mismatch

unfoldable pub consume :
    DesktopTicketStore → Str → Str → Instant → DesktopTicketStore × TicketResult
consume s ticket terminal_id now = (
  record s { tickets = Map.remove ticket s.tickets },
  redeem (Map.get ticket s.tickets) terminal_id now,
)
