-- ===== src/Protocol.antt =====
-- crates/protocol/src: what the server and the agent share.
pub mod Tools
pub mod Messages
pub mod Frame
use at_pc.Common.{Str, ℕ, Bool, true, false, Eq, leb, nat_beq, ◌≡◌, arith}

-- tools.rs: roles, from the least to the most privileged.
pub data Role : Type 0 where
  viewer operator admin : Role

-- The derived order.
unfoldable pub rank : Role → ℕ
rank viewer = 0
rank operator = 1
rank admin = 2

unfoldable pub role_le : Role → Role → Bool
unfolding rank
role_le a b = leb (rank a) (rank b)

unfoldable pub role_beq : Role → Role → Bool
unfolding rank
role_beq a b = nat_beq (rank a) (rank b)

pub role_beq-eq : (a b : Role) → role_beq a b ≡ true → a ≡ b
unfolding role_beq
role_beq-eq a b h = ground arith

pub role_beq_self : (a : Role) → role_beq a a ≡ true
unfolding role_beq
role_beq_self a = ground arith

instance abbrev pub role_eq : Eq Role
role_eq = record { same = role_beq; sound = role_beq-eq; complete = role_beq_self }

-- models.rs
pub record TerminalInfo : Type 0 where
  pub terminal_id : Str
  pub hostname : Str
  pub username : Str
  pub lan_ip : Str
  pub os_version : Str
  pub agent_version : Str

pub data TerminalStatus : Type 0 where
  online offline busy : TerminalStatus

-- The derived equality.
abbrev pub status_beq : TerminalStatus → TerminalStatus → Bool
status_beq online online = true
status_beq offline offline = true
status_beq busy busy = true
status_beq _ _ = false
