-- ===== src/Server/Router.antt =====
-- crates/server/src/router.rs: which terminal a call goes to. Selections are kept for each MCP session
-- and for the whole server; the pending calls are in Router/Pending.antt. `Metrics` and `Sender` are the
-- registry's, `Value` is `serde_json::Value`.
pub mod Pending
pub mod Selection
pub mod Invoke
pub mod Dispatch
pub mod Machine
pub mod Served
pub mod TakenOut
pub mod Allowed
pub mod Tests
use at_pc.Common.{
  ℕ, Str, trim, is_empty, eq_ignore_ascii_case, Bool, true, false, Option, none, some, List, [],
  ◌∷◌, keep, length, ◌==◌, str_eq, if◌then◌else◌,
}
use at_pc.Map
use at_pc.Map.{Map}
use at_pc.Time.{Instant}
use at_pc.Protocol.{TerminalStatus, online, status_beq}
use at_pc.Server.Registry.{TerminalRegistry}
use at_pc.Server.Registry.Views.{TerminalEntry, list_terminals, get_terminal}
use at_pc.Server.Router.Pending.{Calls}

pub record McpRouter (Metrics Sender Value : Type 0) : Type 0 where
  pub registry : TerminalRegistry Metrics Sender
  pub calls : Calls Value
  pub active_terminal_id : Option Str
  pub session_active_terminals : Map Str Str
  pub call_counter : ℕ

pub data TargetError : Type 0 where
  no_online_terminals : TargetError
  multiple_online : ℕ → TargetError

-- `Result<String, String>` of `resolve_target_terminal_with_session`
pub data Target : Type 0 where
  ok : Str → Target
  err : TargetError → Target

abbrev pub is_named : Str → Option Str → Bool
is_named name none = false
is_named name (some custom) = eq_ignore_ascii_case custom name

abbrev pub non_empty : Option Str → Option Str
non_empty none = none
non_empty (some id) = let name = trim id in if is_empty name then none else some name

abbrev pub or_global : Option Str → Option Str → Option Str
or_global none active = active
or_global (some id) active = some id

module _ {Metrics : Type 0} where
  -- The first entry that passes the test.
  unfoldable pub first :
      (TerminalEntry Metrics → Bool) → List (TerminalEntry Metrics) → Option (TerminalEntry Metrics)
  first p [] = none
  first p (t ∷ ts) = let rest = first p ts in if p t then some t else rest

  abbrev pub has_custom_name : Str → TerminalEntry Metrics → Bool
  has_custom_name name t = is_named name t.custom_name

  abbrev pub has_hostname : Str → TerminalEntry Metrics → Bool
  has_hostname name t = eq_ignore_ascii_case t.info.hostname name

  abbrev pub otherwise :
      Option (TerminalEntry Metrics)
      → Option (TerminalEntry Metrics)
      → Option (TerminalEntry Metrics)
  otherwise none o = o
  otherwise (some t) o = some t

  abbrev pub id_of : Option (TerminalEntry Metrics) → Str → Str
  id_of none id = id
  id_of (some t) id = t.info.terminal_id

  abbrev pub is_online : TerminalEntry Metrics → Bool
  is_online t = status_beq t.status online

  -- The fallback: the one terminal that is online.
  abbrev pub only_online : List (TerminalEntry Metrics) → Target
  only_online [] = err no_online_terminals
  only_online (t ∷ []) = ok t.info.terminal_id
  only_online (t ∷ u ∷ ts) = err (multiple_online (length (t ∷ u ∷ ts)))

  -- A choice that is made, or else the only terminal online.
  abbrev pub chosen : Option Str → List (TerminalEntry Metrics) → Target
  chosen none all = only_online (keep is_online all)
  chosen (some id) all = ok id

module _ {Metrics Sender : Type 0} where
  -- By id, else by custom name, else by host name.
  abbrev pub matching :
      TerminalRegistry Metrics Sender → Str → Instant → Option (TerminalEntry Metrics)
  matching registry name now =
      let all = list_terminals registry now in
      otherwise (get_terminal registry name now)
        (otherwise (first (has_custom_name name) all) (first (has_hostname name) all))

module _ {Metrics Sender Value : Type 0} where
  unfoldable pub find_terminal :
      McpRouter Metrics Sender Value → Str → Instant → Option (TerminalEntry Metrics)
  unfolding first
  find_terminal r query now =
      let trimmed = trim query in if is_empty trimmed then none else matching r.registry trimmed now

  abbrev pub selected :
      McpRouter Metrics Sender Value
      → Option (TerminalEntry Metrics)
      → McpRouter Metrics Sender Value
  selected r none = r
  selected r (some t) = record r { active_terminal_id = some t.info.terminal_id }

  -- `none` is the error that nothing matches.
  unfoldable pub select_terminal :
      McpRouter Metrics Sender Value
      → Str
      → Instant
      → McpRouter Metrics Sender Value × Option (TerminalEntry Metrics)
  select_terminal r name now = let entry = find_terminal r name now in (selected r entry, entry)

  abbrev pub selected_for :
      McpRouter Metrics Sender Value
      → Str
      → Option (TerminalEntry Metrics)
      → McpRouter Metrics Sender Value
  selected_for r session_id none = r
  selected_for r session_id (some t) = record r {
    session_active_terminals = Map.insert session_id t.info.terminal_id r.session_active_terminals;
  }

  unfoldable pub select_terminal_for_session :
      McpRouter Metrics Sender Value
      → Str
      → Str
      → Instant
      → McpRouter Metrics Sender Value × Option (TerminalEntry Metrics)
  select_terminal_for_session r session_id name now =
      let entry = find_terminal r name now in (selected_for r session_id entry, entry)

  unfoldable pub set_active_terminal_id :
      McpRouter Metrics Sender Value → Option Str → McpRouter Metrics Sender Value
  set_active_terminal_id r id = record r { active_terminal_id = id }

  abbrev pub session_choice : McpRouter Metrics Sender Value → Option Str → Option Str
  session_choice r none = none
  session_choice r (some session_id) = Map.get session_id r.session_active_terminals

  unfoldable pub get_active_terminal_id_for_session :
      McpRouter Metrics Sender Value → Option Str → Option Str
  get_active_terminal_id_for_session r session_id =
      or_global (session_choice r session_id) r.active_terminal_id

  unfoldable pub get_active_terminal :
      McpRouter Metrics Sender Value → Instant → Option (TerminalEntry Metrics)
  get_active_terminal r now = elim r.active_terminal_id [
    | none ↦ none
    | some id ↦ get_terminal r.registry id now
  ]

  abbrev pub resolved : McpRouter Metrics Sender Value → Option Str → Option Str → Instant → Target
  resolved r (some name) session_id now = ok (id_of (find_terminal r name now) name)
  resolved r none session_id now =
      chosen (get_active_terminal_id_for_session r session_id) (list_terminals r.registry now)

  unfoldable pub resolve_target_terminal_with_session :
      McpRouter Metrics Sender Value → Option Str → Option Str → Instant → Target
  unfolding find_terminal get_active_terminal_id_for_session
  resolve_target_terminal_with_session r explicit_id session_id now =
      resolved r (non_empty explicit_id) session_id now
