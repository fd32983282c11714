-- ===== src/Server/Router/Dispatch.antt =====
-- router.rs, `dispatch_tool_call_with_role`: the role check, the server's own tools, the forwarded tools
-- and the audit record. `serde_json::Value` is a parameter, read through `JsonView`; texts of errors
-- and of JSON replies are constructors. A forwarded call stops where it awaits (Invoke.antt).
pub mod Audited
pub mod Execute
pub mod Once
pub mod Spares
pub mod Harmless
use at_pc.Common.{
  ℕ, ◌/◌, ◌%◌, ◌^◌, Str, ascii, str_le, Bool, true, false, ◌||◌, Option, none, some, List, [], ◌∷◌,
  ◌++◌, ◌==◌, str_eq, if◌then◌else◌,
}
use at_pc.Map
use at_pc.Map.{Map}
use at_pc.Time.{Instant, duration_since}
use at_pc.Protocol.{Role}
use at_pc.Protocol.Tools.{ToolSpec, agent_tool}
use at_pc.Server.MetaStore.{TerminalMeta, update_meta}
use at_pc.Server.Roles.{is_tool_allowed_for_role}
use at_pc.Server.Registry.{TerminalRegistry}
use at_pc.Server.Registry.Views.{TerminalEntry, list_terminals, get_terminal}
use at_pc.Server.Router
use at_pc.Server.Registry.{RegistryError}
use at_pc.Server.Router.{
  McpRouter, TargetError, Target, find_terminal, id_of, select_terminal,
  select_terminal_for_session, get_active_terminal_id_for_session, or_global,
  resolve_target_terminal_with_session,
}
use at_pc.Server.Router.Pending.{Channel, PendingCallEntry}
use at_pc.Server.Router.Invoke.{
  Started, not_in_registry, currently_offline, not_sent, waits, generate_call_id, begin_invoke,
  cancel_tool_call,
}

-- What the router reads of a JSON object: `get` with `as_str`, `as_u64` or `as_array`, of the array its
-- strings.
pub record JsonView (Value : Type 0) : Type 0 where
  pub as_str : Value → Str → Option Str
  pub as_u64 : Value → Str → Option ℕ
  pub as_strs : Value → Str → Option (List Str)

pub record PendingCallDetail : Type 0 where
  pub call_id : Str
  pub terminal_id : Str
  pub tool_name : Str
  pub elapsed_ms : ℕ
  pub timeout_secs : ℕ

pub data DispatchError : Type 0 where
  forbidden : Role → Str → DispatchError
  no_target : TargetError → DispatchError
  terminal_unknown terminal_offline : Str → DispatchError
  send_failed_to : Str → RegistryError → DispatchError
  not_found no_such_call missing_argument unknown_tool : Str → DispatchError

pub data Reply (Metrics : Type 0) : Type 0 where
  terminals : List (TerminalEntry Metrics) → Reply Metrics
  terminal : TerminalEntry Metrics → Reply Metrics
  meta : TerminalMeta → Reply Metrics
  not_in_registry_now cancelled_now : Str → Reply Metrics
  no_active_terminal : Reply Metrics
  pending : List PendingCallDetail → Reply Metrics

-- How far a dispatch gets before it awaits the agent.
pub data Dispatched (Metrics : Type 0) : Type 0 where
  replied : Reply Metrics → Dispatched Metrics
  failed : DispatchError → Dispatched Metrics
  forwards : Str → Str → Channel → Dispatched Metrics

pub record Request (Value : Type 0) : Type 0 where
  pub tool_name : Str
  pub arguments : Value
  pub session_id : Option Str
  pub role : Option Role
  pub client_ip : Option Str
  pub token_prefix : Option Str

-- The clocks, and whether the agent's channel takes a message.
pub record Moment (Sender : Type 0) : Type 0 where
  pub now : Instant
  pub millis : ℕ
  pub timestamp : ℕ
  pub opened : Sender → Bool

-- `filter_terminal_id.is_none_or(|tid| entry.terminal_id == tid)`
abbrev pub passes : Option Str → PendingCallEntry → Bool
passes none entry = true
passes (some tid) entry = entry.terminal_id == tid

abbrev pub detail : Instant → Str → PendingCallEntry → PendingCallDetail
detail now call_id entry = record {
  call_id = call_id;
  terminal_id = entry.terminal_id;
  tool_name = entry.tool_name;
  elapsed_ms = duration_since now entry.start_time / 1_000_000 % 2 ^ 64;
  timeout_secs = entry.timeout_secs;
}

unfoldable pub details : Option Str → Instant → Map Str PendingCallEntry → List PendingCallDetail
details filter now [] = []
details filter now ((id, entry) ∷ m) =
    let rest = details filter now m in
    if passes filter entry then detail now id entry ∷ rest else rest

unfoldable pub insert_by_call_id :
    PendingCallDetail → List PendingCallDetail → List PendingCallDetail
insert_by_call_id d [] = d ∷ []
insert_by_call_id d (e ∷ es) =
    let rest = insert_by_call_id d es in if str_le d.call_id e.call_id then d ∷ e ∷ es else e ∷ rest

unfoldable pub sort_by_call_id : List PendingCallDetail → List PendingCallDetail
sort_by_call_id [] = []
sort_by_call_id (d ∷ ds) = insert_by_call_id d (sort_by_call_id ds)

abbrev pub timeout_or : Option ℕ → ℕ → ℕ
timeout_or none default = default
timeout_or (some secs) default = secs

-- `match tool_name`
pub data MetaTool : Type 0 where
  list_terminals_tool select_terminal_tool rename_terminal_tool : MetaTool
  get_active_terminal_tool list_pending_calls_tool cancel_tool_tool : MetaTool

unfoldable pub meta_tool : Str → Option MetaTool
meta_tool name =
    if name == ascii "list_terminals"
    then some list_terminals_tool
    else if name == ascii "select_terminal"
    then some select_terminal_tool
    else if name == ascii "rename_terminal"
    then some rename_terminal_tool
    else if name == ascii "get_active_terminal"
    then some get_active_terminal_tool
    else if name == ascii "list_pending_calls"
    then some list_pending_calls_tool
    else if (name == ascii "cancel_tool") || (name == ascii "cancel_task")
    then some cancel_tool_tool
    else none

module _ {Metrics : Type 0} where
  abbrev pub found : Str → Option (TerminalEntry Metrics) → Dispatched Metrics
  found query none = failed (not_found query)
  found query (some t) = replied (terminal t)

  abbrev pub forwarded : Str → Started → Dispatched Metrics
  forwarded terminal_id (waits id rx) = forwards terminal_id id rx
  forwarded terminal_id not_in_registry = failed (terminal_unknown terminal_id)
  forwarded terminal_id currently_offline = failed (terminal_offline terminal_id)
  forwarded terminal_id (not_sent e) = failed (send_failed_to terminal_id e)

  abbrev pub active_reply : Str → Option (TerminalEntry Metrics) → Reply Metrics
  active_reply tid none = not_in_registry_now tid
  active_reply tid (some t) = terminal t
