-- ===== src/Server/Router/Dispatch/Execute.antt =====
-- router.rs, `execute_dispatch_inner`: the forwarded tools and the server's own ones.
use at_pc.Common.{ℕ, Str, ascii, Bool, true, false, Option, none, some, List}
use at_pc.Time.{Instant}
use at_pc.Protocol.Tools.{ToolSpec, agent_tool}
use at_pc.Server.MetaStore.{update_meta}
use at_pc.Server.Registry.Views.{TerminalEntry, list_terminals, get_terminal}
use at_pc.Server.Router
use at_pc.Server.Router.{
  McpRouter, Target, find_terminal, id_of, select_terminal, select_terminal_for_session,
  get_active_terminal_id_for_session, or_global, resolve_target_terminal_with_session,
}
use at_pc.Server.Router.Invoke.{begin_invoke, cancel_tool_call}
use at_pc.Server.Router.Dispatch.{
  JsonView, PendingCallDetail, no_target, no_such_call, missing_argument, unknown_tool, Reply,
  terminals, meta, cancelled_now, no_active_terminal, pending, Dispatched, replied, failed, Moment,
  details, sort_by_call_id, timeout_or, MetaTool, list_terminals_tool, select_terminal_tool,
  rename_terminal_tool, get_active_terminal_tool, list_pending_calls_tool, cancel_tool_tool,
  meta_tool, found, forwarded, active_reply,
}

abbrev pub cancel_reply : {Metrics : Type 0} → Str → Bool → Dispatched Metrics
cancel_reply cid true = replied (cancelled_now cid)
cancel_reply cid false = failed (no_such_call cid)

abbrev pub session_of_call : {Value : Type 0} → JsonView Value → Value → Option Str → Option Str
session_of_call json arguments session_id =
    or_global (json.as_str arguments (ascii "session_id")) session_id

module _ {Metrics Sender Value : Type 0} where
  unfoldable pub list_pending_call_details :
      McpRouter Metrics Sender Value → Option Str → Instant → List PendingCallDetail
  list_pending_call_details r filter now =
      sort_by_call_id (details filter now r.calls.pending_calls)

  abbrev pub forward_to :
      McpRouter Metrics Sender Value
      → Target
      → Str
      → ℕ
      → Moment Sender
      → McpRouter Metrics Sender Value × Dispatched Metrics
  forward_to r (Router.err e) name timeout_secs at = (r, failed (no_target e))
  forward_to r (Router.ok terminal_id) name timeout_secs at =
      let (r', how) = begin_invoke r terminal_id name at.millis at.now timeout_secs at.opened in
      (r', forwarded terminal_id how)

  abbrev pub select_in :
      McpRouter Metrics Sender Value
      → Option Str
      → Str
      → Instant
      → McpRouter Metrics Sender Value × Option (TerminalEntry Metrics)
  select_in r none tid now = select_terminal r tid now
  select_in r (some sid) tid now = select_terminal_for_session r sid tid now

  abbrev pub selecting :
      McpRouter Metrics Sender Value
      → Option Str
      → Option Str
      → Instant
      → McpRouter Metrics Sender Value × Dispatched Metrics
  selecting r none sid now = (r, failed (missing_argument (ascii "terminal_id")))
  selecting r (some tid) sid now =
      let (r', entry) = select_in r sid tid now in (r', found tid entry)

  abbrev pub renaming :
      McpRouter Metrics Sender Value
      → Option Str
      → Option Str
      → Option Str
      → Option (List Str)
      → Moment Sender
      → McpRouter Metrics Sender Value × Dispatched Metrics
  renaming r none custom_name notes tags at = (r, failed (missing_argument (ascii "terminal_id")))
  renaming r (some tid_raw) custom_name notes tags at =
      let actual_tid = id_of (find_terminal r tid_raw at.now) tid_raw in
      let registry = r.registry in
      let (store, updated, snapshot) =
        update_meta registry.meta_store actual_tid custom_name notes tags at.timestamp in
      (record r { registry = record registry { meta_store = store } }, replied (meta updated))

  abbrev pub active : McpRouter Metrics Sender Value → Option Str → Instant → Reply Metrics
  active r none now = no_active_terminal
  active r (some tid) now = active_reply tid (get_terminal r.registry tid now)

  abbrev pub cancelling :
      McpRouter Metrics Sender Value
      → Option Str
      → Moment Sender
      → McpRouter Metrics Sender Value × Dispatched Metrics
  cancelling r none at = (r, failed (missing_argument (ascii "call_id")))
  cancelling r (some cid) at =
      let (r', found) = cancel_tool_call r cid at.opened in (r', cancel_reply cid found)

module _ {Metrics Sender Value : Type 0} (json : JsonView Value) where
  unfoldable pub execute_meta :
      McpRouter Metrics Sender Value
      → Option MetaTool
      → Str
      → Value
      → Option Str
      → Moment Sender
      → McpRouter Metrics Sender Value × Dispatched Metrics
  execute_meta r none name arguments session_id at = (r, failed (unknown_tool name))
  execute_meta r (some list_terminals_tool) name arguments session_id at =
      (r, replied (terminals (list_terminals r.registry at.now)))
  execute_meta r (some select_terminal_tool) name arguments session_id at =
      selecting r (json.as_str arguments (ascii "terminal_id"))
        (session_of_call json arguments session_id) at.now
  execute_meta r (some rename_terminal_tool) name arguments session_id at =
      renaming r (json.as_str arguments (ascii "terminal_id"))
        (json.as_str arguments (ascii "custom_name")) (json.as_str arguments (ascii "notes"))
        (json.as_strs arguments (ascii "tags")) at
  execute_meta r (some get_active_terminal_tool) name arguments session_id at = (
    r,
    replied (
        active r (get_active_terminal_id_for_session r (session_of_call json arguments session_id))
          at.now),
  )
  execute_meta r (some list_pending_calls_tool) name arguments session_id at = (
    r,
    replied (
        pending (list_pending_call_details r (json.as_str arguments (ascii "terminal_id")) at.now)),
  )
  execute_meta r (some cancel_tool_tool) name arguments session_id at =
      cancelling r (json.as_str arguments (ascii "call_id")) at

  unfoldable pub execute_known :
      McpRouter Metrics Sender Value
      → Option ToolSpec
      → Str
      → Value
      → Option Str
      → Moment Sender
      → McpRouter Metrics Sender Value × Dispatched Metrics
  unfolding execute_meta
  execute_known r none name arguments session_id at =
      execute_meta r (meta_tool name) name arguments session_id at
  execute_known r (some spec) name arguments session_id at =
      forward_to r
        (resolve_target_terminal_with_session r (json.as_str arguments (ascii "terminal_id"))
          (session_of_call json arguments session_id) at.now)
        spec.name (timeout_or (json.as_u64 arguments (ascii "timeout_secs")) 35) at

  unfoldable pub execute_dispatch_inner :
      McpRouter Metrics Sender Value
      → Str
      → Value
      → Option Str
      → Moment Sender
      → McpRouter Metrics Sender Value × Dispatched Metrics
  unfolding execute_known
  execute_dispatch_inner r name arguments session_id at =
      execute_known r (agent_tool name) name arguments session_id at
