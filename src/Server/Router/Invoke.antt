-- ===== src/Server/Router/Invoke.antt =====
-- router.rs: the life of a tool call. `invoke_tool` is split where it awaits: `begin_invoke` up to the
-- await on the channel, `give_up` what follows when the timeout passes first. The clock, and whether
-- the agent's channel takes a message, are arguments.
use at_pc.Common.{
  ℕ, ◌+◌, ◌%◌, ◌^◌, Str, ascii, decimal, Bool, true, false, Option, none, some, ◌∷◌, ◌++◌, nat_beq,
  str_eq, if◌then◌else◌,
}
use at_pc.Map
use at_pc.Time.{Instant}
use at_pc.Protocol.{offline, status_beq}
use at_pc.Server.Registry
use at_pc.Server.Registry.{TerminalRegistry, RegistryError, RegistryResult, send_to_terminal}
use at_pc.Server.Registry.Views.{TerminalEntry, get_terminal}
use at_pc.Server.Router.{McpRouter}
use at_pc.Server.Router.Pending.{
  Channel, cancelled, err, add_call, drop_call, send, answer_call, abort_pending_calls_for_terminal,
  tool_result, PendingCallEntry,
}

abbrev pub call_id : ℕ → ℕ → Str
call_id millis seq = ascii "call-" ++ (decimal millis ++ (b'-' ∷ decimal seq))

-- How far `invoke_tool` gets before it awaits.
pub data Started : Type 0 where
  not_in_registry currently_offline : Started
  not_sent : RegistryError → Started
  waits : Str → Channel → Started

abbrev pub effective_timeout : ℕ → ℕ
effective_timeout timeout_secs = if nat_beq timeout_secs 0 then 35 else timeout_secs

module _ {Metrics Sender Value : Type 0} where
  -- `fetch_add` on u64
  unfoldable pub generate_call_id :
      McpRouter Metrics Sender Value → ℕ → McpRouter Metrics Sender Value × Str
  generate_call_id r millis =
      (record r { call_counter = (r.call_counter + 1) % 2 ^ 64 }, call_id millis r.call_counter)

  -- After the message was sent, or not.
  abbrev pub sent_or_dropped :
      McpRouter Metrics Sender Value
      → Str
      → Channel
      → RegistryResult
      → McpRouter Metrics Sender Value × Started
  sent_or_dropped r id rx Registry.ok = (r, waits id rx)
  sent_or_dropped r id rx (Registry.err e) = (record r { calls = drop_call r.calls id }, not_sent e)

  unfoldable pub invoke_online :
      McpRouter Metrics Sender Value
      → Str
      → Str
      → ℕ
      → Instant
      → ℕ
      → (Sender → Bool)
      → McpRouter Metrics Sender Value × Started
  unfolding generate_call_id add_call send_to_terminal
  invoke_online r terminal_id tool_name millis now timeout_secs opened =
      let (r1, id) = generate_call_id r millis in
      let (calls, rx) =
        add_call r1.calls id terminal_id tool_name now (effective_timeout timeout_secs) in
      let (registry, sent) = send_to_terminal r1.registry terminal_id opened in
      sent_or_dropped (record r1 { calls = calls; registry = registry }) id rx sent

  unfoldable pub invoke_known :
      McpRouter Metrics Sender Value
      → Option (TerminalEntry Metrics)
      → Str
      → Str
      → ℕ
      → Instant
      → ℕ
      → (Sender → Bool)
      → McpRouter Metrics Sender Value × Started
  unfolding invoke_online
  invoke_known r none terminal_id tool_name millis now timeout_secs opened = (r, not_in_registry)
  invoke_known r (some t) terminal_id tool_name millis now timeout_secs opened =
      if status_beq t.status offline
      then (r, currently_offline)
      else invoke_online r terminal_id tool_name millis now timeout_secs opened

  unfoldable pub begin_invoke :
      McpRouter Metrics Sender Value
      → Str
      → Str
      → ℕ
      → Instant
      → ℕ
      → (Sender → Bool)
      → McpRouter Metrics Sender Value × Started
  unfolding invoke_known
  begin_invoke r terminal_id tool_name millis now timeout_secs opened =
      invoke_known r (get_terminal r.registry terminal_id now) terminal_id tool_name millis now
        timeout_secs opened

  -- The timeout passed: the entry goes, and the agent is told, as far as it can be.
  unfoldable pub give_up :
      McpRouter Metrics Sender Value → Str → Str → (Sender → Bool) → McpRouter Metrics Sender Value
  give_up r id terminal_id opened = record r {
    calls = drop_call r.calls id;
    registry = (send_to_terminal r.registry terminal_id opened).0;
  }

  abbrev pub cancel_found :
      McpRouter Metrics Sender Value
      → Str
      → Option PendingCallEntry
      → (Sender → Bool)
      → McpRouter Metrics Sender Value × Bool
  cancel_found r id none opened = (r, false)
  cancel_found r id (some entry) opened = (
    record r {
      calls = send (drop_call r.calls id) (some entry) (err (cancelled id));
      registry = (send_to_terminal r.registry entry.terminal_id opened).0;
    },
    true,
  )

  -- `false` is the error that there is no such call.
  unfoldable pub cancel_tool_call :
      McpRouter Metrics Sender Value → Str → (Sender → Bool) → McpRouter Metrics Sender Value × Bool
  cancel_tool_call r id opened = cancel_found r id (Map.get id r.calls.pending_calls) opened

  unfoldable pub process_tool_result :
      McpRouter Metrics Sender Value
      → Str
      → Bool
      → Value
      → Option Str
      → McpRouter Metrics Sender Value
  process_tool_result r id success result error = record r {
    calls =
        answer_call r.calls id
          (tool_result success result error (ascii "Tool execution failed on agent"));
  }

  unfoldable pub handle_terminal_disconnected :
      McpRouter Metrics Sender Value → Str → Str → McpRouter Metrics Sender Value
  handle_terminal_disconnected r terminal_id reason = record r {
    calls = abort_pending_calls_for_terminal r.calls terminal_id reason;
  }
