-- ===== src/Server/Router/Dispatch/Spares.antt =====
-- router.rs: the operations of a viewer leave the metadata and the answers alone.
use at_pc.Common.{
  ℕ, ◌≡◌, refl, sym, ap, ◌∙◌, Str, Bool, true, false, Option, none, some, arith, if◌then◌else◌,
}
use at_pc.Time.{Instant}
use at_pc.Protocol.{viewer, role_le, offline, status_beq}
use at_pc.Protocol.Tools.{ToolSpec}
use at_pc.Server.Roles.{meta_role, has_role, required}
use at_pc.Server.Registry
use at_pc.Server.Registry.{
  TerminalRegistry, RegistryResult, get_sender, set_status, sent_over, send_to_terminal,
}
use at_pc.Server.Registry.Views.{TerminalEntry}
use at_pc.Server.Router
use at_pc.Server.Router.{
  McpRouter, Target, select_terminal, select_terminal_for_session, selected, selected_for,
  find_terminal,
}
use at_pc.Server.Router.Pending.{add_call, drop_call}
use at_pc.Server.Router.Invoke.{
  currently_offline, generate_call_id, sent_or_dropped, invoke_online, invoke_known, begin_invoke,
}
use at_pc.Server.Router.Dispatch.{
  JsonView, DispatchError, Dispatched, replied, failed, forwards, Request, Moment, MetaTool,
  list_terminals_tool, select_terminal_tool, rename_terminal_tool, get_active_terminal_tool,
  list_pending_calls_tool, cancel_tool_tool, meta_tool,
}
use at_pc.Server.Router.Dispatch.Execute.{
  forward_to, select_in, selecting, execute_meta, execute_known,
}
use at_pc.Server.Router.Dispatch.Audited.{
  AuditSink, unlogged, refuses, admits, log_async, concluded, enforced,
}
use at_pc.Server.Router.Allowed.{role_at, meta_role-meta_tool}

module _ {Metrics Sender : Type 0} where
  sent_over-meta :
      (r : TerminalRegistry Metrics Sender) (id : Str) (opened : Sender → Bool) (o : Option Sender)
      → (sent_over r id opened o).0.meta_store ≡ r.meta_store
  unfolding sent_over set_status
  sent_over-meta r id opened none = refl
  sent_over-meta r id opened (some s) = ground arith

  send_to_terminal-meta :
      (r : TerminalRegistry Metrics Sender) (id : Str) (opened : Sender → Bool)
      → (send_to_terminal r id opened).0.meta_store ≡ r.meta_store
  unfolding send_to_terminal
  send_to_terminal-meta r id opened = sent_over-meta r id opened (get_sender r id)

pub viewer-meta :
    (name : Str)
    → has_role viewer (meta_role name) ≡ true
    → has_role viewer (role_at (meta_tool name)) ≡ true
viewer-meta name p = ap (λ o. has_role viewer o) (sym (meta_role-meta_tool name)) ∙ p

module _ {Metrics Sender Value : Type 0} where
  -- The stored names, notes and tags, and what the pending calls were answered.
  pub record Spares (r r' : McpRouter Metrics Sender Value) : Type 0 where
    pub meta_store : r'.registry.meta_store ≡ r.registry.meta_store
    pub answers : r'.calls.answers ≡ r.calls.answers

  same-Spares : (r : McpRouter Metrics Sender Value) → Spares r r
  same-Spares r = record { meta_store = refl; answers = refl }

  sent-Spares :
      (r r' : McpRouter Metrics Sender Value) (id : Str) (rx : ℕ) (sent : RegistryResult)
      → Spares r r'
      → Spares r (sent_or_dropped r' id rx sent).0
  unfolding drop_call
  sent-Spares r r' id rx Registry.ok h = h
  sent-Spares r r' id rx (Registry.err e) h = record {
    meta_store = h.meta_store;
    answers = h.answers;
  }

  invoke_online-Spares :
      (r : McpRouter Metrics Sender Value) (tid tool : Str) (millis : ℕ) (now : Instant)
      (timeout : ℕ) (opened : Sender → Bool)
      → Spares r (invoke_online r tid tool millis now timeout opened).0
  unfolding invoke_online add_call generate_call_id
  invoke_online-Spares r tid tool millis now timeout opened =
      sent-Spares r _ _ _ (send_to_terminal r.registry tid opened).1
        (record { meta_store = send_to_terminal-meta r.registry tid opened; answers = refl })

  invoke_known-Spares :
      (r : McpRouter Metrics Sender Value) (o : Option (TerminalEntry Metrics)) (tid tool : Str)
      (millis : ℕ) (now : Instant) (timeout : ℕ) (opened : Sender → Bool)
      → Spares r (invoke_known r o tid tool millis now timeout opened).0
  unfolding invoke_known
  invoke_known-Spares r none tid tool millis now timeout opened = same-Spares r
  invoke_known-Spares r (some t) tid tool millis now timeout opened =
      elim (status_beq t.status offline)
        as (λ b.
          Spares r
            (if b
              then (r, currently_offline)
              else invoke_online r tid tool millis now timeout opened).0) [
                | true ↦ same-Spares r
                | false ↦ invoke_online-Spares r tid tool millis now timeout opened
              ]

  forward_to-Spares :
      (r : McpRouter Metrics Sender Value) (t : Target) (tool : Str) (timeout : ℕ)
      (at : Moment Sender)
      → Spares r (forward_to r t tool timeout at).0
  unfolding begin_invoke
  forward_to-Spares r (Router.err e) tool timeout at = same-Spares r
  forward_to-Spares r (Router.ok tid) tool timeout at =
      invoke_known-Spares r _ tid tool at.millis at.now timeout at.opened

  select_in-Spares :
      (r : McpRouter Metrics Sender Value) (sid : Option Str) (tid : Str) (now : Instant)
      → Spares r (select_in r sid tid now).0
  unfolding select_terminal select_terminal_for_session
  select_in-Spares r none tid now =
      elim (find_terminal r tid now) as (λ o. Spares r (selected r o)) [
        | none ↦ same-Spares r
        | some t ↦ record { meta_store = refl; answers = refl }
      ]
  select_in-Spares r (some sid) tid now =
      elim (find_terminal r tid now) as (λ o. Spares r (selected_for r sid o)) [
        | none ↦ same-Spares r
        | some t ↦ record { meta_store = refl; answers = refl }
      ]

  selecting-Spares :
      (r : McpRouter Metrics Sender Value) (o sid : Option Str) (now : Instant)
      → Spares r (selecting r o sid now).0
  selecting-Spares r none sid now = same-Spares r
  selecting-Spares r (some tid) sid now = select_in-Spares r sid tid now

  execute_meta-Spares :
      (json : JsonView Value) (r : McpRouter Metrics Sender Value) (o : Option MetaTool)
      (name : Str) (arguments : Value) (sid : Option Str) (at : Moment Sender)
      → has_role viewer (role_at o) ≡ true
      → Spares r (execute_meta json r o name arguments sid at).0
  unfolding execute_meta role_le
  execute_meta-Spares json r none name arguments sid at p = same-Spares r
  execute_meta-Spares json r (some list_terminals_tool) name arguments sid at p = same-Spares r
  execute_meta-Spares json r (some select_terminal_tool) name arguments sid at p =
      selecting-Spares r _ _ at.now
  execute_meta-Spares json r (some rename_terminal_tool) name arguments sid at p =
      absurd (ground (arith, p))
  execute_meta-Spares json r (some get_active_terminal_tool) name arguments sid at p = same-Spares r
  execute_meta-Spares json r (some list_pending_calls_tool) name arguments sid at p = same-Spares r
  execute_meta-Spares json r (some cancel_tool_tool) name arguments sid at p =
      absurd (ground (arith, p))

  pub execute_known-Spares :
      (json : JsonView Value) (r : McpRouter Metrics Sender Value) (o : Option ToolSpec)
      (name : Str) (arguments : Value) (sid : Option Str) (at : Moment Sender)
      → has_role viewer (required o (meta_role name)) ≡ true
      → Spares r (execute_known json r o name arguments sid at).0
  unfolding execute_known
  execute_known-Spares json r none name arguments sid at p =
      execute_meta-Spares json r (meta_tool name) name arguments sid at (viewer-meta name p)
  execute_known-Spares json r (some spec) name arguments sid at p =
      forward_to-Spares r _ spec.name _ at

  pub concluded-Spares :
      (r r' : McpRouter Metrics Sender Value) (logger : AuditSink) (req : Request Value)
      (tid : Option Str) (at : Moment Sender) (ms : ℕ) (d : Dispatched Metrics)
      → Spares r r'
      → Spares r (concluded r' logger req tid at ms d).router
  unfolding log_async generate_call_id
  concluded-Spares r r' admits req tid at ms (replied reply) h = record {
    meta_store = h.meta_store;
    answers = h.answers;
  }
  concluded-Spares r r' admits req tid at ms (failed e) h = record {
    meta_store = h.meta_store;
    answers = h.answers;
  }
  concluded-Spares r r' unlogged req tid at ms (replied reply) h = h
  concluded-Spares r r' unlogged req tid at ms (failed e) h = h
  concluded-Spares r r' refuses req tid at ms (replied reply) h = record {
    meta_store = h.meta_store;
    answers = h.answers;
  }
  concluded-Spares r r' refuses req tid at ms (failed e) h = record {
    meta_store = h.meta_store;
    answers = h.answers;
  }
  concluded-Spares r r' logger req tid at ms (forwards t id rx) h = h

  pub refused-Spares :
      (json : JsonView Value) (r : McpRouter Metrics Sender Value) (logger : AuditSink)
      (req : Request Value) (tid : Option Str) (at : Moment Sender) (ms : ℕ) (e : DispatchError)
      → Spares r (enforced json r logger req tid at ms (some e)).router
  unfolding log_async generate_call_id
  refused-Spares json r admits req tid at ms e = record { meta_store = refl; answers = refl }
  refused-Spares json r refuses req tid at ms e = record { meta_store = refl; answers = refl }
  refused-Spares json r unlogged req tid at ms e = same-Spares r
