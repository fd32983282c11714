-- ===== src/Server/Router/Dispatch/Audited.antt =====
-- router.rs, `dispatch_tool_call_with_role`: the role check, the execution and the audit record. The
-- record of a forwarded call is written when the call has ended (`finish_dispatch`).
use at_pc.Common.{ℕ, Str, ascii, ◌++◌, Option, none, some, List, [], ◌∷◌, if◌then◌else◌}
use at_pc.Time.{Instant}
use at_pc.Protocol.{Role}
use at_pc.Server.Roles.{is_tool_allowed_for_role}
use at_pc.Server.Router
use at_pc.Server.Router.{McpRouter, Target, resolve_target_terminal_with_session}
use at_pc.Server.Router.Invoke.{generate_call_id}
use at_pc.Server.Router.Pending.{CallError, ok, err}
use at_pc.Server.Router.Machine.{Outcome, returned, timed_out}
use at_pc.Server.Router.Dispatch.{
  JsonView, DispatchError, forbidden, Dispatched, replied, failed, forwards, Request, Moment,
}
use at_pc.Server.Router.Dispatch.Execute.{execute_dispatch_inner}

pub data Status : Type 0 where
  denied success failure : Status

-- The error text, by where it comes from.
pub data Failure : Type 0 where
  on_dispatch : DispatchError → Failure
  on_call : CallError → Failure
  timeout channel_closed : Failure

pub record AuditRecord (Value : Type 0) : Type 0 where
  pub id : Str
  pub timestamp : ℕ
  pub role : Option Role
  pub token_prefix : Option Str
  pub client_ip : Option Str
  pub terminal_id : Option Str
  pub action : Str
  pub tool_name : Option Str
  pub arguments : Option Value
  pub status : Status
  pub error : Option Failure
  pub duration_ms : ℕ

-- What a dispatch has come to: the records that it wrote, and its reply unless it awaits.
pub record Dispatch (Metrics Sender Value : Type 0) : Type 0 where
  pub router : McpRouter Metrics Sender Value
  pub written : List (AuditRecord Value)
  pub outcome : Dispatched Metrics

abbrev pub target_ok : Target → Option Str
target_ok (Router.ok id) = some id
target_ok (Router.err e) = none

abbrev pub explicit_or : Option Str → Option Str → Option Str
explicit_or none target = target
explicit_or (some id) target = some id

unfoldable pub enforce : Option Role → Str → Option DispatchError
unfolding is_tool_allowed_for_role
enforce none name = none
enforce (some role) name =
    if is_tool_allowed_for_role role name then none else some (forbidden role name)

abbrev pub error_of : {Value : Type 0} → Outcome Value → Option Failure
error_of (returned (ok v)) = none
error_of (returned (err e)) = some (on_call e)
error_of timed_out = some timeout
error_of _ = some channel_closed

abbrev pub status_of : Option Failure → Status
status_of none = success
status_of (some f) = failure

abbrev pub audit_record :
    {Sender Value : Type 0}
    → Request Value
    → Option Str
    → Str
    → Moment Sender
    → Status
    → Option Failure
    → ℕ
    → AuditRecord Value
audit_record req target_tid id at status error duration_ms = record {
  id = ascii "audit-" ++ id;
  timestamp = at.timestamp;
  role = req.role;
  token_prefix = req.token_prefix;
  client_ip = req.client_ip;
  terminal_id = target_tid;
  action = ascii "tool:" ++ req.tool_name;
  tool_name = some req.tool_name;
  arguments = some req.arguments;
  status = status;
  error = error;
  duration_ms = duration_ms;
}

-- `audit_logger`: none, or one that admits the record or refuses it, as after a shutdown.
pub data AuditSink : Type 0 where
  unlogged refuses admits : AuditSink

module _ {Metrics Sender Value : Type 0} where
  -- The id is drawn before the logger is asked; a record that it refuses is only traced.
  unfoldable pub log_async :
      McpRouter Metrics Sender Value
      → AuditSink
      → Request Value
      → Option Str
      → Moment Sender
      → Status
      → Option Failure
      → ℕ
      → McpRouter Metrics Sender Value × List (AuditRecord Value)
  log_async r unlogged req target_tid at status error duration_ms = (r, [])
  log_async r refuses req target_tid at status error duration_ms =
      ((generate_call_id r at.millis).0, [])
  log_async r admits req target_tid at status error duration_ms =
      let (r', id) = generate_call_id r at.millis in
      (r', audit_record req target_tid id at status error duration_ms ∷ [])

  -- What the dispatch returns before any await, and its record.
  abbrev pub concluded :
      McpRouter Metrics Sender Value
      → AuditSink
      → Request Value
      → Option Str
      → Moment Sender
      → ℕ
      → Dispatched Metrics
      → Dispatch Metrics Sender Value
  concluded r logger req target_tid at elapsed_ms (replied reply) =
      let (r', written) = log_async r logger req target_tid at success none elapsed_ms in
      record { router = r'; written = written; outcome = replied reply }
  concluded r logger req target_tid at elapsed_ms (failed e) =
      let (r', written) =
        log_async r logger req target_tid at failure (some (on_dispatch e)) elapsed_ms in
      record { router = r'; written = written; outcome = failed e }
  concluded r logger req target_tid at elapsed_ms (forwards terminal_id id rx) = record {
    router = r;
    written = [];
    outcome = forwards terminal_id id rx;
  }

  -- The await is over.
  unfoldable pub finish_dispatch :
      McpRouter Metrics Sender Value
      → AuditSink
      → Request Value
      → Option Str
      → Moment Sender
      → ℕ
      → Outcome Value
      → McpRouter Metrics Sender Value × List (AuditRecord Value)
  finish_dispatch r logger req target_tid at elapsed_ms outcome =
      let error = error_of outcome in
      log_async r logger req target_tid at (status_of error) error elapsed_ms

module _ {Metrics Sender Value : Type 0} (json : JsonView Value) where
  unfoldable pub target_of : McpRouter Metrics Sender Value → Request Value → Instant → Option Str
  target_of r req now =
      explicit_or (json.as_str req.arguments (ascii "terminal_id"))
        (target_ok (resolve_target_terminal_with_session r none req.session_id now))

  abbrev pub enforced :
      McpRouter Metrics Sender Value
      → AuditSink
      → Request Value
      → Option Str
      → Moment Sender
      → ℕ
      → Option DispatchError
      → Dispatch Metrics Sender Value
  enforced r logger req target_tid at elapsed_ms (some e) =
      let (r', written) = log_async r logger req target_tid at denied (some (on_dispatch e)) 0 in
      record { router = r'; written = written; outcome = failed e }
  enforced r logger req target_tid at elapsed_ms none =
      let (r', outcome) =
        execute_dispatch_inner json r req.tool_name req.arguments req.session_id at in
      concluded r' logger req target_tid at elapsed_ms outcome

  unfoldable pub dispatch_tool_call_with_role :
      McpRouter Metrics Sender Value
      → AuditSink
      → Request Value
      → Moment Sender
      → ℕ
      → Dispatch Metrics Sender Value
  unfolding log_async target_of enforce
  dispatch_tool_call_with_role r logger req at elapsed_ms =
      enforced r logger req (target_of r req at.now) at elapsed_ms (enforce req.role req.tool_name)
