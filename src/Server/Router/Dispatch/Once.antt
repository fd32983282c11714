-- ===== src/Server/Router/Dispatch/Once.antt =====
-- router.rs, `dispatch_tool_call_with_role`: the audit trail of one dispatch, and what a refusal leaves
-- untouched.
use at_pc.Common.{
  ℕ, ◌≡◌, ◌≢◌, ◌↔◌, refl, sym, ap, subst, Str, Option, none, some, List, [], ◌∷◌, ◌++◌, arith,
}
use at_pc.Server.Router.{McpRouter}
use at_pc.Server.Router.Machine.{Outcome}
use at_pc.Server.Router.Invoke.{generate_call_id}
use at_pc.Server.Router.Dispatch.{
  JsonView, DispatchError, Dispatched, replied, failed, forwards, Request, Moment,
}
use at_pc.Server.Router.Dispatch.Execute.{execute_dispatch_inner}
use at_pc.Server.Router.Dispatch.Audited.{
  AuditSink, admits, Status, denied, success, failure, Failure, on_dispatch, AuditRecord,
  audit_record, enforce, log_async, concluded, finish_dispatch, target_of, enforced,
  dispatch_tool_call_with_role, error_of, status_of,
}

module _ {Value : Type 0} where
  -- One record, of this request; it says success exactly if it has no error.
  pub record IsAudited (req : Request Value) (tid : Option Str) (records : List (AuditRecord Value))
      : Type 0 where
    pub entry : AuditRecord Value
    pub only : records ≡ entry ∷ []
    pub of_tool : entry.tool_name ≡ some req.tool_name
    pub of_role : entry.role ≡ req.role
    pub of_target : entry.terminal_id ≡ tid
    pub of_arguments : entry.arguments ≡ some req.arguments
    pub successful : (entry.status ≡ success) ↔ (entry.error ≡ none)

error-status : (f : Failure) (s : Status) → s ≢ success → (s ≡ success) ↔ (some f ≡ none)
error-status f s ne = (λ e. absurd (ne e), λ e. absurd (ground (arith, e)))

status_of-success : (o : Option Failure) → (status_of o ≡ success) ↔ (o ≡ none)
status_of-success none = (λ e. refl, λ e. refl)
status_of-success (some f) = error-status f failure (λ e. ground (arith, e))

nothing_left : {Value : Type 0} (records : List (AuditRecord Value)) → records ++ [] ≡ records
nothing_left [] = refl
nothing_left (x ∷ xs) = ap (λ r. x ∷ r) (nothing_left xs)

module _ {Metrics Sender Value : Type 0} where
  -- The records that are still to be written when the dispatch has returned from its await.
  abbrev pub left_to_write :
      McpRouter Metrics Sender Value
      → AuditSink
      → Request Value
      → Option Str
      → Moment Sender
      → ℕ
      → Outcome Value
      → Dispatched Metrics
      → List (AuditRecord Value)
  left_to_write r logger req tid at ms outcome (forwards terminal_id id rx) =
      (finish_dispatch r logger req tid at ms outcome).1
  left_to_write r logger req tid at ms outcome _ = []

  log_async-IsAudited :
      (r : McpRouter Metrics Sender Value) (req : Request Value) (tid : Option Str)
      (at : Moment Sender) (status : Status) (error : Option Failure) (ms : ℕ)
      → ((status ≡ success) ↔ (error ≡ none))
      → IsAudited req tid (log_async r admits req tid at status error ms).1
  unfolding log_async
  log_async-IsAudited r req tid at status error ms h = record {
    entry = audit_record req tid (generate_call_id r at.millis).1 at status error ms;
    only = refl;
    of_tool = refl;
    of_role = refl;
    of_target = refl;
    of_arguments = refl;
    successful = h;
  }

  concluded-IsAudited :
      (r later : McpRouter Metrics Sender Value) (req : Request Value) (tid : Option Str)
      (at at' : Moment Sender) (ms ms' : ℕ) (outcome : Outcome Value) (d : Dispatched Metrics)
      → let c = concluded r admits req tid at ms d in
        IsAudited req tid
          (c.written ++ left_to_write later admits req tid at' ms' outcome c.outcome)
  unfolding finish_dispatch
  concluded-IsAudited r later req tid at at' ms ms' outcome (replied reply) =
      subst (λ l. IsAudited req tid l)
        (sym (nothing_left (log_async r admits req tid at success none ms).1))
        (log_async-IsAudited r req tid at success none ms (status_of-success none))
  concluded-IsAudited r later req tid at at' ms ms' outcome (failed e) =
      subst (λ l. IsAudited req tid l)
        (sym (nothing_left (log_async r admits req tid at failure (some (on_dispatch e)) ms).1))
        (log_async-IsAudited r req tid at failure (some (on_dispatch e)) ms
          (status_of-success (some (on_dispatch e))))
  concluded-IsAudited r later req tid at at' ms ms' outcome (forwards t id rx) =
      log_async-IsAudited later req tid at' (status_of (error_of outcome)) (error_of outcome) ms'
        (status_of-success (error_of outcome))

  enforced-IsAudited :
      (json : JsonView Value) (r later : McpRouter Metrics Sender Value) (req : Request Value)
      (tid : Option Str) (at at' : Moment Sender) (ms ms' : ℕ) (outcome : Outcome Value)
      (o : Option DispatchError)
      → let d = enforced json r admits req tid at ms o in
        IsAudited req tid
          (d.written ++ left_to_write later admits req tid at' ms' outcome d.outcome)
  enforced-IsAudited json r later req tid at at' ms ms' outcome (some e) =
      subst (λ l. IsAudited req tid l)
        (sym (nothing_left (log_async r admits req tid at denied (some (on_dispatch e)) 0).1))
        (log_async-IsAudited r req tid at denied (some (on_dispatch e)) 0
          (error-status (on_dispatch e) denied (λ e. ground (arith, e))))
  enforced-IsAudited json r later req tid at at' ms ms' outcome none =
      let (r', d) = execute_dispatch_inner json r req.tool_name req.arguments req.session_id at in
      concluded-IsAudited r' later req tid at at' ms ms' outcome d

  -- With a logger that admits its records, every dispatch writes exactly one audit record, at once or
  -- when the forwarded call has ended, in whatever state the router is then and however the call ended. The record names
  -- the tool, the arguments, the role and the target that was resolved for the audit, and says
  -- success exactly if it has no error.
  pub dispatch-writes_once :
      (json : JsonView Value) (r later : McpRouter Metrics Sender Value) (req : Request Value)
      (at at' : Moment Sender) (ms ms' : ℕ) (outcome : Outcome Value)
      → let tid = target_of json r req at.now in
        let d = dispatch_tool_call_with_role json r admits req at ms in
        IsAudited req tid
          (d.written ++ left_to_write later admits req tid at' ms' outcome d.outcome)
  unfolding dispatch_tool_call_with_role
  dispatch-writes_once json r later req at at' ms ms' outcome =
      enforced-IsAudited json r later req (target_of json r req at.now) at at' ms ms' outcome
        (enforce req.role req.tool_name)
