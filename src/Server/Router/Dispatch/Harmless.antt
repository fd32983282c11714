-- ===== src/Server/Router/Dispatch/Harmless.antt =====
-- router.rs and config.rs: what a viewer's dispatch cannot change.
use at_pc.Common.{
  ℕ, ◌≡◌, inl, inr, refl, sym, ap, subst, ◌∙◌, Str, Bool, true, false, Option, none, some, arith,
  Bool-cases,
}
use at_pc.Protocol.{viewer, role_le}
use at_pc.Protocol.Tools.{ToolSpec, agent_tool, ToolRisk, read_only}
use at_pc.Protocol.Tools.Laws.{agent_tool_exact}
use at_pc.Server.Roles.{meta_role, has_role, required, is_tool_allowed_for_role}
use at_pc.Server.Registry.Views.{TerminalEntry}
use at_pc.Server.Router.{McpRouter}
use at_pc.Server.Router.Dispatch.{
  JsonView, DispatchError, Dispatched, replied, failed, found, forbidden, forwards, Request, Moment,
  MetaTool, list_terminals_tool, select_terminal_tool, rename_terminal_tool,
  get_active_terminal_tool, list_pending_calls_tool, cancel_tool_tool, meta_tool,
}
use at_pc.Server.Router.Dispatch.Execute.{
  select_in, selecting, execute_meta, execute_known, execute_dispatch_inner,
}
use at_pc.Server.Router.Dispatch.Audited.{
  AuditSink, Dispatch, enforce, concluded, enforced, target_of, dispatch_tool_call_with_role,
}
use at_pc.Server.Router.Allowed.{role_at}
use at_pc.Server.Router.Dispatch.Spares.{
  viewer-meta, Spares, execute_known-Spares, concluded-Spares, refused-Spares,
}

abbrev is_forwarded : {Metrics : Type 0} → Dispatched Metrics → Bool
is_forwarded (forwards terminal_id id rx) = true
is_forwarded _ = false

-- The risk of the agent's tool of this name.
abbrev risk_at : Option ToolSpec → Option ToolRisk
risk_at none = none
risk_at (some spec) = some spec.risk

found-stays :
    {Metrics : Type 0} (q : Str) (o : Option (TerminalEntry Metrics))
    → is_forwarded (found q o) ≡ false
found-stays q none = refl
found-stays q (some t) = refl

viewer-risk :
    (name : Str) (s : ToolSpec)
    → agent_tool name ≡ some s
    → role_le s.required_role viewer ≡ true
    → s.risk ≡ read_only
viewer-risk name s e p = elim ((agent_tool_exact s.kind name s e).2) [
  | inl h ↦ h
  | inr h ↦ absurd (ground (arith, p, h))
]

module _ {Metrics Sender Value : Type 0} where
  concluded-outcome :
      (r : McpRouter Metrics Sender Value) (logger : AuditSink) (req : Request Value)
      (tid : Option Str) (at : Moment Sender) (ms : ℕ) (d : Dispatched Metrics)
      → (concluded r logger req tid at ms d).outcome ≡ d
  concluded-outcome r logger req tid at ms (replied reply) = refl
  concluded-outcome r logger req tid at ms (failed e) = refl
  concluded-outcome r logger req tid at ms (forwards t id rx) = refl

  selecting-stays :
      (r : McpRouter Metrics Sender Value) (o sid : Option Str) (at : Moment Sender)
      → is_forwarded (selecting r o sid at.now).1 ≡ false
  selecting-stays r none sid at = refl
  selecting-stays r (some tid) sid at = found-stays tid (select_in r sid tid at.now).1

  execute_meta-stays :
      (json : JsonView Value) (r : McpRouter Metrics Sender Value) (o : Option MetaTool)
      (name : Str) (arguments : Value) (sid : Option Str) (at : Moment Sender)
      → has_role viewer (role_at o) ≡ true
      → is_forwarded (execute_meta json r o name arguments sid at).1 ≡ false
  unfolding execute_meta role_le
  execute_meta-stays json r none name arguments sid at p = refl
  execute_meta-stays json r (some list_terminals_tool) name arguments sid at p = refl
  execute_meta-stays json r (some select_terminal_tool) name arguments sid at p =
      selecting-stays r _ _ at
  execute_meta-stays json r (some rename_terminal_tool) name arguments sid at p =
      absurd (ground (arith, p))
  execute_meta-stays json r (some get_active_terminal_tool) name arguments sid at p = refl
  execute_meta-stays json r (some list_pending_calls_tool) name arguments sid at p = refl
  execute_meta-stays json r (some cancel_tool_tool) name arguments sid at p =
      absurd (ground (arith, p))

  forwards-read_only :
      (json : JsonView Value) (r : McpRouter Metrics Sender Value) (o : Option ToolSpec)
      (name : Str) (arguments : Value) (sid : Option Str) (at : Moment Sender)
      → agent_tool name ≡ o
      → has_role viewer (required o (meta_role name)) ≡ true
      → is_forwarded (execute_known json r o name arguments sid at).1 ≡ true
      → risk_at o ≡ some read_only
  unfolding execute_known
  forwards-read_only json r none name arguments sid at e p f = absurd (
      ground (
        arith,
        f,
        execute_meta-stays json r (meta_tool name) name arguments sid at (viewer-meta name p),
      ))
  forwards-read_only json r (some spec) name arguments sid at e p f =
      ap some (viewer-risk name spec e p)

  abbrev pub IsHarmless :
      McpRouter Metrics Sender Value → Str → Dispatch Metrics Sender Value → Type 0
  IsHarmless r name d =
      Spares r d.router
      × (is_forwarded d.outcome ≡ true → risk_at (agent_tool name) ≡ some read_only)

  allowed-IsHarmless :
      (json : JsonView Value) (r : McpRouter Metrics Sender Value) (logger : AuditSink)
      (req : Request Value) (tid : Option Str) (at : Moment Sender) (ms : ℕ)
      → is_tool_allowed_for_role viewer req.tool_name ≡ true
      → IsHarmless r req.tool_name (enforced json r logger req tid at ms none)
  unfolding is_tool_allowed_for_role execute_dispatch_inner
  allowed-IsHarmless json r logger req tid at ms p =
      let name = req.tool_name in
      let outcome = (execute_dispatch_inner json r name req.arguments req.session_id at).1 in
      (
        concluded-Spares r _ logger req tid at ms outcome
            (execute_known-Spares json r (agent_tool name) name req.arguments req.session_id at p),
        λ f.
            forwards-read_only json r (agent_tool name) name req.arguments req.session_id at refl p
              (sym (ap is_forwarded (concluded-outcome _ logger req tid at ms outcome)) ∙ f),
      )

  -- A viewer's dispatch, of any name with any arguments: the metadata of the terminals is not changed and no pending
  -- call is answered or cancelled; and a call that goes to an agent is of a tool that only reads.
  pub dispatch-IsHarmless :
      (json : JsonView Value) (r : McpRouter Metrics Sender Value) (logger : AuditSink)
      (req : Request Value) (at : Moment Sender) (ms : ℕ)
      → req.role ≡ some viewer
      → IsHarmless r req.tool_name (dispatch_tool_call_with_role json r logger req at ms)
  unfolding dispatch_tool_call_with_role enforce
  dispatch-IsHarmless json r logger req at ms p =
      let tid = target_of json r req at.now in
      let name = req.tool_name in
      let at_role : enforce req.role name ≡ enforce (some viewer) name =
        ap (λ o. enforce o name) p in
      let close : (o : Option DispatchError)
          → enforce (some viewer) name ≡ o
          → IsHarmless r name (enforced json r logger req tid at ms o)
          → IsHarmless r name (enforced json r logger req tid at ms (enforce req.role name)) =
        λ o e h.
          subst (λ o. IsHarmless r name (enforced json r logger req tid at ms o))
            (sym (at_role ∙ e)) h in
      elim (Bool-cases (is_tool_allowed_for_role viewer name)) [
        | inl q ↦ close none (ground (arith, q)) (allowed-IsHarmless json r logger req tid at ms q)
        | inr q ↦ close (some (forbidden viewer name)) (ground (arith, q)) (
          refused-Spares json r logger req tid at ms (forbidden viewer name),
          λ f. absurd (ground (arith, f)),
        )
      ]
