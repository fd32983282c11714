-- ===== src/Server/Router/Allowed.antt =====
-- config.rs and router.rs: the table of roles and the dispatch know the same tools.
use at_pc.Common.{
  ℕ, Str, ascii, ◌≡◌, refl, sym, ◌∙◌, ap, subst, Bool, true, false, not, Option, none, some, List,
  arith, ◌==◌, ==_iff, str_eq, str_beq, inl, inr, Bool-cases,
}
use at_pc.Protocol.{Role, viewer, operator, admin, role_le}
use at_pc.Protocol.Tools.{ToolSpec, agent_tool}
use at_pc.Server.Roles.{meta_role, has_role, required, is_tool_allowed_for_role}
use at_pc.Server.Roles.Laws.{le_admin}
use at_pc.Server.Registry.Views.{TerminalEntry}
use at_pc.Server.Router
use at_pc.Server.Router.{McpRouter, Target}
use at_pc.Server.Router.Invoke.{
  Started, not_in_registry, currently_offline, not_sent, waits, begin_invoke, cancel_tool_call,
}
use at_pc.Server.Router.Dispatch.Execute.{
  forward_to, select_in, selecting, renaming, cancel_reply, cancelling, execute_meta, execute_known,
  execute_dispatch_inner,
}
use at_pc.Server.Router.Dispatch.{
  JsonView, Dispatched, failed, unknown_tool, Moment, found, forwarded, MetaTool,
  list_terminals_tool, select_terminal_tool, rename_terminal_tool, get_active_terminal_tool,
  list_pending_calls_tool, cancel_tool_tool, meta_tool,
}

abbrev pub role_of : MetaTool → Role
role_of rename_terminal_tool = operator
role_of cancel_tool_tool = operator
role_of _ = viewer

abbrev pub role_at : Option MetaTool → Option Role
role_at none = none
role_at (some t) = some (role_of t)

-- The two tables agree on a name.
abbrev pub Agree : Str → Type 0
Agree name = meta_role name ≡ role_at (meta_tool name)

pub meta_role-meta_tool : (name : Str) → Agree name
unfolding meta_role meta_tool str_beq
meta_role-meta_tool name =
    let at : (s : Str) → (name == s) ≡ true → Agree s → Agree name =
      λ s q h. subst Agree (sym ((==_iff name s).0 q)) h in
    elim (Bool-cases (name == ascii "list_terminals")) [
      | inl q ↦ at (ascii "list_terminals") q refl
      | inr n0 ↦ elim (Bool-cases (name == ascii "select_terminal")) [
        | inl q ↦ at (ascii "select_terminal") q refl
        | inr n1 ↦ elim (Bool-cases (name == ascii "rename_terminal")) [
          | inl q ↦ at (ascii "rename_terminal") q refl
          | inr n2 ↦ elim (Bool-cases (name == ascii "get_active_terminal")) [
            | inl q ↦ at (ascii "get_active_terminal") q refl
            | inr n3 ↦ elim (Bool-cases (name == ascii "list_pending_calls")) [
              | inl q ↦ at (ascii "list_pending_calls") q refl
              | inr n4 ↦ elim (Bool-cases (name == ascii "cancel_tool")) [
                | inl q ↦ at (ascii "cancel_tool") q refl
                | inr n5 ↦ elim (Bool-cases (name == ascii "cancel_task")) [
                  | inl q ↦ at (ascii "cancel_task") q refl
                  | inr n6 ↦ ground (arith, n0, n1, n2, n3, n4, n5, n6)
                ]
              ]
            ]
          ]
        ]
      ]
    ]

-- The answer that the tool does not exist.
abbrev pub is_unknown : {Metrics : Type 0} → Dispatched Metrics → Bool
is_unknown (failed (unknown_tool name)) = true
is_unknown _ = false

forwarded-known :
    (Metrics : Type 0) (tid : Str) (how : Started)
    → is_unknown (forwarded {Metrics = Metrics} tid how) ≡ false
forwarded-known Metrics tid (waits id rx) = refl
forwarded-known Metrics tid not_in_registry = refl
forwarded-known Metrics tid currently_offline = refl
forwarded-known Metrics tid (not_sent e) = refl

found-known :
    {Metrics : Type 0} (q : Str) (o : Option (TerminalEntry Metrics))
    → is_unknown (found q o) ≡ false
found-known q none = refl
found-known q (some t) = refl

cancel_reply-known :
    (Metrics : Type 0) (cid : Str) (b : Bool)
    → is_unknown (cancel_reply {Metrics = Metrics} cid b) ≡ false
cancel_reply-known Metrics cid true = refl
cancel_reply-known Metrics cid false = refl

module _ {Metrics Sender Value : Type 0} where
  forward_to-known :
      (r : McpRouter Metrics Sender Value) (t : Target) (tool : Str) (timeout : ℕ)
      (at : Moment Sender)
      → is_unknown (forward_to r t tool timeout at).1 ≡ false
  forward_to-known r (Router.err e) tool timeout at = refl
  forward_to-known r (Router.ok tid) tool timeout at =
      forwarded-known Metrics tid (begin_invoke r tid tool at.millis at.now timeout at.opened).1

  selecting-known :
      (r : McpRouter Metrics Sender Value) (o sid : Option Str) (at : Moment Sender)
      → is_unknown (selecting r o sid at.now).1 ≡ false
  selecting-known r none sid at = refl
  selecting-known r (some tid) sid at = found-known tid (select_in r sid tid at.now).1

  renaming-known :
      (r : McpRouter Metrics Sender Value) (o name notes : Option Str) (tags : Option (List Str))
      (at : Moment Sender)
      → is_unknown (renaming r o name notes tags at).1 ≡ false
  renaming-known r none name notes tags at = refl
  renaming-known r (some tid) name notes tags at = refl

  cancelling-known :
      (r : McpRouter Metrics Sender Value) (o : Option Str) (at : Moment Sender)
      → is_unknown (cancelling r o at).1 ≡ false
  cancelling-known r none at = refl
  cancelling-known r (some cid) at =
      cancel_reply-known Metrics cid (cancel_tool_call r cid at.opened).1

  execute_meta-known :
      (json : JsonView Value) (r : McpRouter Metrics Sender Value) (o : Option MetaTool)
      (name : Str) (arguments : Value) (sid : Option Str) (at : Moment Sender)
      → is_unknown (execute_meta json r o name arguments sid at).1
        ≡ not (has_role admin (role_at o))
  unfolding execute_meta role_le
  execute_meta-known json r none name arguments sid at = refl
  execute_meta-known json r (some list_terminals_tool) name arguments sid at = refl
  execute_meta-known json r (some select_terminal_tool) name arguments sid at =
      selecting-known r _ _ at
  execute_meta-known json r (some rename_terminal_tool) name arguments sid at =
      renaming-known r _ _ _ _ at
  execute_meta-known json r (some get_active_terminal_tool) name arguments sid at = refl
  execute_meta-known json r (some list_pending_calls_tool) name arguments sid at = refl
  execute_meta-known json r (some cancel_tool_tool) name arguments sid at = cancelling-known r _ at

  execute_known-known :
      (json : JsonView Value) (r : McpRouter Metrics Sender Value) (o : Option ToolSpec)
      (name : Str) (arguments : Value) (sid : Option Str) (at : Moment Sender)
      → is_unknown (execute_known json r o name arguments sid at).1
        ≡ not (has_role admin (required o (meta_role name)))
  unfolding execute_known
  execute_known-known json r none name arguments sid at =
      execute_meta-known json r (meta_tool name) name arguments sid at
      ∙ ap (λ o. not (has_role admin o)) (sym (meta_role-meta_tool name))
  execute_known-known json r (some spec) name arguments sid at =
      forward_to-known r _ spec.name _ at ∙ ap not (sym (le_admin spec.required_role))

  -- The dispatch answers that a tool does not exist exactly where the table of roles lets not even an
  -- administrator call it: no tool is callable by nobody, and none is allowed that is not there.
  pub unknown_tool_exact :
      (json : JsonView Value) (r : McpRouter Metrics Sender Value) (name : Str) (arguments : Value)
      (sid : Option Str) (at : Moment Sender)
      → is_unknown (execute_dispatch_inner json r name arguments sid at).1
        ≡ not (is_tool_allowed_for_role admin name)
  unfolding execute_dispatch_inner is_tool_allowed_for_role
  unknown_tool_exact json r name arguments sid at =
      execute_known-known json r (agent_tool name) name arguments sid at
