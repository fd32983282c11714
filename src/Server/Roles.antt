-- ===== src/Server/Roles.antt =====
-- crates/server/src/config.rs, `is_tool_allowed_for_role`: which role may call which tool. The server's
-- own tools are named here, the agent's in the registry.
pub mod Laws
use at_pc.Common.{
  Str, ascii, Bool, true, false, ◌||◌, Option, none, some, ◌==◌, str_eq, if◌then◌else◌,
}
use at_pc.Protocol.{Role, viewer, operator, role_le}
use at_pc.Protocol.Tools.{ToolSpec, agent_tool}

-- The arms of the `match` on the name.
unfoldable pub meta_role : Str → Option Role
meta_role name =
    if (name == ascii "list_terminals")
      || (name == ascii "select_terminal")
      || (name == ascii "get_active_terminal")
      || (name == ascii "list_pending_calls")
    then some viewer
    else if (name == ascii "rename_terminal")
        || (name == ascii "cancel_tool")
        || (name == ascii "cancel_task")
    then some operator
    else none

-- `role >= required_role`, where there is one.
abbrev pub has_role : Role → Option Role → Bool
has_role role none = false
has_role role (some required_role) = role_le required_role role

abbrev pub required : Option ToolSpec → Option Role → Option Role
required none meta = meta
required (some spec) meta = some spec.required_role

unfoldable pub is_tool_allowed_for_role : Role → Str → Bool
unfolding meta_role
is_tool_allowed_for_role role name = has_role role (required (agent_tool name) (meta_role name))
