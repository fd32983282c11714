-- ===== src/Protocol/Tools.antt =====
-- crates/protocol/src/tools.rs: the registry of the agent's tools. A tool's description and the JSON
-- schema of its arguments are left out: nothing in the server decides by them.
pub mod Laws
use at_pc.Common.{Str, ascii, Option, none, some, List, [], ◌∷◌, ◌==◌, str_eq, if◌then◌else◌}
use at_pc.Protocol.{Role, viewer, operator, admin}

pub data ToolRisk : Type 0 where
  read_only system_mutation computer_control : ToolRisk

pub data AgentToolKind : Type 0 where
  get_system_overview exec_powershell exec_cmd list_processes kill_process : AgentToolKind
  manage_service read_text_file write_text_file capture_screen list_monitors : AgentToolKind
  list_directory search_files list_network_connections test_network get_event_logs : AgentToolKind
  mouse_click mouse_move mouse_drag mouse_scroll type_text : AgentToolKind
  press_key key_down key_up hotkey get_ui_tree : AgentToolKind
  click_element set_element_text batch_actions list_windows focus_window : AgentToolKind
  close_window get_marked_screen click_mark : AgentToolKind

unfoldable pub as_str : AgentToolKind → Str
as_str get_system_overview = ascii "get_system_overview"
as_str exec_powershell = ascii "exec_powershell"
as_str exec_cmd = ascii "exec_cmd"
as_str list_processes = ascii "list_processes"
as_str kill_process = ascii "kill_process"
as_str manage_service = ascii "manage_service"
as_str read_text_file = ascii "read_text_file"
as_str write_text_file = ascii "write_text_file"
as_str capture_screen = ascii "capture_screen"
as_str list_monitors = ascii "list_monitors"
as_str list_directory = ascii "list_directory"
as_str search_files = ascii "search_files"
as_str list_network_connections = ascii "list_network_connections"
as_str test_network = ascii "test_network"
as_str get_event_logs = ascii "get_event_logs"
as_str mouse_click = ascii "mouse_click"
as_str mouse_move = ascii "mouse_move"
as_str mouse_drag = ascii "mouse_drag"
as_str mouse_scroll = ascii "mouse_scroll"
as_str type_text = ascii "type_text"
as_str press_key = ascii "press_key"
as_str key_down = ascii "key_down"
as_str key_up = ascii "key_up"
as_str hotkey = ascii "hotkey"
as_str get_ui_tree = ascii "get_ui_tree"
as_str click_element = ascii "click_element"
as_str set_element_text = ascii "set_element_text"
as_str batch_actions = ascii "batch_actions"
as_str list_windows = ascii "list_windows"
as_str focus_window = ascii "focus_window"
as_str close_window = ascii "close_window"
as_str get_marked_screen = ascii "get_marked_screen"
as_str click_mark = ascii "click_mark"

pub record ToolSpec : Type 0 where
  pub name : Str
  pub required_role : Role
  pub risk : ToolRisk
  pub kind : AgentToolKind

unfoldable pub spec : AgentToolKind → Role → ToolRisk → ToolSpec
unfolding as_str
spec kind required_role risk = record {
  name = as_str kind;
  required_role = required_role;
  risk = risk;
  kind = kind;
}

unfoldable pub tool_registry : List ToolSpec
unfolding spec
tool_registry =
    spec get_system_overview viewer read_only
    ∷ spec exec_powershell admin system_mutation
    ∷ spec exec_cmd admin system_mutation
    ∷ spec list_processes viewer read_only
    ∷ spec kill_process admin system_mutation
    ∷ spec manage_service operator system_mutation
    ∷ spec read_text_file viewer read_only
    ∷ spec write_text_file admin system_mutation
    ∷ spec capture_screen viewer read_only
    ∷ spec list_monitors viewer read_only
    ∷ spec list_directory viewer read_only
    ∷ spec search_files viewer read_only
    ∷ spec list_network_connections viewer read_only
    ∷ spec test_network viewer read_only
    ∷ spec get_event_logs viewer read_only
    ∷ spec mouse_click admin computer_control
    ∷ spec mouse_move admin computer_control
    ∷ spec mouse_drag admin computer_control
    ∷ spec mouse_scroll admin computer_control
    ∷ spec type_text admin computer_control
    ∷ spec press_key admin computer_control
    ∷ spec key_down admin computer_control
    ∷ spec key_up admin computer_control
    ∷ spec hotkey admin computer_control
    ∷ spec get_ui_tree viewer read_only
    ∷ spec click_element admin computer_control
    ∷ spec set_element_text admin computer_control
    ∷ spec batch_actions admin computer_control
    ∷ spec list_windows viewer read_only
    ∷ spec focus_window admin computer_control
    ∷ spec close_window admin computer_control
    ∷ spec get_marked_screen viewer read_only
    ∷ spec click_mark admin computer_control
    ∷ []

unfoldable pub find_spec : Str → List ToolSpec → Option ToolSpec
find_spec name [] = none
find_spec name (s ∷ specs) =
    let rest = find_spec name specs in if s.name == name then some s else rest

unfoldable pub agent_tool : Str → Option ToolSpec
unfolding find_spec tool_registry
agent_tool name = find_spec name tool_registry
