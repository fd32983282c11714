-- ===== src/Protocol/Tools/Laws.antt =====
-- tools.rs: the registry has every kind once, under its name.
use at_pc.Common.{
  Str, ◌≡◌, ◌≢◌, refl, Bool, false, Option, none, some, List, [], ◌∷◌, arith, ◌==◌, ==_iff, str_eq,
  str_beq, inl, inr, ◌⊎◌, subst, ◌∙◌, Bool-cases, All,
}
use at_pc.Protocol.{Role, viewer, role_le}
use at_pc.Protocol.Tools.{
  ToolRisk, read_only, system_mutation, computer_control, AgentToolKind, as_str, ToolSpec, spec,
  tool_registry, find_spec, agent_tool, get_system_overview, exec_powershell, exec_cmd,
  list_processes, kill_process, manage_service, read_text_file, write_text_file, capture_screen,
  list_monitors, list_directory, search_files, list_network_connections, test_network,
  get_event_logs, mouse_click, mouse_move, mouse_drag, mouse_scroll, type_text, press_key, key_down,
  key_up, hotkey, get_ui_tree, click_element, set_element_text, batch_actions, list_windows,
  focus_window, close_window, get_marked_screen, click_mark,
}

-- The kind that a look-up of a name finds.
abbrev pub kind_of : Option ToolSpec → Option AgentToolKind
kind_of none = none
kind_of (some s) = some s.kind

agent_tool-as_str : (k : AgentToolKind) → kind_of (agent_tool (as_str k)) ≡ some k
unfolding agent_tool str_beq
agent_tool-as_str get_system_overview = refl
agent_tool-as_str exec_powershell = refl
agent_tool-as_str exec_cmd = refl
agent_tool-as_str list_processes = refl
agent_tool-as_str kill_process = refl
agent_tool-as_str manage_service = refl
agent_tool-as_str read_text_file = refl
agent_tool-as_str write_text_file = refl
agent_tool-as_str capture_screen = refl
agent_tool-as_str list_monitors = refl
agent_tool-as_str list_directory = refl
agent_tool-as_str search_files = refl
agent_tool-as_str list_network_connections = refl
agent_tool-as_str test_network = refl
agent_tool-as_str get_event_logs = refl
agent_tool-as_str mouse_click = refl
agent_tool-as_str mouse_move = refl
agent_tool-as_str mouse_drag = refl
agent_tool-as_str mouse_scroll = refl
agent_tool-as_str type_text = refl
agent_tool-as_str press_key = refl
agent_tool-as_str key_down = refl
agent_tool-as_str key_up = refl
agent_tool-as_str hotkey = refl
agent_tool-as_str get_ui_tree = refl
agent_tool-as_str click_element = refl
agent_tool-as_str set_element_text = refl
agent_tool-as_str batch_actions = refl
agent_tool-as_str list_windows = refl
agent_tool-as_str focus_window = refl
agent_tool-as_str close_window = refl
agent_tool-as_str get_marked_screen = refl
agent_tool-as_str click_mark = refl

-- A specification under its own kind's name, closed to viewers if the tool changes anything.
pub record IsSafe (s : ToolSpec) : Type 0 where
  pub named : s.name ≡ as_str s.kind
  pub guarded : s.risk ≢ read_only → role_le s.required_role viewer ≡ false

reads : (k : AgentToolKind) → IsSafe (spec k viewer read_only)
unfolding spec
reads k = record { named = refl; guarded = λ ne. absurd (ne refl) }

changes :
    (k : AgentToolKind) (r : Role) → role_le r viewer ≡ false → IsSafe (spec k r system_mutation)
unfolding spec
changes k r h = record { named = refl; guarded = λ ne. h }

controls :
    (k : AgentToolKind) (r : Role) → role_le r viewer ≡ false → IsSafe (spec k r computer_control)
unfolding spec
controls k r h = record { named = refl; guarded = λ ne. h }

tool_registry-IsSafe : All IsSafe tool_registry
unfolding tool_registry role_le
tool_registry-IsSafe = (
  reads _,
  (
    changes _ _ refl,
    (
      changes _ _ refl,
      (
        reads _,
        (
          changes _ _ refl,
          (
            changes _ _ refl,
            (
              reads _,
              (
                changes _ _ refl,
                (
                  reads _,
                  (
                    reads _,
                    (
                      reads _,
                      (
                        reads _,
                        (
                          reads _,
                          (
                            reads _,
                            (
                              reads _,
                              (
                                controls _ _ refl,
                                (
                                  controls _ _ refl,
                                  (
                                    controls _ _ refl,
                                    (
                                      controls _ _ refl,
                                      (
                                        controls _ _ refl,
                                        (
                                          controls _ _ refl,
                                          (
                                            controls _ _ refl,
                                            (
                                              controls _ _ refl,
                                              (
                                                controls _ _ refl,
                                                (
                                                  reads _,
                                                  (
                                                    controls _ _ refl,
                                                    (
                                                      controls _ _ refl,
                                                      (
                                                        controls _ _ refl,
                                                        (
                                                          reads _,
                                                          (
                                                            controls _ _ refl,
                                                            (
                                                            controls _ _ refl,
                                                            (reads _, (controls _ _ refl, tt)),
                                                            ),
                                                          ),
                                                        ),
                                                      ),
                                                    ),
                                                  ),
                                                ),
                                              ),
                                            ),
                                          ),
                                        ),
                                      ),
                                    ),
                                  ),
                                ),
                              ),
                            ),
                          ),
                        ),
                      ),
                    ),
                  ),
                ),
              ),
            ),
          ),
        ),
      ),
    ),
  ),
)

find-IsSafe :
    (name : Str) (specs : List ToolSpec) (s : ToolSpec)
    → All IsSafe specs
    → find_spec name specs ≡ some s
    → (name ≡ s.name) × IsSafe s
unfolding find_spec
find-IsSafe name [] s h e = absurd (ground arith)
find-IsSafe name (t ∷ specs) s h e = elim (Bool-cases (t.name == name)) [
  | inl p ↦
      let q : t ≡ s = ground (arith, p, e) in
      (ground (arith, p, q, ==_iff t.name name), subst IsSafe q h.0)
  | inr p ↦ find-IsSafe name specs s h.1 (ground (arith, p, e))
]

closed : (r : ToolRisk) (b : Bool) → (r ≢ read_only → b ≡ false) → (r ≡ read_only) ⊎ (b ≡ false)
closed read_only b h = inl refl
closed system_mutation b h = inr (h (λ e. ground arith))
closed computer_control b h = inr (h (λ e. ground arith))

-- Every kind of tool is found under its name; and whatever specification a name finds has that name,
-- which is its kind's, and is read-only or closed to viewers.
pub agent_tool_exact :
    (k : AgentToolKind) (name : Str) (s : ToolSpec)
    → agent_tool name ≡ some s
    → (kind_of (agent_tool (as_str k)) ≡ some k)
      × (name ≡ as_str s.kind)
      × ((s.risk ≡ read_only) ⊎ (role_le s.required_role viewer ≡ false))
unfolding agent_tool
agent_tool_exact k name s e =
    let found = find-IsSafe name tool_registry s tool_registry-IsSafe e in
    (agent_tool-as_str k, found.0 ∙ found.1.named, closed s.risk _ found.1.guarded)
