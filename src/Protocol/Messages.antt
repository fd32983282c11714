-- ===== src/Protocol/Messages.antt =====
-- messages.rs and models.rs: the messages between the server and the agent. Signed integers, floats and
-- JSON values are parameters.
use at_pc.Common.{ℕ, Str, Bool, Option}
use at_pc.Protocol.{TerminalInfo}

pub data DesktopInputEvent (Int : Type 0) : Type 0 where
  mouse_move : ℕ → ℕ → DesktopInputEvent Int
  mouse_move_pixel : Int → Int → DesktopInputEvent Int
  mouse_down mouse_up : ℕ → DesktopInputEvent Int
  mouse_click : ℕ → ℕ → DesktopInputEvent Int
  mouse_wheel : Int → DesktopInputEvent Int
  key_down key_up : ℕ → Str → DesktopInputEvent Int
  type_text : Str → DesktopInputEvent Int

pub data ServerToAgentMessage (Int Float Value : Type 0) : Type 0 where
  register_ack : Bool → Option Str → ℕ → ServerToAgentMessage Int Float Value
  heartbeat_ack : Int → ServerToAgentMessage Int Float Value
  invoke_tool : Str → Str → Value → ℕ → ServerToAgentMessage Int Float Value
  cancel_tool : Str → ServerToAgentMessage Int Float Value
  start_desktop_stream : ℕ → ℕ → ℕ → Float → ServerToAgentMessage Int Float Value
  stop_desktop_stream : ServerToAgentMessage Int Float Value
  desktop_input : DesktopInputEvent Int → ServerToAgentMessage Int Float Value

pub data AgentToServerMessage (Metrics Value : Type 0) : Type 0 where
  register : TerminalInfo → Option Str → AgentToServerMessage Metrics Value
  heartbeat : Str → Metrics → AgentToServerMessage Metrics Value
  tool_result : Str → Bool → Value → Option Str → ℕ → AgentToServerMessage Metrics Value
  disconnect : Str → Str → AgentToServerMessage Metrics Value
