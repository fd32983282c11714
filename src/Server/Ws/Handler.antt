-- ===== src/Server/Ws/Handler.antt =====
-- ws/handler.rs: the messages of a registered agent, and the end of its connection. The message handler is
-- the router, as main.rs sets it, and the registry is the router's. Between two frames other tasks change
-- the router.
use at_pc.Common.{
  ℕ, Str, ascii, Bool, true, false, Option, none, some, List, [], ◌∷◌, is_empty, if◌then◌else◌,
}
use at_pc.Time.{Instant}
use at_pc.Protocol.{offline}
use at_pc.Protocol.Messages.{
  AgentToServerMessage, register, heartbeat, tool_result, disconnect, ServerToAgentMessage,
  heartbeat_ack,
}
use at_pc.Server.Registry
use at_pc.Server.Router.{McpRouter}
use at_pc.Server.Router.Invoke.{process_tool_result, handle_terminal_disconnected}

-- The clocks at a message: the monotonic one, the registry's, and the acknowledgement's.
pub record Stamp (Int : Type 0) : Type 0 where
  pub now : Instant
  pub wall_clock : ℕ
  pub server_timestamp : Int

-- What the reading task knows of its connection.
pub record Connection (Sender : Type 0) : Type 0 where
  pub terminal_id : Str
  pub session_id : ℕ
  pub sender : Sender

-- A frame from the socket; `text none` is no valid message, `idle` the timeout of the read.
pub data Frame (Metrics Value : Type 0) : Type 0 where
  text : Option (AgentToServerMessage Metrics Value) → Frame Metrics Value
  binary ping pong raw close ended failed idle : Frame Metrics Value

-- The frames after which the loop breaks.
abbrev pub breaks : {Metrics Value : Type 0} → Frame Metrics Value → Bool
breaks close = true
breaks ended = true
breaks failed = true
breaks idle = true
breaks other = false

abbrev target : Str → Str → Str
target named own = if is_empty named then own else named

module _ {Int Float Metrics Sender Value : Type 0} where
  -- The router after a message, and what is sent to the agent.
  unfoldable pub handle_agent_message :
      McpRouter Metrics Sender Value
      → Connection Sender
      → Stamp Int
      → AgentToServerMessage Metrics Value
      → McpRouter Metrics Sender Value × Option (ServerToAgentMessage Int Float Value)
  handle_agent_message r c at (heartbeat hid metrics) = (
    record r {
      registry = (Registry.update_heartbeat r.registry (target hid c.terminal_id) metrics at.now).0;
    },
    some (heartbeat_ack at.server_timestamp),
  )
  handle_agent_message r c at (tool_result call_id success result error duration_ms) =
      (process_tool_result r call_id success result error, none)
  handle_agent_message r c at (disconnect did reason) =
      let id = target did c.terminal_id in
      let r' = record r { registry = (Registry.set_status r.registry id offline).0 } in
      (handle_terminal_disconnected r' id reason, none)
  handle_agent_message r c at (register info auth_token) = (
    record r { registry = (Registry.register r.registry info c.sender at.now at.wall_clock).0 },
    none,
  )

-- What happens next: a frame of this connection, or a change of the router by another task.
pub data Input (Int Metrics Sender Value : Type 0) : Type 0 where
  frame : Stamp Int → Frame Metrics Value → Input Int Metrics Sender Value
  elsewhere :
      (McpRouter Metrics Sender Value → McpRouter Metrics Sender Value)
      → Input Int Metrics Sender Value

module _ {Metrics Sender Value : Type 0} where
  -- The end of `handle_stream_with_peer`.
  unfoldable pub cleanup :
      McpRouter Metrics Sender Value → Connection Sender → McpRouter Metrics Sender Value
  cleanup r c =
      let registry =
        (Registry.set_status_if_current r.registry c.terminal_id c.session_id offline).0 in
      handle_terminal_disconnected (record r { registry = registry }) c.terminal_id
        (ascii "WebSocket connection closed")

module _ {Int Metrics Sender Value : Type 0} where
  -- One round of the loop over the frames, which goes on.
  unfoldable pub handle_frame :
      McpRouter Metrics Sender Value
      → Connection Sender
      → Stamp Int
      → Frame Metrics Value
      → McpRouter Metrics Sender Value
  unfolding handle_agent_message
  handle_frame r c at (text (some message)) =
      (handle_agent_message {Float = Value} r c at message).0
  handle_frame r c at other = r

  -- The connection from its registration on, and whether it has ended.
  unfoldable pub read_loop :
      McpRouter Metrics Sender Value
      → Connection Sender
      → List (Input Int Metrics Sender Value)
      → McpRouter Metrics Sender Value × Bool
  unfolding handle_frame cleanup
  read_loop r c [] = (r, false)
  read_loop r c (elsewhere change ∷ inputs) = read_loop (change r) c inputs
  read_loop r c (frame at f ∷ inputs) =
      let rest = read_loop (handle_frame r c at f) c inputs in
      if breaks f then (cleanup r c, true) else rest
