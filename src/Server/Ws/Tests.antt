-- ===== src/Server/Ws/Tests.antt =====
-- The connection of ws/handler.rs at concrete inputs. Metrics, channels, integers and JSON are numbers.
use at_pc.Common.{
  if◌then◌else◌, nat_beq, drop, ℕ, ◌≡◌, ◌↔◌, ◌⊎◌, refl, Str, ascii, true, false, Option, none, some,
  List, [], ◌∷◌, arith, nat_eq, str_eq, str_beq,
}
use at_pc.Map
use at_pc.Time.{from_secs}
use at_pc.Protocol.{TerminalInfo, online, offline}
use at_pc.Protocol.Messages.{
  register, heartbeat, ServerToAgentMessage, desktop_input, mouse_move, mouse_down,
}
use at_pc.Server.Gateway.State.{Peer}
use at_pc.Server.MetaStore.{in_memory}
use at_pc.Server.Registry.{TerminalRegistry, with_store, session_of, is_current, get_status}
use at_pc.Server.Registry
use at_pc.Server.Router.{McpRouter}
use at_pc.Server.Router.Pending.{PendingCallEntry, err, disconnected}
use at_pc.Server.Ws.Forward.{Queued, sends, fails, forward, messages, seen_after, forward-seen}
use at_pc.Server.Ws.Handler.{
  Connection, Stamp, Input, frame, elsewhere, text, ping, close, read_loop, cleanup,
}
use at_pc.Server.Ws.Cleanup.{
  reason, NotOn, replaced_close_aborts, ended_clean, reregistered_stays_online,
}
use at_pc.Server.Ws.Registration.{
  WsServerState, First, message, ok, Arrival, connect, agent, joined, Upgrade,
}
use at_pc.Server.Ws.Registration.Joins.{Passes, joins_exactly}

abbrev Sent : Type 0
Sent = ServerToAgentMessage ℕ ℕ ℕ

abbrev move : ℕ → Sent
move x = desktop_input (mouse_move x 0)

abbrev click : Sent
click = desktop_input (mouse_down 0)

abbrev queue : List (Queued ℕ ℕ ℕ)
queue =
    record { message = move 1; ready = false }
    ∷ record { message = move 2; ready = true }
    ∷ record { message = click; ready = true }
    ∷ record { message = move 3; ready = true }
    ∷ record { message = move 4; ready = false }
    ∷ []

forward_run : forward (λ n. sends) queue ≡ move 2 ∷ click ∷ move 3 ∷ move 4 ∷ []
unfolding forward
forward_run = refl

-- The first send fails: it is the mouse move before a click, whose failure is not noticed.
forward_run_missed :
    forward (λ n. if nat_beq n 0 then fails else sends) (drop 1 queue)
    ≡ click ∷ move 3 ∷ move 4 ∷ []
unfolding forward
forward_run_missed = refl

forward-seen_example :
    seen_after none (forward (λ n. sends) queue) ≡ seen_after none (messages queue)
forward-seen_example = forward-seen (λ n. sends) none queue (λ n. refl)

abbrev info : TerminalInfo
info = record {
  terminal_id = ascii "a";
  hostname = ascii "h";
  username = ascii "u";
  lan_ip = ascii "10.0.0.1";
  os_version = ascii "w";
  agent_version = ascii "1";
}

abbrev empty : TerminalRegistry ℕ ℕ
empty = with_store (from_secs 15) in_memory 1

-- The terminal connected twice, over the channels 7 and 8.
abbrev twice : TerminalRegistry ℕ ℕ
twice = (Registry.register (Registry.register empty info 7 0 1).0 info 8 5 2).0

abbrev call : PendingCallEntry
call = record {
  terminal_id = ascii "a";
  tool_name = ascii "exec_cmd";
  start_time = 6;
  timeout_secs = 30;
  tx = 0;
}

abbrev router : McpRouter ℕ ℕ ℕ
router = record {
  registry = twice;
  calls = record { pending_calls = (ascii "call-1", call) ∷ []; next_channel = 1; answers = [] };
  active_terminal_id = none;
  session_active_terminals = [];
  call_counter = 1;
}

abbrev old : Connection ℕ
old = record { terminal_id = ascii "a"; session_id = 1; sender = 7 }

abbrev replacing : Registry.TerminalSession ℕ ℕ
replacing = Registry.new_session 2 info 8 5

replaced_close_aborts_example :
    ((cleanup router old).registry ≡ router.registry)
    × (get_status (cleanup router old).registry (ascii "a") ≡ some online)
    × (Map.get (ascii "call-1") (cleanup router old).calls.pending_calls ≡ none)
    × (Map.get 0 (cleanup router old).calls.answers ≡ some (err (disconnected (ascii "a") reason)))
unfolding Registry.register Map.get Map.insert str_beq get_status
replaced_close_aborts_example =
    replaced_close_aborts router old (ascii "call-1") call replacing refl (omega arith) refl refl
      refl

abbrev stamp : Stamp ℕ
stamp = record { now = 9; wall_clock = 3; server_timestamp = 3 }

abbrev newer : Connection ℕ
newer = record { terminal_id = ascii "a"; session_id = 2; sender = 8 }

abbrev inputs : List (Input ℕ ℕ ℕ ℕ)
inputs =
    frame stamp (text (some (heartbeat [] 4)))
    ∷ elsewhere (λ r. record r { call_counter = 2 })
    ∷ frame stamp ping
    ∷ frame stamp close
    ∷ []

abbrev after : McpRouter ℕ ℕ ℕ
after = (read_loop router newer inputs).0

inputs_run : read_loop router newer inputs ≡ (after, true)
unfolding read_loop
inputs_run = refl

ended_clean_example :
    NotOn (ascii "a") (Map.get (ascii "call-1") after.calls.pending_calls)
    × ((is_current (session_of after.registry (ascii "a")) 2 ≡ false)
        ⊎ (get_status after.registry (ascii "a") ≡ some offline))
ended_clean_example = ended_clean newer router after inputs (ascii "call-1") inputs_run

reregistered_stays_online_example :
    let again : List (Input ℕ ℕ ℕ ℕ) =
      frame stamp (text (some (register info none))) ∷ frame stamp close ∷ [] in
    ((read_loop router newer again).1 ≡ true)
    × (get_status (read_loop router newer again).0.registry (ascii "a") ≡ some online)
unfolding Registry.register
reregistered_stays_online_example =
    reregistered_stays_online router newer stamp stamp info none refl (omega arith)

abbrev server : WsServerState ℕ ℕ ℕ
server = record { registry = empty; rate_limiter = []; audit_logger = none }

abbrev peer : Peer ℕ
peer = record { ip = 7; is_loopback = false; text = ascii "192.0.2.7:4711" }

abbrev arrival : Arrival
arrival = record {
  at_connect = 1;
  at_check = 2;
  at_register = 3;
  wall_clock = 4;
  ack_sent = true;
  audit_id = ascii "call";
  audit_time = ascii "now";
}

abbrev hello : First ℕ ℕ
hello = message (register info none)

joins_exactly_example :
    ((connect server (some peer) 7 arrival hello agent).1 ≡ joined (ok info 1)) ↔ (
      (auth_token : Option Str) × (hello ≡ message (register info auth_token))
      × (◌≡◌ {A = Upgrade} agent agent)
      × Passes server (some peer) arrival
      × (arrival.ack_sent ≡ true)
      × (1 ≡ server.registry.session_seq)
      × ((connect server (some peer) 7 arrival hello agent).0.registry
          ≡ (Registry.register server.registry info 7 3 4).0))
joins_exactly_example = joins_exactly server (some peer) 7 arrival hello agent info 1
