-- ===== src/Server/Router/Machine.antt =====
-- router.rs: all tool calls at once. A task that awaits in `invoke_tool` is an entry of `waiting`; the
-- events are its start and its resumption, and what other tasks do in between; `draws` is an id that
-- is drawn for an audit record.
pub mod CallId
pub mod Kept
pub mod Steps
pub mod Prospect
pub mod Answered
use at_pc.Common.{
  ℕ, Str, Bool, true, false, ◌||◌, Option, none, some, List, [], ◌∷◌, nat_beq, str_eq, nat_eq,
  if◌then◌else◌,
}
use at_pc.Map
use at_pc.Map.{Map}
use at_pc.Time.{Instant}
use at_pc.Server.Registry.{TerminalRegistry}
use at_pc.Server.Router.{McpRouter}
use at_pc.Server.Router.Pending.{Channel, CallResult, PendingCallEntry, Calls}
use at_pc.Server.Router.Invoke.{
  Started, not_in_registry, currently_offline, not_sent, waits, generate_call_id, begin_invoke,
  give_up, cancel_tool_call, process_tool_result, handle_terminal_disconnected,
}

-- What the task still holds: the receiving half of its channel, and its terminal.
pub record Waiter : Type 0 where
  pub rx : Channel
  pub terminal_id : Str

pub record Machine (Metrics Sender Value : Type 0) : Type 0 where
  pub router : McpRouter Metrics Sender Value
  pub waiting : Map Str Waiter

-- The arms of the `match` on the outcome of the await, and `still_waiting`.
pub data Outcome (Value : Type 0) : Type 0 where
  returned : CallResult Value → Outcome Value
  closed timed_out still_waiting : Outcome Value

unfoldable pub has_sender : Channel → Map Str PendingCallEntry → Bool
has_sender rx [] = false
has_sender rx ((id, entry) ∷ m) = nat_beq entry.tx rx || has_sender rx m

abbrev pub unanswered : {Value : Type 0} → Bool → Bool → Outcome Value
unanswered false elapsed = closed
unanswered true true = timed_out
unanswered true false = still_waiting

abbrev pub answered_or :
    {Value : Type 0} → Option (CallResult Value) → Outcome Value → Outcome Value
answered_or none o = o
answered_or (some result) o = returned result

-- `timeout(…, rx).await`: an answer comes first, then a channel with no sender, then the timeout.
unfoldable pub awaited : {Value : Type 0} → Calls Value → Channel → Bool → Outcome Value
awaited c rx elapsed =
    answered_or (Map.get rx c.answers) (unanswered (has_sender rx c.pending_calls) elapsed)

pub data Event (Metrics Sender Value : Type 0) : Type 0 where
  invokes : Str → Str → ℕ → Instant → ℕ → (Sender → Bool) → Event Metrics Sender Value
  resumes : Str → Bool → (Sender → Bool) → Event Metrics Sender Value
  results : Str → Bool → Value → Option Str → Event Metrics Sender Value
  cancels : Str → (Sender → Bool) → Event Metrics Sender Value
  disconnects : Str → Str → Event Metrics Sender Value
  draws : ℕ → Event Metrics Sender Value
  registry_becomes : TerminalRegistry Metrics Sender → Event Metrics Sender Value

module _ {Metrics Sender Value : Type 0} where
  -- The task awaits, or has returned its error at once.
  abbrev pub started :
      Machine Metrics Sender Value
      → McpRouter Metrics Sender Value
      → Str
      → Started
      → Machine Metrics Sender Value
  started m r terminal_id (waits id rx) = record {
    router = r;
    waiting = Map.insert id (record { rx = rx; terminal_id = terminal_id }) m.waiting;
  }
  started m r terminal_id _ = record m { router = r }

  abbrev pub resumed :
      Machine Metrics Sender Value
      → Str
      → Waiter
      → (Sender → Bool)
      → Outcome Value
      → Machine Metrics Sender Value
  resumed m id w opened still_waiting = m
  resumed m id w opened timed_out = record {
    router = give_up m.router id w.terminal_id opened;
    waiting = Map.remove id m.waiting;
  }
  resumed m id w opened (returned result) = record m { waiting = Map.remove id m.waiting }
  resumed m id w opened closed = record m { waiting = Map.remove id m.waiting }

  abbrev pub resume :
      Machine Metrics Sender Value
      → Str
      → Option Waiter
      → Bool
      → (Sender → Bool)
      → Machine Metrics Sender Value
  resume m id none elapsed opened = m
  resume m id (some w) elapsed opened = resumed m id w opened (awaited m.router.calls w.rx elapsed)

  unfoldable pub step :
      Machine Metrics Sender Value → Event Metrics Sender Value → Machine Metrics Sender Value
  step m (invokes terminal_id tool millis now timeout opened) =
      let (r, how) = begin_invoke m.router terminal_id tool millis now timeout opened in
      started m r terminal_id how
  step m (resumes id elapsed opened) = resume m id (Map.get id m.waiting) elapsed opened
  step m (results id success result error) = record m {
    router = process_tool_result m.router id success result error;
  }
  step m (cancels id opened) = record m { router = (cancel_tool_call m.router id opened).0 }
  step m (disconnects terminal_id reason) = record m {
    router = handle_terminal_disconnected m.router terminal_id reason;
  }
  step m (draws millis) = record m { router = (generate_call_id m.router millis).0 }
  step m (registry_becomes registry) =
      let r = m.router in record m { router = record r { registry = registry } }

  unfoldable pub run :
      Machine Metrics Sender Value
      → List (Event Metrics Sender Value)
      → Machine Metrics Sender Value
  run m [] = m
  run m (e ∷ es) = run (step m e) es
