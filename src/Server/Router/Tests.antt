-- ===== src/Server/Router/Tests.antt =====
-- router.rs at concrete inputs. Metrics and channels are numbers, a JSON object is a list of texts.
use at_pc.Common.{
  ℕ, nat_eq, ◌<◌, ◌^◌, not, ◌⊎◌, ◌==◌, if◌then◌else◌, ◌≡◌, ◌≢◌, refl, Str, ascii, Bool, true, false,
  Option, none, some, List, [], ◌∷◌, ◌++◌, arith, str_eq, str_beq, decimal, length, ◌+◌,
}
use at_pc.Map
use at_pc.Map.Distinct.{Distinct}
use at_pc.Time.{from_secs}
use at_pc.Protocol.{TerminalInfo, online, viewer}
use at_pc.Protocol.Tools.{agent_tool, capture_screen, spec, read_only}
use at_pc.Server.MetaStore.{in_memory}
use at_pc.Server.Registry.{TerminalRegistry, with_store, register}
use at_pc.Server.Registry.Stale
use at_pc.Server.Registry.Stale.{registers}
use at_pc.Server.Router.{McpRouter, find_terminal}
use at_pc.Server.Registry.Views.{TerminalEntry, get_terminal}
use at_pc.Server.Router.Invoke.{call_id, begin_invoke}
use at_pc.Server.Router.Machine.{
  Machine, Waiter, Event, invokes, draws, run, step, awaited, closed, timed_out,
}
use at_pc.Server.Router.Machine.Answered.{IsNew, run-never_closed}
use at_pc.Server.Router.Dispatch.{JsonView, Request, Moment}
use at_pc.Server.Router.Dispatch.Audited.{admits, dispatch_tool_call_with_role, target_of}
use at_pc.Server.Router.Dispatch.Once.{IsAudited, left_to_write, dispatch-writes_once}
use at_pc.Server.Router.Dispatch.Harmless.{IsHarmless, dispatch-IsHarmless}

abbrev info_of : Str → TerminalInfo
info_of id = record {
  terminal_id = id;
  hostname = ascii "h";
  username = ascii "u";
  lan_ip = ascii "10.0.0.1";
  os_version = ascii "w";
  agent_version = ascii "1";
}

abbrev two : TerminalRegistry ℕ ℕ
two =
    Stale.run (with_store (from_secs 15) in_memory 1)
      (registers (info_of (ascii "a")) 7 0 1 ∷ registers (info_of (ascii "b")) 8 0 2 ∷ [])

abbrev router : McpRouter ℕ ℕ ℕ
router = record {
  registry = two;
  calls = record { pending_calls = []; next_channel = 0; answers = [] };
  active_terminal_id = none;
  session_active_terminals = [];
  call_counter = 1;
}

abbrev machine : Machine ℕ ℕ ℕ
machine = record { router = router; waiting = [] }

machine-IsNew : IsNew machine
machine-IsNew = record { nothing_pending = refl; nothing_sent = refl; nobody_waits = refl }

abbrev two_calls : List (Event ℕ ℕ ℕ)
two_calls =
    invokes (ascii "a") (ascii "exec_cmd") 5 0 30 (λ s. true)
    ∷ draws 5
    ∷ invokes (ascii "b") (ascii "exec_cmd") 5 0 30 (λ s. true)
    ∷ []

abbrev first_waiter : Waiter
first_waiter = record { rx = 0; terminal_id = ascii "a" }

first-waits : Map.get (call_id 5 1) (run machine two_calls).waiting ≡ some first_waiter
unfolding run Map.get step begin_invoke get_terminal Stale.run Stale.step register Map.insert
    str_beq decimal
first-waits = refl

counter-IsLow : machine.router.call_counter + length two_calls < 2 ^ 64
counter-IsLow = omega arith

run-never_closed_example :
    Distinct (run machine two_calls).router.calls.answers
    × ((id : Str) (w : Waiter) (elapsed : Bool)
        → Map.get id (run machine two_calls).waiting ≡ some w
        → awaited (run machine two_calls).router.calls w.rx elapsed ≢ closed)
run-never_closed_example = run-never_closed machine two_calls machine-IsNew counter-IsLow

first-unanswered : Map.get 0 (run machine two_calls).router.calls.answers ≡ none
unfolding run Map.get step begin_invoke get_terminal Stale.run Stale.step register Map.insert
    str_beq decimal
first-unanswered = refl

abbrev entry_a : TerminalEntry ℕ
entry_a = record {
  info = info_of (ascii "a");
  custom_name = none;
  notes = none;
  tags = [];
  status = online;
  latest_metrics = none;
  last_heartbeat_elapsed_secs = 0;
}

finds-a : find_terminal router (ascii " a ") 0 ≡ some entry_a
unfolding find_terminal at_pc.Common.is_empty at_pc.Common.trim at_pc.Common.is_whitespace
    get_terminal Map.get Stale.run Stale.step register Map.insert str_beq
    at_pc.Server.MetaStore.record_registration
finds-a = refl

-- An argument object with `terminal_id` and nothing else.
abbrev json : JsonView ℕ
json = record {
  as_str = λ v key. if key == ascii "terminal_id" then some (ascii "a") else none;
  as_u64 = λ v key. none;
  as_strs = λ v key. none;
}

abbrev at_start : Moment ℕ
at_start = record { now = 0; millis = 5; timestamp = 0; opened = λ s. true }

abbrev kills : Request ℕ
kills = record {
  tool_name = ascii "kill_process";
  arguments = 0;
  session_id = none;
  role = some viewer;
  client_ip = none;
  token_prefix = none;
}

dispatch-writes_once_example :
    let tid = target_of json router kills 0 in
    let d = dispatch_tool_call_with_role json router admits kills at_start 1 in
    IsAudited kills tid
      (d.written ++ left_to_write router admits kills tid at_start 2 timed_out d.outcome)
dispatch-writes_once_example =
    dispatch-writes_once json router router kills at_start at_start 1 2 timed_out

dispatch-IsHarmless_example :
    IsHarmless router
      (ascii "kill_process")
      (dispatch_tool_call_with_role json router admits kills at_start 1)
dispatch-IsHarmless_example = dispatch-IsHarmless json router admits kills at_start 1 refl

capture-IsFound : agent_tool (ascii "capture_screen") ≡ some (spec capture_screen viewer read_only)
unfolding agent_tool str_beq
capture-IsFound = refl
