-- ===== src/Server/Router/Pending.antt =====
-- router.rs, the map of pending tool calls. A `oneshot` channel is a number, drawn in order; `answers`
-- lists what was sent through the channels. The sending half of a channel is in the pending entry, and
-- leaves it when the entry is taken out of the map.
use at_pc.Common.{
  ℕ, suc, Str, Bool, true, false, Option, none, some, List, [], ◌∷◌, ◌==◌, str_eq, if◌then◌else◌,
}
use at_pc.Map
use at_pc.Map.{Map}
use at_pc.Time.{Instant}

abbrev pub Channel : Type 0
Channel = ℕ

-- The reason in the text of an `Err`.
pub data CallError : Type 0 where
  failed_on_agent cancelled : Str → CallError
  disconnected : Str → Str → CallError

-- `Result<Value, String>`
pub data CallResult (Value : Type 0) : Type 0 where
  ok : Value → CallResult Value
  err : CallError → CallResult Value

pub record PendingCallEntry : Type 0 where
  pub terminal_id : Str
  pub tool_name : Str
  pub start_time : Instant
  pub timeout_secs : ℕ
  pub tx : Channel

abbrev pub new_entry : Str → Str → Instant → ℕ → Channel → PendingCallEntry
new_entry terminal_id tool_name now timeout_secs tx = record {
  terminal_id = terminal_id;
  tool_name = tool_name;
  start_time = now;
  timeout_secs = timeout_secs;
  tx = tx;
}

pub record Calls (Value : Type 0) : Type 0 where
  pub pending_calls : Map Str PendingCallEntry
  pub next_channel : Channel
  pub answers : Map Channel (CallResult Value)

-- The ids of the calls on one terminal.
unfoldable pub target_keys : Str → Map Str PendingCallEntry → List Str
target_keys terminal_id [] = []
target_keys terminal_id ((id, entry) ∷ m) =
    let rest = target_keys terminal_id m in
    if entry.terminal_id == terminal_id then id ∷ rest else rest

abbrev pub reason_or : Option Str → Str → Str
reason_or none default = default
reason_or (some reason) default = reason

module _ {Value : Type 0} where
  -- `oneshot::channel()` and the insertion of its sending half
  unfoldable pub add_call : Calls Value → Str → Str → Str → Instant → ℕ → Calls Value × Channel
  add_call c call_id terminal_id tool_name now timeout_secs =
      let entry = new_entry terminal_id tool_name now timeout_secs c.next_channel in
      (
        record c {
          pending_calls = Map.insert call_id entry c.pending_calls;
          next_channel = suc c.next_channel;
        },
        c.next_channel,
      )

  -- `pending.remove(call_id)`, with nothing sent
  unfoldable pub drop_call : Calls Value → Str → Calls Value
  drop_call c call_id = record c { pending_calls = Map.remove call_id c.pending_calls }

  -- An answer through the channel of an entry that was found.
  abbrev pub send : Calls Value → Option PendingCallEntry → CallResult Value → Calls Value
  send c none result = c
  send c (some entry) result = record c { answers = (entry.tx, result) ∷ c.answers }

  -- `if let Some(entry) = pending.remove(call_id) { entry.tx.send(result) }`
  unfoldable pub answer_call : Calls Value → Str → CallResult Value → Calls Value
  unfolding drop_call
  answer_call c call_id result = send (drop_call c call_id) (Map.get call_id c.pending_calls) result

  unfoldable pub answer_all : Calls Value → List Str → CallResult Value → Calls Value
  unfolding answer_call
  answer_all c [] result = c
  answer_all c (id ∷ ids) result = answer_all (answer_call c id result) ids result

  unfoldable pub abort_pending_calls_for_terminal : Calls Value → Str → Str → Calls Value
  unfolding target_keys answer_all
  abort_pending_calls_for_terminal c terminal_id reason =
      answer_all c (target_keys terminal_id c.pending_calls) (err (disconnected terminal_id reason))

  abbrev pub tool_result : Bool → Value → Option Str → Str → CallResult Value
  tool_result true result error default = ok result
  tool_result false result error default = err (failed_on_agent (reason_or error default))
