-- ===== src/Server/Ws/Cleanup.antt =====
-- ws/handler.rs: what the end of a connection does to the calls and to the status of its terminal.
use at_pc.Common.{
  ◌≡◌, ◌≢◌, refl, ap, ◌∙◌, Str, ascii, true, false, Option, none, some, List, [], ◌∷◌, arith, inl,
  inr, ◌⊎◌, Option-cases, Bool-cases, any, if◌then◌else◌, ◌==◌, ==_iff, ==_self, str_eq, nat_eq,
}
use at_pc.Map
use at_pc.Map.{Map}
use at_pc.Map.Laws.{get-insert, get-modify, get-remove}
use at_pc.Protocol.{TerminalInfo, offline, online}
use at_pc.Server.Registry
use at_pc.Server.Router.{McpRouter}
use at_pc.Server.Router.Pending.{
  Channel, CallResult, err, disconnected, target_keys, PendingCallEntry, Calls, drop_call,
  answer_call, answer_all, send, abort_pending_calls_for_terminal,
}
use at_pc.Server.Router.Invoke.{handle_terminal_disconnected}
use at_pc.Server.Ws.Handler.{
  Connection, cleanup, Input, elsewhere, frame, read_loop, handle_frame, handle_agent_message,
  breaks, Stamp, text, close,
}
use at_pc.Protocol.Messages.{register}

module _ {Value : Type 0} where
  pending-send :
      (c : Calls Value) (o : Option PendingCallEntry) (result : CallResult Value)
      → (send c o result).pending_calls ≡ c.pending_calls
  pending-send c none result = refl
  pending-send c (some entry) result = refl

  pending-answer :
      (c : Calls Value) (id : Str) (result : CallResult Value)
      → (answer_call c id result).pending_calls ≡ Map.remove id c.pending_calls
  unfolding answer_call drop_call
  pending-answer c id result = pending-send _ (Map.get id c.pending_calls) result

  -- Which calls are left when all of a list were answered.
  pending-answer_all :
      (c : Calls Value) (ids : List Str) (result : CallResult Value) (j : Str)
      → Map.get j (answer_all c ids result).pending_calls
        ≡ (if any (λ id. id == j) ids then none else Map.get j c.pending_calls)
  unfolding answer_all any
  pending-answer_all c [] result j = refl
  pending-answer_all c (id ∷ ids) result j =
      pending-answer_all (answer_call c id result) ids result j
      ∙ ground (arith, pending-answer c id result, get-remove id j c.pending_calls)

-- The calls of a terminal are among its keys.
any-target_keys :
    (tid j : Str) (m : Map Str PendingCallEntry) (entry : PendingCallEntry)
    → Map.get j m ≡ some entry
    → entry.terminal_id ≡ tid
    → any (λ id. id == j) (target_keys tid m) ≡ true
unfolding target_keys any Map.get
any-target_keys tid j [] entry h e = absurd (ground arith)
any-target_keys tid j ((id, x) ∷ m) entry h e = elim (Bool-cases (id == j)) [
  | inl same ↦ ground (arith, h, e, same, ==_self x.terminal_id)
  | inr other ↦ ground (arith, any-target_keys tid j m entry (ground (arith, h, other)) e, other)
]

module _ {Value : Type 0} where
  answer-answered :
      (c : Calls Value) (id : Str) (result : CallResult Value) (t : Channel)
      → Map.get t c.answers ≡ some result
      → Map.get t (answer_call c id result).answers ≡ some result
  unfolding answer_call drop_call Map.get
  answer-answered c id result t h = elim (Option-cases (Map.get id c.pending_calls)) [
    | inl e ↦ rw (e, answer_call) h
    | inr (entry, e) ↦ rw (e, answer_call) (ground (arith, h))
  ]

  answer_all-answered :
      (c : Calls Value) (ids : List Str) (result : CallResult Value) (t : Channel)
      → Map.get t c.answers ≡ some result
      → Map.get t (answer_all c ids result).answers ≡ some result
  unfolding answer_all
  answer_all-answered c [] result t h = h
  answer_all-answered c (id ∷ ids) result t h =
      answer_all-answered (answer_call c id result) ids result t (answer-answered c id result t h)

  answer-answers :
      (c : Calls Value) (id : Str) (result : CallResult Value) (entry : PendingCallEntry)
      → Map.get id c.pending_calls ≡ some entry
      → Map.get entry.tx (answer_call c id result).answers ≡ some result
  unfolding answer_call Map.get
  answer-answers c id result entry h = rw (h, answer_call) (ground (arith, ==_self entry.tx))

  -- Each pending call of the list is answered through its channel.
  answer_all-answers :
      (c : Calls Value) (ids : List Str) (result : CallResult Value) (j : Str)
      (entry : PendingCallEntry)
      → any (λ id. id == j) ids ≡ true
      → Map.get j c.pending_calls ≡ some entry
      → Map.get entry.tx (answer_all c ids result).answers ≡ some result
  unfolding answer_all any
  answer_all-answers c [] result j entry h p = absurd (cc)
  answer_all-answers c (id ∷ ids) result j entry h p = elim (Bool-cases (id == j)) [
    | inl same ↦
        answer_all-answered (answer_call c id result) ids result entry.tx
          (answer-answers c id result entry (ground (arith, p, (==_iff id j).0 same)))
    | inr other ↦
        answer_all-answers (answer_call c id result) ids result j entry (ground (arith, h, other))
          (ground (arith, pending-answer c id result, get-remove id j c.pending_calls, p, other))
  ]

abbrev pub reason : Str
reason = ascii "WebSocket connection closed"

-- The call, if there is one, is not on the terminal.
abbrev pub NotOn : Str → Option PendingCallEntry → Type 0
NotOn terminal_id none = Unit
NotOn terminal_id (some entry) = entry.terminal_id ≢ terminal_id

module _ {Metrics Sender Value : Type 0} (r : McpRouter Metrics Sender Value)
    (c : Connection Sender) where
  -- Whether or not the connection is the current one of its terminal: once it has ended no call is
  -- pending on the terminal, and each that was is answered as disconnected.
  pub cleanup_aborts :
      (id : Str) (entry : PendingCallEntry)
      → Map.get id r.calls.pending_calls ≡ some entry
      → entry.terminal_id ≡ c.terminal_id
      → (Map.get id (cleanup r c).calls.pending_calls ≡ none)
        × (Map.get entry.tx (cleanup r c).calls.answers
            ≡ some (err (disconnected c.terminal_id reason)))
  unfolding cleanup handle_terminal_disconnected abort_pending_calls_for_terminal
  cleanup_aborts id entry h e =
      let keys = target_keys c.terminal_id r.calls.pending_calls in
      let result : CallResult Value = err (disconnected c.terminal_id reason) in
      let own = any-target_keys c.terminal_id id r.calls.pending_calls entry h e in
      (
        ground (arith, pending-answer_all r.calls keys result id, own),
        answer_all-answers r.calls keys result id entry own h,
      )

  cleanup_stale :
      Registry.is_current (Registry.session_of r.registry c.terminal_id) c.session_id ≡ false
      → (cleanup r c).registry ≡ r.registry
  unfolding cleanup handle_terminal_disconnected Registry.set_status_if_current
  cleanup_stale h = ground (arith, h)

  -- When a connection ends while the current session of its terminal has another number, because a newer
  -- connection has replaced it or its agent has registered again, and the terminal is online: the registry
  -- and with it the terminal stay as they are, but every call that is pending on the terminal is taken out
  -- and answered as disconnected.
  pub replaced_close_aborts :
      (id : Str) (entry : PendingCallEntry) (x : Registry.TerminalSession Metrics Sender)
      → Registry.session_of r.registry c.terminal_id ≡ some x
      → x.session_id ≢ c.session_id
      → Registry.get_status r.registry c.terminal_id ≡ some online
      → Map.get id r.calls.pending_calls ≡ some entry
      → entry.terminal_id ≡ c.terminal_id
      → ((cleanup r c).registry ≡ r.registry)
        × (Registry.get_status (cleanup r c).registry c.terminal_id ≡ some online)
        × (Map.get id (cleanup r c).calls.pending_calls ≡ none)
        × (Map.get entry.tx (cleanup r c).calls.answers
            ≡ some (err (disconnected c.terminal_id reason)))
  replaced_close_aborts id entry x there newer live h e =
      let (gone, answered) = cleanup_aborts id entry h e in
      let same = cleanup_stale (rw there (ground (arith, newer))) in
      (
        same,
        ap (λ registry. Registry.get_status registry c.terminal_id) same ∙ live,
        gone,
        answered,
      )

  cleanup_left :
      (id : Str) (entry : PendingCallEntry)
      → Map.get id (cleanup r c).calls.pending_calls ≡ some entry
      → entry.terminal_id ≢ c.terminal_id
  unfolding cleanup handle_terminal_disconnected abort_pending_calls_for_terminal
  cleanup_left id entry h e =
      let keys = target_keys c.terminal_id r.calls.pending_calls in
      let result : CallResult Value = err (disconnected c.terminal_id reason) in
      elim (Bool-cases (any (λ k. k == id) keys)) [
        | inl own ↦ ground (arith, pending-answer_all r.calls keys result id, own, h)
        | inr other ↦
            let before : Map.get id r.calls.pending_calls ≡ some entry =
              ground (arith, pending-answer_all r.calls keys result id, other, h) in
            ground
              (arith, any-target_keys c.terminal_id id r.calls.pending_calls entry before e, other)
      ]

  left-NotOn :
      (id : Str) (o : Option PendingCallEntry)
      → Map.get id (cleanup r c).calls.pending_calls ≡ o
      → NotOn c.terminal_id o
  left-NotOn id none h = tt
  left-NotOn id (some entry) h = cleanup_left id entry h

  cleanup_current :
      Registry.is_current (Registry.session_of (cleanup r c).registry c.terminal_id) c.session_id
        ≡ true
      → Registry.get_status (cleanup r c).registry c.terminal_id ≡ some offline
  unfolding cleanup handle_terminal_disconnected Registry.set_status_if_current Registry.get_status
  cleanup_current h = elim (Option-cases (Registry.session_of r.registry c.terminal_id)) [
    | inl e ↦ absurd (ground (arith, e, h))
    | inr (x, e) ↦ ground (
      arith,
      e,
      h,
      ==_self c.terminal_id,
      get-modify c.terminal_id c.terminal_id (Registry.with_status offline) r.registry.sessions,
    )
  ]

module _ {Int Metrics Sender Value : Type 0} (c : Connection Sender) where
  read_loop-ended :
      (r r' : McpRouter Metrics Sender Value) (inputs : List (Input Int Metrics Sender Value))
      → read_loop r c inputs ≡ (r', true)
      → (s : McpRouter Metrics Sender Value) × (r' ≡ cleanup s c)
  unfolding read_loop
  read_loop-ended r r' [] h = absurd (ground (arith, h))
  read_loop-ended r r' (elsewhere change ∷ inputs) h = read_loop-ended (change r) r' inputs h
  read_loop-ended r r' (frame at f ∷ inputs) h = elim (Bool-cases (breaks f)) [
    | inl e ↦ (r, ground (arith, e, h))
    | inr e ↦ read_loop-ended (handle_frame r c at f) r' inputs (ground (arith, e, h))
  ]

  -- A connection that has ended, whatever frames came and whatever other tasks did in between, leaves
  -- no call pending on its terminal, and the terminal offline, unless the terminal is gone or the number
  -- of its current session is not the connection's: another connection has replaced it, or its own agent
  -- has registered again.
  pub ended_clean :
      (r r' : McpRouter Metrics Sender Value) (inputs : List (Input Int Metrics Sender Value))
      (id : Str)
      → read_loop r c inputs ≡ (r', true)
      → NotOn c.terminal_id (Map.get id r'.calls.pending_calls)
        × ((Registry.is_current (Registry.session_of r'.registry c.terminal_id) c.session_id
              ≡ false)
            ⊎ (Registry.get_status r'.registry c.terminal_id ≡ some offline))
  ended_clean r r' inputs id h =
      let (s, e) = read_loop-ended r r' inputs h in
      (
        rw e (left-NotOn s c id _ refl),
        elim (Bool-cases
            (Registry.is_current (Registry.session_of r'.registry c.terminal_id) c.session_id)) [
              | inr other ↦ inl other
              | inl current ↦ inr (rw e (cleanup_current s c (rw e at current)))
            ],
      )

-- A connection whose agent registers again and that is then closed, with nothing in between, does not
-- find its own session at its end, since it keeps the number of its first registration: the terminal is
-- online although the connection has ended. (The counter has not come round to that number.)
pub reregistered_stays_online :
    {Int Metrics Sender Value : Type 0} (r : McpRouter Metrics Sender Value) (c : Connection Sender)
    (at at' : Stamp Int) (info : TerminalInfo) (auth_token : Option Str)
    → info.terminal_id ≡ c.terminal_id
    → r.registry.session_seq ≢ c.session_id
    → let inputs : List (Input Int Metrics Sender Value) =
        frame at (text (some (register info auth_token))) ∷ frame at' close ∷ [] in
      ((read_loop r c inputs).1 ≡ true)
      × (Registry.get_status (read_loop r c inputs).0.registry c.terminal_id ≡ some online)
unfolding read_loop handle_frame handle_agent_message cleanup handle_terminal_disconnected
    Registry.register Registry.get_status Registry.set_status_if_current
reregistered_stays_online r c at at' info auth_token same fresh = (
  refl,
  ground (
    arith,
    same,
    fresh,
    ==_iff info.terminal_id c.terminal_id,
    get-insert info.terminal_id c.terminal_id
        (Registry.new_session r.registry.session_seq info c.sender at.now) r.registry.sessions,
  ),
)
