-- ===== src/Server/Registry.antt =====
-- crates/server/src/ws/registry.rs: the sessions of the terminals. A write lock guards the sessions, so
-- each operation runs at once; `Instant::now()` is an argument, and so is the answer of the channel
-- (`sender.send(msg).is_err()`). The strings of the errors are one constructor each.
pub mod Views
pub mod Stale
pub mod Sweep
pub mod Invariant
pub mod Tests
use at_pc.Common.{
  ℕ, ◌+◌, ◌%◌, ◌^◌, Str, Bool, true, false, ◌&&◌, ◌||◌, not, Option, none, some, List, [], ◌∷◌, ltb,
  nat_beq, str_eq, if◌then◌else◌,
}
use at_pc.Map
use at_pc.Map.{Map}
use at_pc.Time.{Instant, Duration, duration_since}
use at_pc.Protocol.{TerminalInfo, TerminalStatus, online, offline, busy, status_beq}
use at_pc.Server.MetaStore
use at_pc.Server.MetaStore.{TerminalMeta, MetaStore, record_registration}

-- `Metrics` are those of a heartbeat, and `Sender` is the channel to the agent.
pub record TerminalSession (Metrics Sender : Type 0) : Type 0 where
  pub session_id : ℕ
  pub info : TerminalInfo
  pub status : TerminalStatus
  pub latest_metrics : Option Metrics
  pub last_heartbeat_at : Instant
  pub ws_sender : Sender

-- `session_seq` is the static counter `SESSION_SEQ`.
pub record TerminalRegistry (Metrics Sender : Type 0) : Type 0 where
  pub sessions : Map Str (TerminalSession Metrics Sender)
  pub meta_store : MetaStore
  pub offline_threshold : Duration
  pub session_seq : ℕ

pub data RegistryError : Type 0 where
  terminal_not_found not_connected send_failed : RegistryError

-- `Result<(), String>`
pub data RegistryResult : Type 0 where
  ok : RegistryResult
  err : RegistryError → RegistryResult

abbrev pub is_some {ℓ} : {A : Type ℓ} → Option A → Bool
is_some none = false
is_some (some a) = true

module _ {Metrics Sender : Type 0} where
  -- The counter is that of the process.
  abbrev pub with_store : Duration → MetaStore → ℕ → TerminalRegistry Metrics Sender
  with_store offline_threshold meta_store session_seq = record {
    sessions = [];
    meta_store = meta_store;
    offline_threshold = offline_threshold;
    session_seq = session_seq;
  }

  abbrev pub session_of :
      TerminalRegistry Metrics Sender → Str → Option (TerminalSession Metrics Sender)
  session_of r id = Map.get id r.sessions

  -- `if let Some(session) = sessions.get_mut(id) { … }`
  abbrev pub change :
      TerminalRegistry Metrics Sender
      → Str
      → (TerminalSession Metrics Sender → TerminalSession Metrics Sender)
      → TerminalRegistry Metrics Sender
  change r id f = record r { sessions = Map.modify id f r.sessions }

  abbrev pub new_session : ℕ → TerminalInfo → Sender → Instant → TerminalSession Metrics Sender
  new_session session_id info ws_sender now = record {
    session_id = session_id;
    info = info;
    status = online;
    latest_metrics = none;
    last_heartbeat_at = now;
    ws_sender = ws_sender;
  }

  -- `fetch_add` on u64 wraps around.
  unfoldable pub register :
      TerminalRegistry Metrics Sender
      → TerminalInfo
      → Sender
      → Instant
      → ℕ
      → TerminalRegistry Metrics Sender × ℕ
  register r info ws_sender now wall_clock = (
    record r {
      meta_store = (record_registration r.meta_store info wall_clock).0;
      session_seq = (r.session_seq + 1) % 2 ^ 64;
      sessions =
          Map.insert info.terminal_id (new_session r.session_seq info ws_sender now) r.sessions;
    },
    r.session_seq,
  )

  unfoldable pub unregister :
      TerminalRegistry Metrics Sender
      → Str
      → TerminalRegistry Metrics Sender × Option (TerminalSession Metrics Sender)
  unregister r id = (
    record r {
      sessions = Map.remove id r.sessions;
      meta_store = (MetaStore.remove r.meta_store id).0;
    },
    session_of r id,
  )

  abbrev pub beat :
      Metrics → Instant → TerminalSession Metrics Sender → TerminalSession Metrics Sender
  beat metrics now s = record s {
    latest_metrics = some metrics;
    last_heartbeat_at = now;
    status = if status_beq s.status offline then online else s.status;
  }

  unfoldable pub update_heartbeat :
      TerminalRegistry Metrics Sender
      → Str
      → Metrics
      → Instant
      → TerminalRegistry Metrics Sender × RegistryResult
  update_heartbeat r id metrics now =
      if Map.contains_key id r.sessions
      then (change r id (beat metrics now), ok)
      else (r, err terminal_not_found)

  abbrev pub with_status :
      TerminalStatus → TerminalSession Metrics Sender → TerminalSession Metrics Sender
  with_status status s = record s { status = status }

  unfoldable pub get_status : TerminalRegistry Metrics Sender → Str → Option TerminalStatus
  get_status r id = elim (session_of r id) [ none ↦ none | some s ↦ some s.status ]

  unfoldable pub set_status :
      TerminalRegistry Metrics Sender
      → Str
      → TerminalStatus
      → TerminalRegistry Metrics Sender × Bool
  set_status r id status =
      if Map.contains_key id r.sessions
      then (change r id (with_status status), true)
      else (r, false)

  abbrev pub is_current : Option (TerminalSession Metrics Sender) → ℕ → Bool
  is_current none session_id = false
  is_current (some s) session_id = nat_beq s.session_id session_id

  unfoldable pub set_status_if_current :
      TerminalRegistry Metrics Sender
      → Str
      → ℕ
      → TerminalStatus
      → TerminalRegistry Metrics Sender × Bool
  set_status_if_current r id session_id status =
      if is_current (session_of r id) session_id
      then (change r id (with_status status), true)
      else (r, false)

  unfoldable pub get_sender : TerminalRegistry Metrics Sender → Str → Option Sender
  get_sender r id = elim (session_of r id) [ none ↦ none | some s ↦ some s.ws_sender ]

  unfoldable pub sent_over :
      TerminalRegistry Metrics Sender
      → Str
      → (Sender → Bool)
      → Option Sender
      → TerminalRegistry Metrics Sender × RegistryResult
  unfolding set_status
  sent_over r id sends none = (r, err not_connected)
  sent_over r id sends (some sender) =
      if sends sender then (r, ok) else ((set_status r id offline).0, err send_failed)

  -- `sends` says on which channels the message can be sent.
  unfoldable pub send_to_terminal :
      TerminalRegistry Metrics Sender
      → Str
      → (Sender → Bool)
      → TerminalRegistry Metrics Sender × RegistryResult
  unfolding get_sender sent_over
  send_to_terminal r id sends = sent_over r id sends (get_sender r id)

  unfoldable pub remove_terminal :
      TerminalRegistry Metrics Sender → Str → TerminalRegistry Metrics Sender × Bool
  unfolding unregister
  remove_terminal r id =
      let (r', removed) = unregister r id in
      let (store, meta_removed, snapshot) = MetaStore.remove r'.meta_store id in
      (record r' { meta_store = store }, is_some removed || meta_removed)

  unfoldable pub update_terminal_meta :
      TerminalRegistry Metrics Sender
      → Str
      → Option Str
      → Option Str
      → Option (List Str)
      → ℕ
      → TerminalRegistry Metrics Sender × TerminalMeta
  update_terminal_meta r id custom_name notes tags now =
      let (store, meta, snapshot) =
        MetaStore.update_meta r.meta_store id custom_name notes tags now in
      (record r { meta_store = store }, meta)

  abbrev pub timed_out : Duration → Instant → TerminalSession Metrics Sender → Bool
  timed_out threshold now s =
      not (status_beq s.status offline) && ltb threshold (duration_since now s.last_heartbeat_at)

  unfoldable pub sweep :
      Duration
      → Instant
      → Map Str (TerminalSession Metrics Sender)
      → Map Str (TerminalSession Metrics Sender) × List Str
  sweep threshold now [] = ([], [])
  sweep threshold now ((id, s) ∷ m) =
      let (m', ids) = sweep threshold now m in
      if timed_out threshold now s
      then ((id, with_status offline s) ∷ m', id ∷ ids)
      else ((id, s) ∷ m', ids)

  unfoldable pub sweep_offline :
      TerminalRegistry Metrics Sender → Instant → TerminalRegistry Metrics Sender × List Str
  unfolding sweep
  sweep_offline r now =
      let (sessions, ids) = sweep r.offline_threshold now r.sessions in
      (record r { sessions = sessions }, ids)
