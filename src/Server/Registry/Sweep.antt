-- ===== src/Server/Registry/Sweep.antt =====
-- ws/registry.rs, `sweep_offline`: which sessions are marked, and what a heartbeat is worth.
use at_pc.Common.{
  ◌+◌, not, ltb, ◌≤◌, ◌≡◌, ◌≢◌, refl, Str, Bool, false, Option, none, some, [], ◌∷◌, arith, str_eq,
  any, ◌==◌, ==_iff, ==_self, ==_ne, ap, ◌∙◌, if◌then◌else◌,
}
use at_pc.Map
use at_pc.Map.{Map}
use at_pc.Map.Laws.{map_opt, get-modify}
use at_pc.Map.Distinct.{Distinct}
use at_pc.Time.{Instant, Duration}
use at_pc.Protocol.{offline, status_beq}
use at_pc.Server.Registry.{
  TerminalSession, TerminalRegistry, session_of, update_heartbeat, with_status, sweep,
  sweep_offline, beat, get_status, err, terminal_not_found,
}

module _ {Metrics Sender : Type 0} where
  -- Not offline, and the last heartbeat is longer ago than the threshold.
  abbrev pub is_late : Duration → Instant → TerminalSession Metrics Sender → Bool
  is_late threshold now s =
      if ltb (s.last_heartbeat_at + threshold) now then not (status_beq s.status offline) else false

  abbrev pub marked :
      Duration → Instant → TerminalSession Metrics Sender → TerminalSession Metrics Sender
  marked threshold now s = if is_late threshold now s then with_status offline s else s

  abbrev pub late : Duration → Instant → Option (TerminalSession Metrics Sender) → Bool
  late threshold now none = false
  late threshold now (some s) = is_late threshold now s

  pub get-sweep :
      (threshold : Duration) (now : Instant) (m : Map Str (TerminalSession Metrics Sender))
      (id : Str)
      → Map.get id (sweep threshold now m).0 ≡ map_opt (marked threshold now) (Map.get id m)
  unfolding sweep Map.get
  get-sweep threshold now [] id = refl
  get-sweep threshold now ((j, s) ∷ m) id = ground (arith, get-sweep threshold now m id)

  sweep-any :
      (threshold : Duration) (now : Instant) (m : Map Str (TerminalSession Metrics Sender))
      (id : Str)
      → Distinct m
      → any (λ j. j == id) (sweep threshold now m).1 ≡ late threshold now (Map.get id m)
  unfolding sweep Map.get any
  sweep-any threshold now [] id d = refl
  sweep-any threshold now ((j, s) ∷ m) id d =
      ground (arith, sweep-any threshold now m id d.1, ==_iff j id)

  sweep-again :
      (threshold : Duration) (now : Instant) (m : Map Str (TerminalSession Metrics Sender))
      → (sweep threshold now (sweep threshold now m).0).1 ≡ []
  unfolding sweep
  sweep-again threshold now [] = refl
  sweep-again threshold now ((j, s) ∷ m) = ground (arith, sweep-again threshold now m)

  -- With one session per terminal, a sweep reports exactly the terminals that were not offline and
  -- whose last heartbeat is longer ago than the threshold, marks exactly those offline, leaves every
  -- other session as it was, and a second sweep at the same time reports nobody.
  pub sweep_exact :
      (r : TerminalRegistry Metrics Sender) (now : Instant) (id : Str)
      → Distinct r.sessions
      → let (r', ids) = sweep_offline r now in
        (any (λ j. j == id) ids ≡ late r.offline_threshold now (session_of r id))
        × (session_of r' id ≡ map_opt (marked r.offline_threshold now) (session_of r id))
        × ((sweep_offline r' now).1 ≡ [])
  unfolding sweep_offline
  sweep_exact r now id d = (
    sweep-any r.offline_threshold now r.sessions id d,
    get-sweep r.offline_threshold now r.sessions id,
    sweep-again r.offline_threshold now r.sessions,
  )

  pub get-heartbeat :
      (r : TerminalRegistry Metrics Sender) (id j : Str) (metrics : Metrics) (at : Instant)
      → session_of (update_heartbeat r id metrics at).0 j
        ≡ (if id == j then map_opt (beat metrics at) (session_of r j) else session_of r j)
  unfolding update_heartbeat Map.contains_key
  get-heartbeat r id j metrics at =
      ground (arith, get-modify id j (beat metrics at) r.sessions, ==_iff id j)

  get-heartbeat_self :
      (r : TerminalRegistry Metrics Sender) (id : Str) (metrics : Metrics) (at : Instant)
      → session_of (update_heartbeat r id metrics at).0 id
        ≡ map_opt (beat metrics at) (session_of r id)
  get-heartbeat_self r id metrics at = ground (arith, get-heartbeat r id id metrics at, ==_self id)

  marked-beat :
      (threshold : Duration) (metrics : Metrics) (at now : Instant)
      (o : Option (TerminalSession Metrics Sender))
      → now ≤ at + threshold
      → map_opt (marked threshold now) (map_opt (beat metrics at) o) ≡ map_opt (beat metrics at) o
  marked-beat threshold metrics at now none l = refl
  marked-beat threshold metrics at now (some s) l = ground arith

  heartbeat_threshold :
      (r : TerminalRegistry Metrics Sender) (id : Str) (metrics : Metrics) (at : Instant)
      → (update_heartbeat r id metrics at).0.offline_threshold ≡ r.offline_threshold
  unfolding update_heartbeat
  heartbeat_threshold r id metrics at = ground arith

  heartbeat-sweep :
      (r : TerminalRegistry Metrics Sender) (id : Str) (metrics : Metrics) (at now : Instant)
      → now ≤ at + r.offline_threshold
      → session_of (sweep_offline (update_heartbeat r id metrics at).0 now).0 id
        ≡ map_opt (beat metrics at) (session_of r id)
  unfolding sweep_offline
  heartbeat-sweep r id metrics at now l =
      get-sweep _ now (update_heartbeat r id metrics at).0.sessions id
      ∙ ap (map_opt (marked _ now)) (get-heartbeat_self r id metrics at)
      ∙ marked-beat _ metrics at now (session_of r id) (rw (heartbeat_threshold r id metrics at) l)

  heartbeat-status :
      (r : TerminalRegistry Metrics Sender) (id : Str) (metrics : Metrics) (at : Instant)
      → get_status (update_heartbeat r id metrics at).0 id ≢ some offline
  unfolding get_status
  heartbeat-status r id metrics at = ground (arith, get-heartbeat_self r id metrics at)

  heartbeat-unknown :
      (r : TerminalRegistry Metrics Sender) (id : Str) (metrics : Metrics) (at : Instant)
      → session_of r id ≡ none
      → ((update_heartbeat r id metrics at).0 ≡ r)
        × ((update_heartbeat r id metrics at).1 ≡ err terminal_not_found)
  unfolding update_heartbeat Map.contains_key
  heartbeat-unknown r id metrics at h = ground arith

  -- After a heartbeat of a known terminal, its session has the metrics, is not offline, and is left as
  -- it is by every sweep until the threshold has passed; the other sessions are those from before. An
  -- unknown terminal gets an error, and nothing changes.
  pub heartbeat_lasts :
      (r : TerminalRegistry Metrics Sender) (id j : Str) (metrics : Metrics) (at now : Instant)
      → now ≤ at + r.offline_threshold
      → let (r', answer) = update_heartbeat r id metrics at in
        (session_of (sweep_offline r' now).0 id ≡ map_opt (beat metrics at) (session_of r id))
        × (get_status r' id ≢ some offline)
        × (id ≢ j → session_of r' j ≡ session_of r j)
        × (session_of r id ≡ none → (r' ≡ r) × (answer ≡ err terminal_not_found))
  heartbeat_lasts r id j metrics at now l = (
    heartbeat-sweep r id metrics at now l,
    heartbeat-status r id metrics at,
    λ ne. ground (arith, get-heartbeat r id j metrics at, ==_ne id j ne),
    heartbeat-unknown r id metrics at,
  )
