-- ===== src/Server/MetaStore/Writer.antt =====
-- meta_store.rs, `run_writer`: the one thread that writes snapshots to disk. Each event is one round of
-- its loop: a command, a timeout of the deadline, or the end of the channel. The outcome of every
-- attempt to write the file (`atomic_write`) is part of the event. The loop that drains a burst at once
-- takes the same steps: while a snapshot is pending there is a deadline already.
use at_pc.Common.{
  ℕ, zero, suc, ◌+◌, Bool, true, false, Option, none, some, List, [], ◌∷◌, leb, ltb, if◌then◌else◌,
}
use at_pc.Time.{Instant, Duration}
use at_pc.Server.MetaStore.{Snapshot}

pub record Writer : Type 0 where
  pub pending : Option Snapshot
  pub deadline : Option Instant
  pub persisted_version : ℕ
  pub disk : Snapshot
  pub stopped : Bool

unfoldable pub start : Snapshot → Writer
start disk = record {
  pending = none;
  deadline = none;
  persisted_version = 0;
  disk = disk;
  stopped = false;
}

unfoldable pub newer_snapshot : Option Snapshot → Snapshot → Snapshot
newer_snapshot none candidate = candidate
newer_snapshot (some current) candidate =
    if ltb candidate.version current.version then current else candidate

-- `atomic_write`: all went well, the file was replaced but its directory not synced, or the old file stays.
pub data Outcome : Type 0 where
  saved unsynced unsaved : Outcome

abbrev pub attempt : Writer → Snapshot → Outcome → Writer × Bool
attempt w s saved = (record w { persisted_version = s.version; disk = s }, true)
attempt w s unsynced = (record w { disk = s }, false)
attempt w s unsaved = (w, false)

-- An old snapshot counts as written. The result says whether it is `Ok`.
unfoldable pub persist_snapshot : Writer → Snapshot → Outcome → Writer × Bool
persist_snapshot w s outcome =
    if leb s.version w.persisted_version then (w, true) else attempt w s outcome

abbrev pub shutdown_attempts : ℕ
shutdown_attempts = 4

-- The attempts that are left, and the outcomes of the coming ones.
unfoldable pub persist_for_shutdown : ℕ → Writer → Snapshot → (ℕ → Outcome) → Writer × Bool
persist_for_shutdown zero w s outcome = (w, false)
persist_for_shutdown (suc n) w s outcome =
    let (w', done) = persist_snapshot w s (outcome n) in
    let again = persist_for_shutdown n w' s outcome in if done then (w', true) else again

pub data Event : Type 0 where
  updates : Snapshot → Instant → Event
  flushes : Snapshot → Instant → Outcome → Event
  shuts : Snapshot → (ℕ → Outcome) → Event
  timeouts : Instant → Outcome → Event
  disconnects : Outcome → Event

abbrev pub deadline_or : Option Instant → Instant → Instant
deadline_or none new = new
deadline_or (some d) new = d

-- The reply of a flush or a shutdown; `none` where there is nobody to answer.
abbrev pub Reply : Type 0
Reply = Option Bool

module _ (debounce : Duration) where
  unfoldable pub on_update : Writer → Snapshot → Instant → Writer
  on_update w s now = record w {
    pending = some (newer_snapshot w.pending s);
    deadline = some (deadline_or w.deadline (now + debounce));
  }

  -- Write `s`; what could not be outcome stays pending, with a new deadline.
  unfoldable pub write_or_keep : Writer → Snapshot → Instant → Outcome → Writer × Bool
  write_or_keep w s now outcome =
      let (w', done) = persist_snapshot (record w { pending = none }) s outcome in
      if done
      then (record w' { deadline = none }, true)
      else (record w' { pending = some s; deadline = some (now + debounce) }, false)

  abbrev pub retry : Writer → Option Snapshot → Instant → Outcome → Writer
  retry w none now outcome = record w { deadline = none }
  retry w (some s) now outcome = (write_or_keep w s now outcome).0

  unfoldable pub on_timeout : Writer → Instant → Outcome → Writer
  on_timeout w now outcome = retry w w.pending now outcome

  abbrev pub last_write : Writer → Option Instant → Option Snapshot → Outcome → Writer
  last_write w (some d) (some s) outcome =
      (persist_snapshot (record w { pending = none }) s outcome).0
  last_write w _ _ outcome = w

  -- With a deadline, what is pending is tried once; without one, nothing is pending.
  unfoldable pub on_disconnect : Writer → Outcome → Writer
  on_disconnect w outcome = record (last_write w w.deadline w.pending outcome) { stopped = true }

  unfoldable pub live_step : Writer → Event → Writer × Reply
  live_step w (updates s now) = (on_update w s now, none)
  live_step w (flushes s now outcome) =
      let (w', done) = write_or_keep w (newer_snapshot w.pending s) now outcome in (w', some done)
  live_step w (shuts s outcome) =
      let (w', done) =
        persist_for_shutdown shutdown_attempts (record w { pending = none })
          (newer_snapshot w.pending s) outcome in
      (record w' { stopped = true }, some done)
  live_step w (timeouts now outcome) = (on_timeout w now outcome, none)
  live_step w (disconnects outcome) = (on_disconnect w outcome, none)

  -- A stopped writer does nothing more.
  unfoldable pub step : Writer → Event → Writer × Reply
  step w e = if w.stopped then (w, none) else live_step w e

  unfoldable pub run : Writer → List Event → Writer
  run w [] = w
  run w (e ∷ es) = run (step w e).0 es
