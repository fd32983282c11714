-- ===== src/Server/MetaStore/Durable.antt =====
-- meta_store.rs, `run_writer`: what was handed to the writer is on the disk or will be tried again.
use at_pc.Common.{
  ℕ, ◌<◌, ◌≤◌, max, ◌≡◌, refl, Bool, true, false, Option, none, some, List, [], ◌∷◌, arith, inl,
  inr, All, ◌⊎◌,
}
use at_pc.Time.{Instant, Duration}
use at_pc.Server.MetaStore.{Snapshot}
use at_pc.Server.MetaStore.Attempts.{SomeSaved, shutdown-Tried}
use at_pc.Server.MetaStore.Writer.{
  Writer, start, newer_snapshot, Outcome, saved, unsynced, unsaved, persist_snapshot, Event,
  updates, flushes, shuts, timeouts, disconnects, on_update, write_or_keep, on_timeout, retry,
  live_step, step, run,
}

abbrev pub version_or_0 : Option Snapshot → ℕ
version_or_0 none = 0
version_or_0 (some s) = s.version

-- The newest version that is written or pending.
abbrev pub reach : Writer → ℕ
reach w = max w.persisted_version (version_or_0 w.pending)

-- The version that an event brings.
abbrev pub brought : Event → ℕ
brought (updates s now) = s.version
brought (flushes s now outcome) = s.version
brought (shuts s outcomes) = s.version
brought (timeouts now outcome) = 0
brought (disconnects outcome) = 0

abbrev pub newest : List Event → ℕ
newest [] = 0
newest (e ∷ es) = max (brought e) (newest es)

-- The events that do not end the writer.
abbrev pub GoesOn : Event → Type 0
GoesOn (shuts s outcomes) = ⊥
GoesOn (disconnects outcome) = ⊥
GoesOn _ = Unit

abbrev pub Scheduled : Option Snapshot → Option Instant → Type 0
Scheduled (some s) none = ⊥
Scheduled _ _ = Unit

-- A running writer: what is pending has a deadline, and the file is as new as is claimed.
pub record Sound (w : Writer) : Type 0 where
  pub running : w.stopped ≡ false
  pub scheduled : Scheduled w.pending w.deadline
  pub on_disk : w.persisted_version ≤ w.disk.version

pub newer_snapshot-version :
    (o : Option Snapshot) (s : Snapshot)
    → (newer_snapshot o s).version ≡ max (version_or_0 o) s.version
unfolding newer_snapshot
newer_snapshot-version none s = grind arith
newer_snapshot-version (some t) s = ground arith

le_or_lt : (a b : ℕ) → (a ≤ b) ⊎ (b < a)
le_or_lt a b = omega arith

past_both : (a b c d e : ℕ) → max a b ≤ c → max c d ≤ e → max b d ≤ e
past_both a b c d e h k = omega arith

start-Sound : (disk : Snapshot) → Sound (start disk)
unfolding start
start-Sound disk = record { running = refl; scheduled = tt; on_disk = omega arith }

-- What a snapshot of this version can rely on: it is in the file, or it waits for a known time.
abbrev pub Safe : ℕ → Writer → Type 0
Safe v w =
    (v ≤ w.persisted_version × w.persisted_version ≤ w.disk.version)
    ⊎ ((s : Snapshot) × (d : Instant) × (w.pending ≡ some s)
        × (w.deadline ≡ some d)
        × v ≤ s.version)

safe :
    (w : Writer) (v : ℕ) (o : Option Snapshot) (d : Option Instant)
    → w.pending ≡ o
    → w.deadline ≡ d
    → Sound w
    → v ≤ reach w
    → Safe v w
safe w v none d p q h u = inl (ground arith, h.on_disk)
safe w v (some s) none p q h u = absurd (ground (arith, h.scheduled))
safe w v (some s) (some d) p q h u = elim (le_or_lt v w.persisted_version) [
  | inl l ↦ inl (l, h.on_disk)
  | inr l ↦ inr (s, d, p, q, ground arith)
]

module _ (debounce : Duration) where
  update-Sound :
      (w : Writer) (s : Snapshot) (now : Instant)
      → Sound w
      → Sound (on_update debounce w s now)
        × (reach (on_update debounce w s now) ≡ max (reach w) s.version)
  unfolding on_update
  update-Sound w s now h = (
    record { running = h.running; scheduled = ground arith; on_disk = h.on_disk },
    ground (arith, newer_snapshot-version w.pending s),
  )

  -- Writing `s` leaves it written or pending, and written if it says so.
  record Kept (w : Writer) (s : Snapshot) (r : Writer × Bool) : Type 0 where
    sound : Sound r.0
    reached : max w.persisted_version s.version ≤ reach r.0
    acknowledged : r.1 ≡ true → max w.persisted_version s.version ≤ r.0.persisted_version

  write_or_keep-Kept :
      (w : Writer) (s : Snapshot) (now : Instant) (outcome : Outcome)
      → Sound w
      → Kept w s (write_or_keep debounce w s now outcome)
  unfolding write_or_keep persist_snapshot
  write_or_keep-Kept w s now saved h = record {
    sound = record {
      running = ground (arith, h.running);
      scheduled = ground arith;
      on_disk = ground (arith, h.on_disk);
    };
    reached = ground arith;
    acknowledged = ground arith;
  }
  write_or_keep-Kept w s now unsynced h = record {
    sound = record {
      running = ground (arith, h.running);
      scheduled = ground arith;
      on_disk = ground (arith, h.on_disk);
    };
    reached = ground arith;
    acknowledged = ground arith;
  }
  write_or_keep-Kept w s now unsaved h = record {
    sound = record {
      running = ground (arith, h.running);
      scheduled = ground arith;
      on_disk = ground (arith, h.on_disk);
    };
    reached = ground arith;
    acknowledged = ground arith;
  }

  write_or_keep_saved :
      (w : Writer) (s : Snapshot) (now : Instant) → (write_or_keep debounce w s now saved).1 ≡ true
  unfolding write_or_keep persist_snapshot
  write_or_keep_saved w s now = ground arith

  -- A timeout that can write leaves nothing pending.
  retry-Sound :
      (w : Writer) (o : Option Snapshot) (now : Instant) (outcome : Outcome)
      → w.pending ≡ o
      → Sound w
      → Sound (retry debounce w o now outcome)
        × (reach w ≤ reach (retry debounce w o now outcome))
        × (outcome ≡ saved → reach w ≤ (retry debounce w o now outcome).persisted_version)
  retry-Sound w none now outcome q h = (
    record {
      running = ground (arith, h.running);
      scheduled = ground arith;
      on_disk = ground (arith, h.on_disk);
    },
    ground arith,
    ground arith,
  )
  retry-Sound w (some s) now outcome q h =
      let k = write_or_keep-Kept w s now outcome h in
      (
        k.sound,
        ground (arith, k.reached),
        ground (arith, k.acknowledged, write_or_keep_saved w s now),
      )

  -- One event that does not end the writer keeps it sound and loses nothing.
  pub step-Sound :
      (w : Writer) (e : Event)
      → GoesOn e
      → Sound w
      → Sound (step debounce w e).0
        × (max (reach w) (brought e) ≤ reach (step debounce w e).0)
        × ((step debounce w e).1 ≡ some true
            → max (reach w) (brought e) ≤ (step debounce w e).0.persisted_version)
  unfolding step live_step on_timeout
  step-Sound w (updates s now) u h =
      let k = update-Sound w s now h in
      (ground (arith, h.running, k.0), ground (arith, h.running, k.1), ground (arith, h.running))
  step-Sound w (flushes s now outcome) u h =
      let k = write_or_keep-Kept w (newer_snapshot w.pending s) now outcome h in
      let v = newer_snapshot-version w.pending s in
      (
        ground (arith, h.running, k.sound),
        ground (arith, h.running, k.reached, v),
        ground (arith, h.running, k.acknowledged, v),
      )
  step-Sound w (timeouts now outcome) u h =
      let k = retry-Sound w w.pending now outcome refl h in
      (ground (arith, h.running, k.0), ground (arith, h.running, k.1), ground (arith, h.running))
  step-Sound w (shuts _ _) u h = elim u [ ]
  step-Sound w (disconnects _) u h = elim u [ ]

  pub run-Sound :
      (w : Writer) (es : List Event)
      → All GoesOn es
      → Sound w
      → Sound (run debounce w es) × (max (reach w) (newest es) ≤ reach (run debounce w es))
  unfolding run
  run-Sound w [] u h = (h, grind arith)
  run-Sound w (e ∷ es) u h =
      let k = step-Sound w e u.0 h in
      let r = run-Sound (step debounce w e).0 es u.1 k.0 in (r.0, ground (arith, k.1, r.1))

  -- Whatever commands and timeouts a writer that was not shut down has seen, and however its writes to
  -- the disk went, the newest version that it was handed is in the file, or it is pending and a deadline
  -- to write it is set.
  pub nothing_lost :
      (disk : Snapshot) (es : List Event)
      → All GoesOn es
      → Safe (newest es) (run debounce (start disk) es)
  nothing_lost disk es u =
      let k = run-Sound (start disk) es u (start-Sound disk) in
      safe _ (newest es) _ _ refl refl k.0 (grind (arith, k.1))

  flush_succeeds :
      (w : Writer) (s : Snapshot) (now : Instant) (outcome : Outcome)
      → Sound w
      → outcome ≡ saved
      → (step debounce w (flushes s now outcome)).1 ≡ some true
  unfolding step live_step
  flush_succeeds w s now saved h q =
      ground (arith, h.running, write_or_keep_saved w (newer_snapshot w.pending s) now)
  flush_succeeds w s now unsynced h q = ground arith
  flush_succeeds w s now unsaved h q = ground arith

  shutdown_reaches :
      (w : Writer) (s : Snapshot) (outcomes : ℕ → Outcome)
      → Sound w
      → let r = step debounce w (shuts s outcomes) in
        (SomeSaved 4 outcomes → r.1 ≡ some true)
        × (r.1 ≡ some true
            → max (reach w) s.version ≤ r.0.persisted_version
              × r.0.persisted_version ≤ r.0.disk.version)
  unfolding step live_step
  shutdown_reaches w s outcomes h =
      let r =
        shutdown-Tried 4 (record w { pending = none }) (newer_snapshot w.pending s) outcomes
          h.on_disk in
      (
        λ t. ground (arith, r.succeeds t, h.running),
        λ q. (
          ground (arith, h.running, r.grows, r.acknowledged, newer_snapshot-version w.pending s),
          ground (arith, h.running, r.file),
        ),
      )

  -- After any commands and timeouts, a flush that can write answers `Ok`, and a flush that answers `Ok`
  -- leaves the newest version that was ever handed over, its own included, in the file.
  pub flush_durable :
      (disk : Snapshot) (es : List Event) (s : Snapshot) (now : Instant) (outcome : Outcome)
      → All GoesOn es
      → let r = step debounce (run debounce (start disk) es) (flushes s now outcome) in
        (outcome ≡ saved → r.1 ≡ some true)
        × (r.1 ≡ some true
            → max (newest es) s.version ≤ r.0.persisted_version
              × r.0.persisted_version ≤ r.0.disk.version)
  flush_durable disk es s now outcome u =
      let k = run-Sound (start disk) es u (start-Sound disk) in
      let w = run debounce (start disk) es in
      let r = step-Sound w (flushes s now outcome) tt k.0 in
      (flush_succeeds w s now outcome k.0, λ q. (past_both _ _ _ _ _ k.1 (r.2 q), r.0.on_disk))

  -- After any commands and timeouts, a shutdown answers `Ok` if one of its four attempts can write, and
  -- if it answers `Ok` the newest version that was ever handed over, its own included, is in the file.
  pub shutdown_durable :
      (disk : Snapshot) (es : List Event) (s : Snapshot) (outcomes : ℕ → Outcome)
      → All GoesOn es
      → let r = step debounce (run debounce (start disk) es) (shuts s outcomes) in
        (SomeSaved 4 outcomes → r.1 ≡ some true)
        × (r.1 ≡ some true
            → max (newest es) s.version ≤ r.0.persisted_version
              × r.0.persisted_version ≤ r.0.disk.version)
  shutdown_durable disk es s outcomes u =
      let k = run-Sound (start disk) es u (start-Sound disk) in
      let r = shutdown_reaches (run debounce (start disk) es) s outcomes k.0 in
      (r.0, λ q. (past_both _ _ _ _ _ k.1 (r.1 q).0, (r.1 q).1))
