-- ===== src/Server/MetaStore/Tests.antt =====
-- meta_store.rs: the store and its writer at concrete inputs.
use at_pc.Common.{
  any, is_empty, trim, is_whitespace, str_beq, ℕ, ◌≡◌, refl, ascii, none, some, List, [], ◌∷◌, All,
}
use at_pc.Protocol.{TerminalInfo}
use at_pc.Server.MetaStore.{Snapshot, in_memory, clean_tags}
use at_pc.Server.MetaStore.Writer.{start, unsynced, unsaved, Event, updates, flushes, timeouts, run}
use at_pc.Server.MetaStore.Durable.{GoesOn, Safe, nothing_lost}
use at_pc.Server.MetaStore.Tags.{
  TagsClean, registers, updates as updates_meta, removes, run-TagsClean, run as run_ops,
}

abbrev snapshot : ℕ → Snapshot
snapshot v = record { records = []; version = v }

-- The first write fails, and the directory is not synced at the second.
abbrev events : List Event
events =
    updates (snapshot 1) 0
    ∷ updates (snapshot 3) 100
    ∷ timeouts 500 unsaved
    ∷ flushes (snapshot 2) 700 unsynced
    ∷ []

events_run_on : All GoesOn events
events_run_on = (tt, (tt, (tt, (tt, tt))))

abbrev info : TerminalInfo
info = record {
  terminal_id = ascii "a";
  hostname = ascii "h";
  username = ascii "u";
  lan_ip = ascii "10.0.0.1";
  os_version = ascii "w";
  agent_version = ascii "1";
}

clean_tags_example :
    clean_tags [] (ascii " x" ∷ ascii "y " ∷ ascii "x" ∷ ascii "  " ∷ [])
    ≡ ascii "x" ∷ ascii "y" ∷ []
unfolding clean_tags is_empty trim is_whitespace any str_beq
clean_tags_example = refl

run-TagsClean_example : TagsClean (
    run_ops in_memory (
      registers info 1
      ∷ updates_meta (ascii "a") none none (some (ascii " x" ∷ ascii "x " ∷ [])) 2
      ∷ removes (ascii "b")
      ∷ []))
run-TagsClean_example = run-TagsClean (
    registers info 1
    ∷ updates_meta (ascii "a") none none (some (ascii " x" ∷ ascii "x " ∷ [])) 2
    ∷ removes (ascii "b")
    ∷ [])

nothing_lost_example : Safe 3 (run 500 (start (snapshot 0)) events)
nothing_lost_example = nothing_lost 500 (snapshot 0) events events_run_on
