-- ===== src/Server/Registry/Tests.antt =====
-- ws/registry.rs: the registry at concrete inputs. Metrics and channels are numbers.
use at_pc.Common.{
  ℕ, ◌≡◌, ◌≢◌, refl, Str, ascii, false, none, List, [], ◌∷◌, arith, any, ◌==◌, str_eq, str_beq,
}
use at_pc.Map
use at_pc.Map.Laws.{map_opt}
use at_pc.Map.Distinct.{Distinct}
use at_pc.Time.{from_secs}
use at_pc.Protocol.{TerminalInfo, offline}
use at_pc.Server.MetaStore.{in_memory}
use at_pc.Server.Registry.{
  TerminalRegistry, with_store, session_of, register, set_status_if_current, remove_terminal,
  sweep_offline, is_some,
}
use at_pc.Server.Registry.Sweep.{late, marked, sweep_exact}
use at_pc.Server.Registry.Stale.{
  Op, registers, beats, sweeps, removes, step, run, replaced_is_stale,
}
use at_pc.Server.Registry.Views.{list_terminals, get_terminal}
use at_pc.Server.Registry.Views.Agree.{find_entry, Tidy}
use at_pc.Server.Registry.Invariant.{views_agree, removal_answer}

abbrev info_of : Str → TerminalInfo
info_of id = record {
  terminal_id = id;
  hostname = ascii "h";
  username = ascii "u";
  lan_ip = ascii "10.0.0.1";
  os_version = ascii "w";
  agent_version = ascii "1";
}

abbrev a : Str
a = ascii "a"

abbrev b : Str
b = ascii "b"

abbrev empty : TerminalRegistry ℕ ℕ
empty = with_store (from_secs 15) in_memory 1

-- Two terminals connect at different times.
abbrev two : TerminalRegistry ℕ ℕ
two = run empty (registers (info_of a) 7 0 1 ∷ registers (info_of b) 8 (from_secs 10) 2 ∷ [])

two-Distinct : Distinct two.sessions
unfolding run step register Map.insert Map.remove Map.get str_beq
two-Distinct = (refl, (refl, tt))

sweep_exact_example :
    let (r', ids) = sweep_offline two (from_secs 20) in
    (any (λ j. j == a) ids ≡ late (from_secs 15) (from_secs 20) (session_of two a))
    × (session_of r' a ≡ map_opt (marked (from_secs 15) (from_secs 20)) (session_of two a))
    × ((sweep_offline r' (from_secs 20)).1 ≡ [])
unfolding run step register
sweep_exact_example = sweep_exact two (from_secs 20) a two-Distinct

replaced_is_stale_example :
    let (r1, n) = register empty (info_of a) 7 0 1 in
    let r2 = (register (run r1 (sweeps 5 ∷ [])) (info_of a) 8 9 2).0 in
    set_status_if_current (run r2 (beats a 3 10 ∷ [])) a n offline
    ≡ (run r2 (beats a 3 10 ∷ []), false)
replaced_is_stale_example =
    replaced_is_stale empty (info_of a) (info_of a) 7 8 0 9 1 2 (sweeps 5 ∷ []) (beats a 3 10 ∷ [])
      offline refl (omega arith)

empty-Tidy : Tidy empty
unfolding Map.contains_key Map.get
empty-Tidy = record {
  sessions_once = tt;
  metas_once = tt;
  sessions_own = tt;
  metas_own = tt;
  all_stored = λ k p. ground arith;
}

abbrev connects : List (Op ℕ ℕ)
connects = registers (info_of a) 7 0 1 ∷ sweeps 5 ∷ registers (info_of b) 8 9 2 ∷ removes a ∷ []

views_agree_example :
    find_entry b (list_terminals (run empty connects) 12) ≡ get_terminal (run empty connects) b 12
views_agree_example = views_agree empty connects b 12 empty-Tidy

removal_answer_example :
    let (r', answer) = remove_terminal two a in
    (session_of r' a ≡ none)
    × (Map.get a r'.meta_store.state.records ≡ none)
    × (answer ≡ is_some (session_of two a))
    × (a ≢ b
        → (session_of r' b ≡ session_of two b)
          × (Map.get b r'.meta_store.state.records ≡ Map.get b two.meta_store.state.records))
removal_answer_example = removal_answer two a b
