-- ===== src/Server/Registry/Invariant.antt =====
-- ws/registry.rs: what every operation keeps, and what the removal of a terminal does.
use at_pc.Common.{
  ℕ, ap, subst, ◌∙◌, ◌≡◌, ◌≢◌, refl, Str, Bool, false, Option, none, some, List, [], ◌∷◌, arith,
  inl, inr, str_eq, ◌==◌, ==_iff, ==_self, ==_ne, Bool-cases, if◌then◌else◌,
}
use at_pc.Map
use at_pc.Map.{Map}
use at_pc.Map.Laws.{get-insert, get-modify, get-remove, get-remove_self, get-remove_ne}
use at_pc.Map.Distinct.{Distinct, insert-Distinct, remove-Distinct, modify-Distinct}
use at_pc.Map.Keyed.{insert-Keyed, remove-Keyed, modify-Keyed}
use at_pc.Map.Subset.{insert-Subset}
use at_pc.Time.{Instant, Duration}
use at_pc.Protocol.{TerminalInfo, TerminalStatus, offline}
use at_pc.Server.MetaStore
use at_pc.Server.MetaStore.{TerminalMeta, Records, MetaStore, record_registration}
use at_pc.Server.Registry.{
  TerminalSession, TerminalRegistry, session_of, change, is_current, register, unregister, beat,
  update_heartbeat, with_status, set_status, set_status_if_current, sent_over, send_to_terminal,
  get_sender, is_some, remove_terminal, sweep, sweep_offline, timed_out, update_terminal_meta,
}
use at_pc.Server.Registry.Sweep.{get-sweep}
use at_pc.Server.Registry.Stale.{
  Op, registers, unregisters, beats, sets_status, sets_if_current, sends, removes, sweeps,
  updates_meta, step, run,
}
use at_pc.Server.Registry.Views.{list_terminals, get_terminal}
use at_pc.Server.Registry.Views.Agree.{find_entry, list-get, MetasKeyed, IsOwn, SessionsKeyed, Tidy}

remove-records :
    (s : MetaStore) (id : Str) (j : Str)
    → Map.get j (MetaStore.remove s id).0.state.records
      ≡ (if id == j then none else Map.get j s.state.records)
unfolding MetaStore.remove Map.contains_key
remove-records s id j = ground (arith, get-remove id j s.state.records, ==_iff id j)

absent-remove :
    (s : MetaStore) (id : Str)
    → Map.get id s.state.records ≡ none
    → (MetaStore.remove s id).1 ≡ false
unfolding MetaStore.remove Map.contains_key
absent-remove s id h = ground arith

remove-metas :
    (P : Records → Type 0) (s : MetaStore) (id : Str)
    → P s.state.records
    → P (Map.remove id s.state.records)
    → P (MetaStore.remove s id).0.state.records
unfolding MetaStore.remove
remove-metas P s id h k = elim (Bool-cases (Map.contains_key id s.state.records)) [
  | inl p ↦ rw (MetaStore.remove, p) k
  | inr p ↦ rw (MetaStore.remove, p) h
]

-- What is stored of a terminal, or the new record, is its own.
old-IsOwn :
    (metas : Records) (id : Str) (now : ℕ)
    → MetasKeyed metas
    → IsOwn id
        (MetaStore.meta_or (Map.get id metas) (MetaStore.new_meta id none now)).last_known_info
unfolding MetaStore.new_meta Map.get
old-IsOwn [] id now k = tt
old-IsOwn ((j, m) ∷ metas) id now (e, k) = elim (Bool-cases (j == id)) [
  | inl p ↦ let q : j ≡ id = (==_iff j id).0 p in rw p (subst (λ x. IsOwn x m.last_known_info) q e)
  | inr p ↦ rw p (old-IsOwn metas id now k)
]

module _ {Metrics Sender : Type 0} where
  change-Tidy :
      (r : TerminalRegistry Metrics Sender) (id : Str)
      (f : TerminalSession Metrics Sender → TerminalSession Metrics Sender)
      → ((s : TerminalSession Metrics Sender) → (f s).info ≡ s.info)
      → Tidy r
      → Tidy (change r id f)
  unfolding Map.contains_key
  change-Tidy r id f same t = record {
    sessions_once = modify-Distinct id f r.sessions t.sessions_once;
    metas_once = t.metas_once;
    sessions_own =
        modify-Keyed _ id f r.sessions (λ j s p. ap (λ i. i.terminal_id) (same s) ∙ p)
          t.sessions_own;
    metas_own = t.metas_own;
    all_stored = λ j p. t.all_stored j (ground (arith, get-modify id j f r.sessions));
  }

  register-Tidy :
      (r : TerminalRegistry Metrics Sender) (info : TerminalInfo) (sender : Sender) (now : Instant)
      (clock : ℕ)
      → Tidy r
      → Tidy (register r info sender now clock).0
  unfolding register record_registration Map.contains_key
  register-Tidy r info sender now clock t = record {
    sessions_once = insert-Distinct info.terminal_id _ r.sessions t.sessions_once;
    metas_once = insert-Distinct info.terminal_id _ r.meta_store.state.records t.metas_once;
    sessions_own = insert-Keyed _ info.terminal_id _ r.sessions refl t.sessions_own;
    metas_own = insert-Keyed _ info.terminal_id _ r.meta_store.state.records refl t.metas_own;
    all_stored =
        insert-Subset r.sessions r.meta_store.state.records info.terminal_id _ _ t.all_stored;
  }

  unregister-Tidy :
      (r : TerminalRegistry Metrics Sender) (id : Str) → Tidy r → Tidy (unregister r id).0
  unfolding unregister Map.contains_key
  unregister-Tidy r id t =
      let metas = r.meta_store.state.records in
      record {
        sessions_once = remove-Distinct id r.sessions t.sessions_once;
        metas_once =
            remove-metas Distinct r.meta_store id t.metas_once
              (remove-Distinct id metas t.metas_once);
        sessions_own = remove-Keyed _ id r.sessions t.sessions_own;
        metas_own =
            remove-metas MetasKeyed r.meta_store id t.metas_own
              (remove-Keyed _ id metas t.metas_own);
        all_stored = λ j p. ground (
          arith,
          get-remove id j r.sessions,
          remove-records r.meta_store id j,
          t.all_stored j,
          p,
        );
      }

  set_status-Tidy :
      (r : TerminalRegistry Metrics Sender) (id : Str) (status : TerminalStatus)
      → Tidy r
      → Tidy (set_status r id status).0
  unfolding set_status
  set_status-Tidy r id status t = elim (Bool-cases (Map.contains_key id r.sessions)) [
    | inl p ↦ rw (set_status, p) (change-Tidy r id (with_status status) (λ s. refl) t)
    | inr p ↦ rw (set_status, p) t
  ]

  sent-Tidy :
      (r : TerminalRegistry Metrics Sender) (id : Str) (opened : Sender → Bool) (o : Option Sender)
      → Tidy r
      → Tidy (sent_over r id opened o).0
  unfolding sent_over
  sent-Tidy r id opened none t = t
  sent-Tidy r id opened (some sender) t = elim (Bool-cases (opened sender)) [
    | inl p ↦ rw (sent_over, p) t
    | inr p ↦ rw (sent_over, p) (set_status-Tidy r id offline t)
  ]

  sweep-Distinct :
      (threshold : Duration) (now : Instant) (m : Map Str (TerminalSession Metrics Sender))
      → Distinct m
      → Distinct (sweep threshold now m).0
  unfolding sweep
  sweep-Distinct threshold now [] d = tt
  sweep-Distinct threshold now ((j, s) ∷ m) d =
      ground (arith, sweep-Distinct threshold now m d.1, get-sweep threshold now m j, d.0)

  sweep-Keyed :
      (threshold : Duration) (now : Instant) (m : Map Str (TerminalSession Metrics Sender))
      → SessionsKeyed m
      → SessionsKeyed (sweep threshold now m).0
  unfolding sweep
  sweep-Keyed threshold now [] d = tt
  sweep-Keyed threshold now ((j, s) ∷ m) d = elim (Bool-cases (timed_out threshold now s)) [
    | inl p ↦ rw (sweep, p) (d.0, sweep-Keyed threshold now m d.1)
    | inr p ↦ rw (sweep, p) (d.0, sweep-Keyed threshold now m d.1)
  ]

  sweep_offline-Tidy :
      (r : TerminalRegistry Metrics Sender) (now : Instant) → Tidy r → Tidy (sweep_offline r now).0
  unfolding sweep_offline Map.contains_key
  sweep_offline-Tidy r now t = record {
    sessions_once = sweep-Distinct r.offline_threshold now r.sessions t.sessions_once;
    metas_once = t.metas_once;
    sessions_own = sweep-Keyed r.offline_threshold now r.sessions t.sessions_own;
    metas_own = t.metas_own;
    all_stored =
        λ j p. t.all_stored j (ground (arith, get-sweep r.offline_threshold now r.sessions j, p));
  }

  with_store-Tidy :
      (r : TerminalRegistry Metrics Sender) (id : Str)
      → Tidy (unregister r id).0
      → Tidy (remove_terminal r id).0
  unfolding unregister remove_terminal Map.contains_key
  with_store-Tidy r id t =
      let store = (MetaStore.remove r.meta_store id).0 in
      let metas = store.state.records in
      record {
        sessions_once = t.sessions_once;
        metas_once =
            remove-metas Distinct store id t.metas_once (remove-Distinct id metas t.metas_once);
        sessions_own = t.sessions_own;
        metas_own =
            remove-metas MetasKeyed store id t.metas_own (remove-Keyed _ id metas t.metas_own);
        all_stored = λ j p.
            ground
              (arith, get-remove id j r.sessions, remove-records store id j, t.all_stored j p, p);
      }

  update_terminal_meta-Tidy :
      (r : TerminalRegistry Metrics Sender) (id : Str) (custom_name notes : Option Str)
      (tags : Option (List Str)) (now : ℕ)
      → Tidy r
      → Tidy (update_terminal_meta r id custom_name notes tags now).0
  unfolding update_terminal_meta MetaStore.update_meta MetaStore.new_meta Map.contains_key
  update_terminal_meta-Tidy r id custom_name notes tags now t =
      let metas = r.meta_store.state.records in
      record {
        sessions_once = t.sessions_once;
        metas_once = insert-Distinct id _ metas t.metas_once;
        sessions_own = t.sessions_own;
        metas_own = insert-Keyed _ id _ metas (old-IsOwn metas id now t.metas_own) t.metas_own;
        all_stored = λ j p. ground (
          arith,
          get-insert id j (MetaStore.update_meta r.meta_store id custom_name notes tags now).1
              metas,
          t.all_stored j p,
        );
      }

  step-Tidy :
      (r : TerminalRegistry Metrics Sender) (o : Op Metrics Sender) → Tidy r → Tidy (step r o)
  unfolding step update_heartbeat set_status_if_current send_to_terminal
  step-Tidy r (registers info sender now clock) t = register-Tidy r info sender now clock t
  step-Tidy r (unregisters id) t = unregister-Tidy r id t
  step-Tidy r (beats id metrics now) t = elim (Bool-cases (Map.contains_key id r.sessions)) [
    | inl p ↦ rw (step, update_heartbeat, p) (change-Tidy r id (beat metrics now) (λ s. refl) t)
    | inr p ↦ rw (step, update_heartbeat, p) t
  ]
  step-Tidy r (sets_status id status) t = set_status-Tidy r id status t
  step-Tidy r (sets_if_current id n status) t = elim (Bool-cases (is_current (session_of r id) n)) [
    | inl p ↦
        rw (step, set_status_if_current, p) (change-Tidy r id (with_status status) (λ s. refl) t)
    | inr p ↦ rw (step, set_status_if_current, p) t
  ]
  step-Tidy r (sends id opened) t = sent-Tidy r id opened (get_sender r id) t
  step-Tidy r (removes id) t = with_store-Tidy r id (unregister-Tidy r id t)
  step-Tidy r (sweeps now) t = sweep_offline-Tidy r now t
  step-Tidy r (updates_meta id custom_name notes tags now) t =
      update_terminal_meta-Tidy r id custom_name notes tags now t

  pub run-Tidy :
      (r : TerminalRegistry Metrics Sender) (os : List (Op Metrics Sender))
      → Tidy r
      → Tidy (run r os)
  unfolding run
  run-Tidy r [] t = t
  run-Tidy r (o ∷ os) t = run-Tidy (step r o) os (step-Tidy r o t)

  -- From a tidy registry (an empty one is), after any operations, the list, with no operation between
  -- its two reads, and the single view tell the same of every terminal: the first entry of its id in
  -- the list is what `get_terminal` returns, and there is none if that returns none.
  pub views_agree :
      (r : TerminalRegistry Metrics Sender) (os : List (Op Metrics Sender)) (id : Str)
      (now : Instant)
      → Tidy r
      → find_entry id (list_terminals (run r os) now) ≡ get_terminal (run r os) id now
  views_agree r os id now t = list-get (run r os) id now (run-Tidy r os t)

  -- The removal of a terminal leaves neither a session nor a stored record of it, touches no other
  -- terminal, and answers only whether there was a session: a terminal that was stored but not
  -- connected is removed with the answer `false`.
  pub removal_answer :
      (r : TerminalRegistry Metrics Sender) (id j : Str)
      → let (r', answer) = remove_terminal r id in
        (session_of r' id ≡ none)
        × (Map.get id r'.meta_store.state.records ≡ none)
        × (answer ≡ is_some (session_of r id))
        × (id ≢ j
            → (session_of r' j ≡ session_of r j)
              × (Map.get j r'.meta_store.state.records ≡ Map.get j r.meta_store.state.records))
  unfolding remove_terminal unregister
  removal_answer r id j =
      let store = (MetaStore.remove r.meta_store id).0 in
      (
        get-remove_self id r.sessions,
        ground (arith, remove-records store id id, ==_self id),
        ground (arith, absent-remove store id, remove-records r.meta_store id id, ==_self id),
        λ ne. (
          get-remove_ne id j r.sessions ne,
          ground
              (arith, remove-records store id j, remove-records r.meta_store id j, ==_ne id j ne),
        ),
      )
