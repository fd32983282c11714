-- ===== src/Server/Registry/Views/Agree.antt =====
-- ws/registry.rs: `list_terminals` and `get_terminal` tell the same of every terminal.
use at_pc.Common.{
  suc, subst, sym, ◌≤◌, ◌≡◌, refl, ap, ◌∙◌, Str, str_le_self, true, false, Option, none, some, List,
  [], ◌∷◌, ◌++◌, arith, inl, inr, any, ◌==◌, ==_iff, ==_self, str_eq, ltb, length, if◌then◌else◌,
  Option-cases, Bool-cases,
}
use at_pc.Map
use at_pc.Map.{Map}
use at_pc.Map.Laws.{map_opt}
use at_pc.Map.Distinct.{Distinct}
use at_pc.Map.Keyed.{Keyed}
use at_pc.Map.Subset.{Subset, Subset-len}
use at_pc.Time.{Instant}
use at_pc.Protocol.{TerminalInfo}
use at_pc.Server.MetaStore.{TerminalMeta, Records}
use at_pc.Server.Registry.{TerminalSession, TerminalRegistry, session_of}
use at_pc.Server.Registry.Views.{
  TerminalEntry, known, stored_entry, option_cons, offline_entries, insert_by_id, sort_by_id,
  ids_of, active_entry, active_entries, list_terminals, get_terminal,
}

module _ {Metrics : Type 0} where
  -- The first entry of a terminal.
  unfoldable pub find_entry : Str → List (TerminalEntry Metrics) → Option (TerminalEntry Metrics)
  find_entry id [] = none
  find_entry id (e ∷ es) =
      let rest = find_entry id es in if e.info.terminal_id == id then some e else rest

  abbrev or_else :
      Option (TerminalEntry Metrics)
      → Option (TerminalEntry Metrics)
      → Option (TerminalEntry Metrics)
  or_else none o = o
  or_else (some e) o = some e

  find-insert :
      (id : Str) (e : TerminalEntry Metrics) (es : List (TerminalEntry Metrics))
      → find_entry id (insert_by_id e es) ≡ find_entry id (e ∷ es)
  unfolding find_entry insert_by_id
  find-insert id e [] = refl
  find-insert id e (f ∷ es) = ground (
    arith,
    find-insert id e es,
    ==_iff e.info.terminal_id id,
    ==_iff f.info.terminal_id id,
    str_le_self e.info.terminal_id,
  )

  find-sort :
      (id : Str) (es : List (TerminalEntry Metrics))
      → find_entry id (sort_by_id es) ≡ find_entry id es
  unfolding find_entry sort_by_id
  find-sort id [] = refl
  find-sort id (e ∷ es) = ground (arith, find-insert id e (sort_by_id es), find-sort id es)

  find-append :
      (id : Str) (es fs : List (TerminalEntry Metrics))
      → find_entry id (es ++ fs) ≡ or_else (find_entry id es) (find_entry id fs)
  unfolding find_entry
  find-append id [] fs = refl
  find-append id (e ∷ es) fs = ground (arith, find-append id es fs)

  any-ids :
      (id : Str) (es : List (TerminalEntry Metrics))
      → any (λ j. j == id) (ids_of es) ≡ (elim (find_entry id es) [ none ↦ false | some e ↦ true ])
  unfolding find_entry ids_of any
  any-ids id [] = refl
  any-ids id (e ∷ es) = ground (arith, any-ids id es)

-- The stored information of a terminal carries its own id.
abbrev pub IsOwn : Str → Option TerminalInfo → Type 0
IsOwn id none = Unit
IsOwn id (some info) = info.terminal_id ≡ id

abbrev pub MetasKeyed : Records → Type 0
MetasKeyed = Keyed (λ id m. IsOwn id m.last_known_info)

module _ {Metrics : Type 0} where
  find-known :
      (id j : Str) (m : TerminalMeta) (o : Option TerminalInfo) (es : List (TerminalEntry Metrics))
      → IsOwn j o
      → find_entry id (option_cons (known m o) es)
        ≡ (if j == id then or_else (known m o) (find_entry id es) else find_entry id es)
  unfolding find_entry
  find-known id j m none es e = ground arith
  find-known id j m (some info) es e = ground (arith, ==_iff j id, ==_iff info.terminal_id id)

  find-offline :
      (active_ids : List Str) (all_meta : Records) (id : Str)
      → Distinct all_meta
      → MetasKeyed all_meta
      → any (λ j. j == id) active_ids ≡ false
      → find_entry id (offline_entries {Metrics = Metrics} active_ids all_meta)
        ≡ stored_entry (Map.get id all_meta)
  unfolding find_entry offline_entries Map.get
  find-offline active_ids [] id d h n = refl
  find-offline active_ids ((j, m) ∷ all_meta) id d (e, h) n = elim (Bool-cases (j == id)) [
    | inl p ↦
        let q : j ≡ id = (==_iff j id).0 p in
        ground (
          arith,
          p,
          find-known id j m m.last_known_info (offline_entries active_ids all_meta) e,
          find-offline active_ids all_meta id d.1 h n,
          subst (λ i. any (λ k. k == i) active_ids ≡ false) (sym q) n,
          subst (λ i. Map.get i all_meta ≡ none) q d.0,
        )
    | inr p ↦ ground (
      arith,
      p,
      find-known id j m m.last_known_info (offline_entries active_ids all_meta) e,
      find-offline active_ids all_meta id d.1 h n,
    )
  ]

module _ {Metrics Sender : Type 0} where
  abbrev pub SessionsKeyed : Map Str (TerminalSession Metrics Sender) → Type 0
  SessionsKeyed = Keyed (λ id s. s.info.terminal_id ≡ id)

  find-active :
      (all_meta : Records) (now : Instant) (m : Map Str (TerminalSession Metrics Sender)) (id : Str)
      → SessionsKeyed m
      → find_entry id (active_entries all_meta now m)
        ≡ map_opt (active_entry (Map.get id all_meta) now) (Map.get id m)
  unfolding find_entry active_entries Map.get
  find-active all_meta now [] id h = refl
  find-active all_meta now ((j, s) ∷ m) id (e, h) = elim (Bool-cases (j == id)) [
    | inl p ↦
        let q : s.info.terminal_id ≡ id = e ∙ (==_iff j id).0 p in
        ground (arith, p, q, ap (λ i. Map.get i all_meta) q, ==_self id)
    | inr p ↦
        ground
          (arith, p, find-active all_meta now m id h, ==_iff j id, ==_iff s.info.terminal_id id)
  ]

  length-active :
      (all_meta : Records) (now : Instant) (m : Map Str (TerminalSession Metrics Sender))
      → length (active_entries all_meta now m) ≡ Map.len m
  unfolding active_entries
  length-active all_meta now [] = refl
  length-active all_meta now (x ∷ m) = ap suc (length-active all_meta now m)

  -- Maps with distinct keys, sessions and stored records under their own ids, and a stored record for
  -- every session.
  pub record Tidy (r : TerminalRegistry Metrics Sender) : Type 0 where
    pub sessions_once : Distinct r.sessions
    pub metas_once : Distinct r.meta_store.state.records
    pub sessions_own : SessionsKeyed r.sessions
    pub metas_own : MetasKeyed r.meta_store.state.records
    pub all_stored : Subset r.sessions r.meta_store.state.records

  -- The entries of a list that come from the store.
  abbrev stored_part :
      TerminalRegistry Metrics Sender → List (TerminalEntry Metrics) → List (TerminalEntry Metrics)
  stored_part r entries =
      if ltb (length entries) (Map.len r.meta_store.state.records)
      then offline_entries (ids_of entries) r.meta_store.state.records
      else []

  find-stored :
      (r : TerminalRegistry Metrics Sender) (id : Str) (now : Instant)
      → Tidy r
      → session_of r id ≡ none
      → find_entry id (stored_part r (active_entries r.meta_store.state.records now r.sessions))
        ≡ stored_entry (Map.get id r.meta_store.state.records)
  unfolding find_entry Map.contains_key
  find-stored r id now t q =
      let metas = r.meta_store.state.records in
      let entries = active_entries metas now r.sessions in
      let a = find-active metas now r.sessions id t.sessions_own in
      let n : any (λ j. j == id) (ids_of entries) ≡ false =
        ground (arith, any-ids id entries, a, q) in
      let f =
        find-offline {Metrics = Metrics} (ids_of entries) metas id t.metas_once t.metas_own n in
      elim (Bool-cases (ltb (length entries) (Map.len metas))) [
        | inl p ↦ rw p f
        | inr p ↦
            let l : Map.len metas ≤ Map.len r.sessions =
              ground (arith, p, length-active metas now r.sessions) in
            elim (Option-cases (Map.get id metas)) [
              | inl z ↦ ground (arith, p, z)
              | inr (m, z) ↦ absurd (
                  ground
                    (arith, Subset-len r.sessions metas id t.sessions_once t.all_stored, l, q, z))
            ]
      ]

  pub list-get :
      (r : TerminalRegistry Metrics Sender) (id : Str) (now : Instant)
      → Tidy r
      → find_entry id (list_terminals r now) ≡ get_terminal r id now
  unfolding list_terminals get_terminal
  list-get r id now t =
      let metas = r.meta_store.state.records in
      let entries = active_entries metas now r.sessions in
      find-sort id _
      ∙ find-append id entries (stored_part r entries)
      ∙ (elim (Option-cases (session_of r id)) [
        | inl q ↦
            ground (
              arith,
              find-active metas now r.sessions id t.sessions_own,
              q,
              find-stored r id now t q,
            )
        | inr (s, q) ↦ ground (arith, find-active metas now r.sessions id t.sessions_own, q)
      ])
