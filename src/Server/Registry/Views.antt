-- ===== src/Server/Registry/Views.antt =====
-- ws/registry.rs, `list_terminals` and `get_terminal`: the sessions joined with the stored metadata.
pub mod Agree
use at_pc.Common.{
  ℕ, Str, str_le, Bool, true, false, not, Option, none, some, List, [], ◌∷◌, ◌++◌, any, ◌==◌,
  str_eq, ltb, length, if◌then◌else◌,
}
use at_pc.Map
use at_pc.Map.{Map}
use at_pc.Time.{Instant, duration_since, as_secs}
use at_pc.Protocol.{TerminalInfo, TerminalStatus, offline}
use at_pc.Server.MetaStore.{TerminalMeta, Records}
use at_pc.Server.Registry.{TerminalSession, TerminalRegistry, session_of}

pub record TerminalEntry (Metrics : Type 0) : Type 0 where
  pub info : TerminalInfo
  pub custom_name : Option Str
  pub notes : Option Str
  pub tags : List Str
  pub status : TerminalStatus
  pub latest_metrics : Option Metrics
  pub last_heartbeat_elapsed_secs : ℕ

abbrev pub name_of : Option TerminalMeta → Option Str
name_of none = none
name_of (some m) = m.custom_name

abbrev pub notes_of : Option TerminalMeta → Option Str
notes_of none = none
notes_of (some m) = m.notes

abbrev pub tags_of : Option TerminalMeta → List Str
tags_of none = []
tags_of (some m) = m.tags

module _ {Metrics : Type 0} where
  abbrev pub offline_entry : TerminalMeta → TerminalInfo → TerminalEntry Metrics
  offline_entry m info = record {
    info = info;
    custom_name = m.custom_name;
    notes = m.notes;
    tags = m.tags;
    status = offline;
    latest_metrics = none;
    last_heartbeat_elapsed_secs = 999999;
  }

  -- `Some(entry)` if the agent's information is stored.
  abbrev pub known : TerminalMeta → Option TerminalInfo → Option (TerminalEntry Metrics)
  known m none = none
  known m (some info) = some (offline_entry m info)

  abbrev pub stored_entry : Option TerminalMeta → Option (TerminalEntry Metrics)
  stored_entry none = none
  stored_entry (some m) = known m m.last_known_info

  abbrev pub option_cons :
      Option (TerminalEntry Metrics) → List (TerminalEntry Metrics) → List (TerminalEntry Metrics)
  option_cons none es = es
  option_cons (some e) es = e ∷ es

  -- The entries of the terminals that are stored but not active.
  unfoldable pub offline_entries : List Str → Records → List (TerminalEntry Metrics)
  offline_entries active_ids [] = []
  offline_entries active_ids ((id, m) ∷ all_meta) =
      let rest = offline_entries active_ids all_meta in
      if not (any (λ j. j == id) active_ids) then option_cons (stored_entry (some m)) rest else rest

  unfoldable pub insert_by_id :
      TerminalEntry Metrics → List (TerminalEntry Metrics) → List (TerminalEntry Metrics)
  insert_by_id e [] = e ∷ []
  insert_by_id e (f ∷ es) =
      let rest = insert_by_id e es in
      if str_le e.info.terminal_id f.info.terminal_id then e ∷ f ∷ es else f ∷ rest

  unfoldable pub sort_by_id : List (TerminalEntry Metrics) → List (TerminalEntry Metrics)
  sort_by_id [] = []
  sort_by_id (e ∷ es) = insert_by_id e (sort_by_id es)

  unfoldable pub ids_of : List (TerminalEntry Metrics) → List Str
  ids_of [] = []
  ids_of (e ∷ es) = e.info.terminal_id ∷ ids_of es

module _ {Metrics Sender : Type 0} where
  abbrev pub active_entry :
      Option TerminalMeta → Instant → TerminalSession Metrics Sender → TerminalEntry Metrics
  active_entry meta now s = record {
    info = s.info;
    custom_name = name_of meta;
    notes = notes_of meta;
    tags = tags_of meta;
    status = s.status;
    latest_metrics = s.latest_metrics;
    last_heartbeat_elapsed_secs = as_secs (duration_since now s.last_heartbeat_at);
  }

  unfoldable pub active_entries :
      Records → Instant → Map Str (TerminalSession Metrics Sender) → List (TerminalEntry Metrics)
  active_entries all_meta now [] = []
  active_entries all_meta now ((id, s) ∷ m) =
      active_entry (Map.get s.info.terminal_id all_meta) now s ∷ active_entries all_meta now m

  -- The two reads, each under its own lock, may be of different times.
  unfoldable pub list_read :
      Map Str (TerminalSession Metrics Sender) → Records → Instant → List (TerminalEntry Metrics)
  unfolding active_entries offline_entries sort_by_id ids_of
  list_read sessions all_meta now =
      let entries = active_entries all_meta now sessions in
      sort_by_id (
        entries
        ++ (if ltb (length entries) (Map.len all_meta)
            then offline_entries (ids_of entries) all_meta
            else []))

  -- With nothing in between.
  unfoldable pub list_terminals :
      TerminalRegistry Metrics Sender → Instant → List (TerminalEntry Metrics)
  unfolding list_read
  list_terminals r now = list_read r.sessions r.meta_store.state.records now

  abbrev pub terminal_entry :
      Option (TerminalSession Metrics Sender)
      → Option TerminalMeta
      → Instant
      → Option (TerminalEntry Metrics)
  terminal_entry (some s) meta now = some (active_entry meta now s)
  terminal_entry none meta now = stored_entry meta

  unfoldable pub get_terminal :
      TerminalRegistry Metrics Sender → Str → Instant → Option (TerminalEntry Metrics)
  get_terminal r id now =
      terminal_entry (session_of r id) (Map.get id r.meta_store.state.records) now
