-- ===== src/Server/MetaStore.antt =====
-- crates/server/src/meta_store.rs: metadata of the terminals, in memory behind a lock, with snapshots
-- for the writer thread (MetaStore/Writer.antt). Time stamps are seconds since the epoch.
pub mod Tags
pub mod Writer
pub mod Attempts
pub mod Durable
pub mod Tests
use at_pc.Common.{
  ℕ, ◌+◌, ◌%◌, ◌^◌, Str, trim, is_empty, Bool, true, false, ◌&&◌, not, Option, none, some, List, [],
  ◌∷◌, ◌++◌, any, ◌==◌, str_eq, if◌then◌else◌,
}
use at_pc.Map
use at_pc.Map.{Map}
use at_pc.Protocol.{TerminalInfo}

pub record TerminalMeta : Type 0 where
  pub terminal_id : Str
  pub custom_name : Option Str
  pub notes : Option Str
  pub tags : List Str
  pub last_known_info : Option TerminalInfo
  pub created_at : ℕ
  pub updated_at : ℕ

abbrev pub Records : Type 0
Records = Map Str TerminalMeta

pub record Snapshot : Type 0 where
  pub records : Records
  pub version : ℕ

-- The state behind the lock. Its snapshot is the state itself.
pub record MetaStore : Type 0 where
  pub state : Snapshot
  pub is_in_memory : Bool

abbrev pub in_memory : MetaStore
in_memory = record { state = record { records = []; version = 0 }; is_in_memory = true }

-- `wrapping_add` on u64
abbrev pub next_version : ℕ → ℕ
next_version v = (v + 1) % 2 ^ 64

-- The snapshot that an operation hands to the writer, if the store has one.
abbrev pub for_writer : MetaStore → Option Snapshot
for_writer s = if s.is_in_memory then none else some s.state

abbrev pub changed : MetaStore → Records → MetaStore
changed s records = record s {
  state = record { records = records; version = next_version s.state.version };
}

unfoldable pub new_meta : Str → Option TerminalInfo → ℕ → TerminalMeta
new_meta id info now = record {
  terminal_id = id;
  custom_name = none;
  notes = none;
  tags = [];
  last_known_info = info;
  created_at = now;
  updated_at = now;
}

abbrev pub meta_or : Option TerminalMeta → TerminalMeta → TerminalMeta
meta_or none new = new
meta_or (some m) new = m

unfoldable pub record_registration : MetaStore → TerminalInfo → ℕ → MetaStore × Option Snapshot
unfolding new_meta
record_registration s info now =
    let old =
      meta_or (Map.get info.terminal_id s.state.records)
        (new_meta info.terminal_id (some info) now) in
    let s' = changed s (
      Map.insert info.terminal_id (record old { last_known_info = some info; updated_at = now })
        s.state.records) in
    (s', for_writer s')

unfoldable pub get : MetaStore → Str → Option TerminalMeta
get s id = Map.get id s.state.records

unfoldable pub list_all : MetaStore → Records
list_all s = s.state.records

-- `(!trimmed.is_empty()).then_some(trimmed)`
unfoldable pub clean_text : Str → Option Str
clean_text text = let t = trim text in if is_empty t then none else some t

abbrev pub add_tag : List Str → Str → List Str
add_tag kept clean =
    if not (is_empty clean) && not (any (λ t. t == clean) kept) then kept ++ clean ∷ [] else kept

-- The tags kept so far, and those to come.
unfoldable pub clean_tags : List Str → List Str → List Str
clean_tags kept [] = kept
clean_tags kept (tag ∷ tags) = clean_tags (add_tag kept (trim tag)) tags

abbrev pub text_update : Option Str → Option Str → Option Str
text_update none old = old
text_update (some text) old = clean_text text

abbrev pub tags_update : Option (List Str) → List Str → List Str
tags_update none old = old
tags_update (some tags) old = clean_tags [] tags

unfoldable pub update_meta :
    MetaStore
    → Str
    → Option Str
    → Option Str
    → Option (List Str)
    → ℕ
    → MetaStore × TerminalMeta × Option Snapshot
unfolding new_meta
update_meta s id custom_name notes tags now =
    let old = meta_or (Map.get id s.state.records) (new_meta id none now) in
    let meta = record old {
      custom_name = text_update custom_name old.custom_name;
      notes = text_update notes old.notes;
      tags = tags_update tags old.tags;
      updated_at = now;
    } in
    let s' = changed s (Map.insert id meta s.state.records) in (s', meta, for_writer s')

unfoldable pub remove : MetaStore → Str → MetaStore × Bool × Option Snapshot
remove s id =
    if Map.contains_key id s.state.records
    then (let s' = changed s (Map.remove id s.state.records) in (s', true, for_writer s'))
    else (s, false, none)
