-- ===== src/Server/MetaStore/Tags.antt =====
-- meta_store.rs, `update_meta` and `record_registration`: what a terminal's record holds after them.
use at_pc.Common.{
  ap, ◌∙◌, ℕ, ◌≡◌, ◌≢◌, refl, Str, trim, is_empty, false, Option, none, some, List, [], ◌∷◌, ◌++◌,
  arith, any, ◌==◌, str_eq, ==_iff,
}
use at_pc.Map
use at_pc.Map.{Map}
use at_pc.Map.Laws.{get-insert, get-insert_self, get-insert_ne, get-remove}
use at_pc.Protocol.{TerminalInfo}
use at_pc.Server.MetaStore.{
  TerminalMeta, MetaStore, in_memory, meta_or, new_meta, record_registration, get, add_tag,
  clean_tags, tags_update, update_meta, remove,
}

-- Kept tags: none is empty, and none stands twice.
abbrev pub IsClean : List Str → Type 0
IsClean [] = Unit
IsClean (t ∷ ts) = (is_empty t ≡ false) × (any (λ u. u == t) ts ≡ false) × IsClean ts

any-snoc :
    (x : Str) (ts : List Str) (t : Str)
    → (x ≡ t → ⊥)
    → any (λ v. v == x) (ts ++ t ∷ []) ≡ any (λ v. v == x) ts
unfolding any
any-snoc x [] t ne = ground (arith, ==_iff t x)
any-snoc x (y ∷ ts) t ne = ground (arith, any-snoc x ts t ne)

snoc-IsClean :
    (ts : List Str) (t : Str)
    → is_empty t ≡ false
    → any (λ u. u == t) ts ≡ false
    → IsClean ts
    → IsClean (ts ++ t ∷ [])
unfolding any
snoc-IsClean [] t e h c = (e, refl, tt)
snoc-IsClean (x ∷ ts) t e h c =
    (c.0, ground (arith, c.1, any-snoc x ts t, ==_iff x t), snoc-IsClean ts t e (ground arith) c.2)

add_tag-IsClean : (kept : List Str) (t : Str) → IsClean kept → IsClean (add_tag kept t)
add_tag-IsClean kept t c = ground (arith, snoc-IsClean kept t)

clean_tags-IsClean : (kept tags : List Str) → IsClean kept → IsClean (clean_tags kept tags)
unfolding clean_tags
clean_tags-IsClean kept [] c = c
clean_tags-IsClean kept (t ∷ ts) c =
    clean_tags-IsClean (add_tag kept (trim t)) ts (add_tag-IsClean kept (trim t) c)

pub data Op : Type 0 where
  registers : TerminalInfo → ℕ → Op
  updates : Str → Option Str → Option Str → Option (List Str) → ℕ → Op
  removes : Str → Op

abbrev pub step : MetaStore → Op → MetaStore
step s (registers info now) = (record_registration s info now).0
step s (updates id name notes tags now) = (update_meta s id name notes tags now).0
step s (removes id) = (remove s id).0

abbrev pub run : MetaStore → List Op → MetaStore
run s [] = s
run s (o ∷ os) = run (step s o) os

abbrev tags_of : Option TerminalMeta → List Str
tags_of none = []
tags_of (some m) = m.tags

insert_tags :
    (m : Map Str TerminalMeta) (j id : Str) (v : TerminalMeta)
    → IsClean v.tags
    → IsClean (tags_of (Map.get id m))
    → IsClean (tags_of (Map.get id (Map.insert j v m)))
insert_tags m j id v c h = ground (arith, get-insert j id v m)

meta_or_tags :
    (o : Option TerminalMeta) (v : TerminalMeta)
    → v.tags ≡ []
    → IsClean (tags_of o)
    → IsClean (meta_or o v).tags
meta_or_tags none v e h = ground arith
meta_or_tags (some m) v e h = h

tags_update_tags :
    (tags : Option (List Str)) (old : List Str) → IsClean old → IsClean (tags_update tags old)
tags_update_tags none old h = h
tags_update_tags (some tags) old h = clean_tags-IsClean [] tags tt

-- No terminal has an empty tag, or one twice.
abbrev pub TagsClean : MetaStore → Type 0
TagsClean s = (id : Str) → IsClean (tags_of (get s id))

step-TagsClean : (s : MetaStore) (o : Op) → TagsClean s → TagsClean (step s o)
unfolding get record_registration update_meta remove new_meta
step-TagsClean s (registers info now) h id =
    insert_tags s.state.records info.terminal_id id _
      (meta_or_tags (Map.get info.terminal_id s.state.records)
        (new_meta info.terminal_id (some info) now) refl (h info.terminal_id))
      (h id)
step-TagsClean s (updates j name notes tags now) h id =
    insert_tags s.state.records j id _
      (tags_update_tags tags _
        (meta_or_tags (Map.get j s.state.records) (new_meta j none now) refl (h j)))
      (h id)
step-TagsClean s (removes j) h id = ground (arith, get-remove j id s.state.records, h id)

run-TagsClean_from : (s : MetaStore) (os : List Op) → TagsClean s → TagsClean (run s os)
run-TagsClean_from s [] h = h
run-TagsClean_from s (o ∷ os) h = run-TagsClean_from (step s o) os (step-TagsClean s o h)

-- From the empty store, after any registrations, updates and removals, whatever tags the requests
-- carried: no terminal has an empty tag, and none has the same tag twice.
pub run-TagsClean : (os : List Op) → TagsClean (run in_memory os)
unfolding get Map.get
run-TagsClean os = run-TagsClean_from in_memory os (λ id. tt)

update_meta-get :
    (s : MetaStore) (id : Str) (name notes : Option Str) (tags : Option (List Str)) (now : ℕ)
    → get (update_meta s id name notes tags now).0 id
      ≡ some (update_meta s id name notes tags now).1
unfolding get update_meta
update_meta-get s id name notes tags now =
    get-insert_self id (update_meta s id name notes tags now).1 s.state.records

update_meta-get_ne :
    (s : MetaStore) (id : Str) (name notes : Option Str) (tags : Option (List Str)) (now : ℕ)
    (j : Str)
    → id ≢ j
    → get (update_meta s id name notes tags now).0 j ≡ get s j
unfolding get update_meta
update_meta-get_ne s id name notes tags now j ne =
    get-insert_ne id j (update_meta s id name notes tags now).1 s.state.records ne

register-get :
    (s : MetaStore) (info : TerminalInfo) (now : ℕ) (m : TerminalMeta)
    → get s info.terminal_id ≡ some m
    → get (record_registration s info now).0 info.terminal_id
      ≡ some (record m { last_known_info = some info; updated_at = now })
unfolding get record_registration
register-get s info now m q =
    get-insert_self info.terminal_id _ s.state.records
    ∙ ap
        (λ o. some (record (meta_or o (new_meta info.terminal_id (some info) now)) {
          last_known_info = some info;
          updated_at = now;
        }))
        q

register-get_ne :
    (s : MetaStore) (info : TerminalInfo) (now : ℕ) (j : Str)
    → info.terminal_id ≢ j
    → get (record_registration s info now).0 j ≡ get s j
unfolding get record_registration
register-get_ne s info now j ne = get-insert_ne info.terminal_id j _ s.state.records ne

-- A terminal that registers again keeps the name, the notes, the tags and the creation time that an
-- update gave it, takes the information it now sends, and every other record stays as it was.
pub registration_keeps :
    (s : MetaStore) (info : TerminalInfo) (name notes : Option Str) (tags : Option (List Str))
    (at now : ℕ) (id : Str)
    → let u = update_meta s info.terminal_id name notes tags at in
      let s' = (record_registration u.0 info now).0 in
      (get s' info.terminal_id
        ≡ some (record u.1 { last_known_info = some info; updated_at = now }))
      × (info.terminal_id ≢ id → get s' id ≡ get s id)
registration_keeps s info name notes tags at now id = (
  register-get _ info now _ (update_meta-get s info.terminal_id name notes tags at),
  λ ne.
      register-get_ne _ info now id ne
      ∙ update_meta-get_ne s info.terminal_id name notes tags at id ne,
)
