-- ===== src/Server/KeyStore/Admin.antt =====
-- keystore.rs: no operation takes away the last active admin key.
use at_pc.Common.{
  ℕ, zero, suc, ◌≤◌, ◌≡◌, refl, Str, Bool, false, Option, none, some, List, [], ◌∷◌, arith, str_eq,
  ==_iff, inl, inr, Option-cases, Bool-cases,
}
use at_pc.Map
use at_pc.Map.{Map}
use at_pc.Map.Laws.{get-insert}
use at_pc.Map.Distinct.{Distinct, insert-Distinct, modify-Distinct, remove-Distinct}
use at_pc.Map.Count.{count-insert, count-modify, count-modify_same, count-remove}
use at_pc.Time.{Instant}
use at_pc.Server.KeyStore.Credential.{parse_credential}
use at_pc.Protocol.{Role}
use at_pc.Server.KeyStore.{KeyKind, KeyRecord}
use at_pc.Server.KeyStore.Store.{
  DateTime, Crates, KeyStore, Draws, mint, is_active_admin, active_admin_count, is_last_admin,
  issue, revoke, retire, rotate, touch_last_used, verify, delete, id_in,
}
use at_pc.Server.KeyStore.Run.{
  StoreResult-cases, Op, issues, revokes, rotates, deletes, verifies, step, run, records-commit,
  Minted, mint-Minted,
}

-- The records have distinct ids, and an admin key that is not revoked is among them.
pub record Guarded (m : Map Str KeyRecord) : Type 0 where
  pub distinct : Distinct m
  pub some_admin : 1 ≤ active_admin_count m

insert-Guarded :
    (m : Map Str KeyRecord) (r : KeyRecord)
    → Map.get r.id m ≡ none
    → Guarded m
    → Guarded (Map.insert r.id r m)
insert-Guarded m r a g = record {
  distinct = insert-Distinct r.id r m g.distinct;
  some_admin = ground (arith, count-insert is_active_admin r.id r m g.distinct, g.some_admin);
}

-- Revoking or removing a key that the guard lets pass.
revoke-Guarded :
    (m : Map Str KeyRecord) (id : Str) (r : KeyRecord) (at : Str)
    → Map.get id m ≡ some r
    → is_last_admin r m ≡ false
    → Guarded m
    → Guarded (Map.modify id (λ r'. record r' { revoked_at = some at }) m)
unfolding is_last_admin is_active_admin
revoke-Guarded m id r at h l g = record {
  distinct = modify-Distinct id _ m g.distinct;
  some_admin = ground (
    arith,
    count-modify is_active_admin id (λ r'. record r' { revoked_at = some at }) m r g.distinct h,
    g.some_admin,
  );
}

remove-Guarded :
    (m : Map Str KeyRecord) (id : Str) (r : KeyRecord)
    → Map.get id m ≡ some r
    → is_last_admin r m ≡ false
    → Guarded m
    → Guarded (Map.remove id m)
unfolding is_last_admin
remove-Guarded m id r h l g = record {
  distinct = remove-Distinct id m g.distinct;
  some_admin = ground (arith, count-remove is_active_admin id m g.distinct, h, g.some_admin);
}

touch-Guarded :
    (m : Map Str KeyRecord) (id : Str) (f : KeyRecord → KeyRecord)
    → ((r : KeyRecord) → is_active_admin (f r) ≡ is_active_admin r)
    → Guarded m
    → Guarded (Map.modify id f m)
touch-Guarded m id f same g = record {
  distinct = modify-Distinct id f m g.distinct;
  some_admin = omega (arith, count-modify_same is_active_admin id f m same, g.some_admin);
}

-- The old key is still there beside the new one, and is not the last.
rotate_lem :
    (m : Map Str KeyRecord) (id : Str) (old r : KeyRecord)
    → Map.get id m ≡ some old
    → Minted m old.kind old.role r
    → Guarded m
    → (Map.get id (Map.insert r.id r m) ≡ some old)
      × (is_last_admin old (Map.insert r.id r m) ≡ false)
unfolding is_last_admin is_active_admin
rotate_lem m id old r h n g = (
  ground (arith, get-insert r.id id r m, ==_iff r.id id, n.absent),
  ground (
    arith,
    count-insert is_active_admin r.id r m g.distinct,
    n.absent,
    n.same_kind,
    n.same_role,
    n.not_revoked,
    g.some_admin,
  ),
)

module _ (c : Crates) where
  retire-Guarded :
      (m : Map Str KeyRecord) (id : Str) (old : KeyRecord) (grace : Option ℕ) (now : DateTime)
      → Map.get id m ≡ some old
      → is_last_admin old m ≡ false
      → Guarded m
      → Guarded (Map.modify id (retire c grace now) m)
  unfolding retire is_active_admin
  retire-Guarded m id old none now h l g = touch-Guarded m id _ (λ r. refl) g
  retire-Guarded m id old (some zero) now h l g = revoke-Guarded m id old (c.to_rfc3339 now) h l g
  retire-Guarded m id old (some (suc n)) now h l g =
      touch-Guarded m id (retire c (some (suc n)) now) (λ r. ground arith) g

  issue-Guarded :
      (s : KeyStore) (name : Str) (kind : KeyKind) (role : Option Role) (scopes : List Str)
      (device expires : Option Str) (d : Draws) (now : DateTime) (saved : Bool)
      → Guarded s.records
      → Guarded (issue c s name kind role scopes device expires d now saved).0.records
  unfolding issue
  issue-Guarded s name kind role scopes device expires d now saved g =
      elim (StoreResult-cases (mint c s.records name kind role scopes device expires d now)) [
        | inl (e, q) ↦ rw (q, issue) g
        | inr ((r, key), q) ↦
            rw (q, issue, records-commit s)
              (insert-Guarded s.records r
                (mint-Minted c s.records name kind role scopes device expires d now r key q).absent
                g)
      ]

  revoke_kept :
      (s : KeyStore) (id : Str) (now : DateTime) (saved : Bool)
      → Guarded s.records
      → Guarded (revoke c s id now saved).0.records
  unfolding revoke
  revoke_kept s id now saved g = elim (Option-cases (Map.get id s.records)) [
    | inl q ↦ rw (q, revoke) g
    | inr (r, q) ↦ elim (Bool-cases (is_last_admin r s.records)) [
      | inl last ↦ rw (q, revoke, last) g
      | inr more ↦
          rw (q, revoke, more, records-commit s)
            (revoke-Guarded s.records id r (c.to_rfc3339 now) q more g)
    ]
  ]

  rotate_kept :
      (s : KeyStore) (id : Str) (grace : Option ℕ) (d : Draws) (now : DateTime) (saved : Bool)
      → Guarded s.records
      → Guarded (rotate c s id grace d now saved).0.records
  unfolding rotate
  rotate_kept s id grace d now saved g = elim (Option-cases (Map.get id s.records)) [
    | inl q ↦ rw (q, rotate) g
    | inr (old, q) ↦
        elim (StoreResult-cases
          (mint c s.records old.name old.kind old.role old.scopes old.device_id none d now)) [
            | inl (e, p) ↦ rw (q, rotate, p) g
            | inr ((r, key), p) ↦
                let n =
                  mint-Minted c s.records old.name old.kind old.role old.scopes old.device_id none d
                    now r key p in
                let (there, not_last) = rotate_lem s.records id old r q n g in
                rw (q, rotate, p, records-commit s)
                  (retire-Guarded _ id old grace now there not_last
                    (insert-Guarded s.records r n.absent g))
          ]
  ]

  verify_kept :
      (s : KeyStore) (credential : Str) (inst : Instant) (now : DateTime) (saved : Bool)
      → Guarded s.records
      → Guarded (verify c s credential inst now saved).0.records
  unfolding verify touch_last_used is_active_admin
  verify_kept s credential inst now saved g = ground (
    arith,
    touch-Guarded s.records (id_in (parse_credential credential))
        (λ r. record r { last_used_at = some (c.to_rfc3339 now) }) (λ r. refl) g,
  )

delete_kept :
    (s : KeyStore) (id : Str) (saved : Bool)
    → Guarded s.records
    → Guarded (delete s id saved).0.records
unfolding delete
delete_kept s id saved g = elim (Option-cases (Map.get id s.records)) [
  | inl q ↦ rw (q, delete) g
  | inr (r, q) ↦ elim (Bool-cases (is_last_admin r s.records)) [
    | inl last ↦ rw (q, delete, last) g
    | inr more ↦ rw (q, delete, more, records-commit s) (remove-Guarded s.records id r q more g)
  ]
]

module _ (c : Crates) where
  step-Guarded : (s : KeyStore) (o : Op) → Guarded s.records → Guarded (step c s o).records
  unfolding step
  step-Guarded s (issues name kind role scopes device expires d now saved) g =
      issue-Guarded c s name kind role scopes device expires d now saved g
  step-Guarded s (revokes id now saved) g = revoke_kept c s id now saved g
  step-Guarded s (rotates id grace d now saved) g = rotate_kept c s id grace d now saved g
  step-Guarded s (deletes id saved) g = delete_kept s id saved g
  step-Guarded s (verifies credential inst now saved) g =
      verify_kept c s credential inst now saved g

  -- Whatever operations run on a store that has an active admin key (a secret key of role admin that
  -- is not revoked), in whatever order, whether their disk writes succeed or not: afterwards there is
  -- still one in memory, and every id still stands for one record.
  pub run-Guarded : (s : KeyStore) (os : List Op) → Guarded s.records → Guarded (run c s os).records
  unfolding run
  run-Guarded s [] g = g
  run-Guarded s (o ∷ os) g = run-Guarded (step c s o) os (step-Guarded s o g)
