-- ===== src/Server/MetaStore/Attempts.antt =====
-- meta_store.rs, `persist_snapshot` and `persist_snapshot_for_shutdown`: what the attempts to write one
-- snapshot come to.
use at_pc.Common.{ℕ, zero, suc, ◌<◌, ◌≤◌, ◌≡◌, Bool, true, arith, inl, inr, Bool-cases, ◌⊎◌, subst}
use at_pc.Server.MetaStore.{Snapshot}
use at_pc.Server.MetaStore.Writer.{
  Writer, Outcome, saved, unsynced, unsaved, persist_snapshot, persist_for_shutdown,
}

lt_or_eq : (k n : ℕ) → k < suc n → (k < n) ⊎ (k ≡ n)
lt_or_eq k n l = omega arith

-- One of the attempts that are left finds a disk that works.
abbrev pub SomeSaved : ℕ → (ℕ → Outcome) → Type 0
SomeSaved n outcomes = (k : ℕ) × k < n × (outcomes k ≡ saved)

now_or_later :
    (n : ℕ) (outcomes : ℕ → Outcome)
    → SomeSaved (suc n) outcomes
    → (outcomes n ≡ saved) ⊎ SomeSaved n outcomes
now_or_later n outcomes (k, l, e) = elim (lt_or_eq k n l) [
  | inl u ↦ inr (k, u, e)
  | inr q ↦ inl (subst (λ i. outcomes i ≡ saved) q e)
]

-- Attempts at `s` from a writer, and whether one of them can write.
pub record Tried (w : Writer) (s : Snapshot) (can : Type 0) (r : Writer × Bool) : Type 0 where
  pub file : r.0.persisted_version ≤ r.0.disk.version
  pub grows : w.persisted_version ≤ r.0.persisted_version
  pub acknowledged : r.1 ≡ true → s.version ≤ r.0.persisted_version
  pub succeeds : can → r.1 ≡ true

persist-Tried :
    (w : Writer) (s : Snapshot) (outcome : Outcome)
    → w.persisted_version ≤ w.disk.version
    → Tried w s (outcome ≡ saved) (persist_snapshot w s outcome)
unfolding persist_snapshot
persist-Tried w s saved h = record {
  file = ground arith;
  grows = ground arith;
  acknowledged = ground arith;
  succeeds = ground arith;
}
persist-Tried w s unsynced h = record {
  file = ground arith;
  grows = ground arith;
  acknowledged = ground arith;
  succeeds = ground arith;
}
persist-Tried w s unsaved h = record {
  file = ground arith;
  grows = ground arith;
  acknowledged = ground arith;
  succeeds = ground arith;
}

pub shutdown-Tried :
    (n : ℕ) (w : Writer) (s : Snapshot) (outcomes : ℕ → Outcome)
    → w.persisted_version ≤ w.disk.version
    → Tried w s (SomeSaved n outcomes) (persist_for_shutdown n w s outcomes)
unfolding persist_for_shutdown
shutdown-Tried zero w s outcomes h = record {
  file = h;
  grows = grind arith;
  acknowledged = ground arith;
  succeeds = λ (k, l, e). ground arith;
}
shutdown-Tried (suc n) w s outcomes h =
    let p = persist-Tried w s (outcomes n) h in
    let r = shutdown-Tried n (persist_snapshot w s (outcomes n)).0 s outcomes p.file in
    elim (Bool-cases (persist_snapshot w s (outcomes n)).1) [
      | inl q ↦ record {
        file = ground (arith, p.file);
        grows = ground (arith, p.grows);
        acknowledged = ground (arith, p.acknowledged);
        succeeds = ground arith;
      }
      | inr q ↦ record {
        file = ground (arith, r.file);
        grows = ground (arith, p.grows, r.grows);
        acknowledged = ground (arith, r.acknowledged);
        succeeds = λ t. elim (now_or_later n outcomes t) [
          | inl e ↦ ground (arith, p.succeeds e)
          | inr u ↦ ground (arith, r.succeeds u)
        ];
      }
    ]
