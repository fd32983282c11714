-- ===== src/Server/Audit/Tests.antt =====
-- audit.rs at concrete inputs: a file is a byte or two.
use at_pc.Common.{
  refl, true, ℕ, ◌-◌, ◌≤◌, ◌<◌, ◌≡◌, none, some, [], ◌∷◌, arith, nat_beq, if◌then◌else◌, length,
}
use at_pc.Server.Audit.{Files}
use at_pc.Server.Audit.Snapshot.{open_archives, max_archives}
use at_pc.Server.Audit.Retry.{Attempt, ok, transient, done, rotate_retrying}
use at_pc.Server.Audit.Rotation.{HasRoom, interrupted, rotate_retrying-loses}
use at_pc.Server.Audit.Write.{write_record}
use at_pc.Server.Audit.Write.Laws.{Wrote, write_record-Wrote}

-- An active file and one archive.
abbrev two_files : Files
two_files g = if nat_beq g 0 then some (1 ∷ []) else if nat_beq g 1 then some (2 ∷ []) else none

two_files-HasRoom : HasRoom two_files 5
two_files-HasRoom h l = ground (arith, l)

rotate_retrying-loses_example :
    let (after, result) = rotate_retrying 5 5 (interrupted 2) (λ n. true) (λ g. some (g ∷ [])) in
    (result ≡ some done)
    × ((h : ℕ) → 1 ≤ h → h ≤ 3 → after h ≡ some ((h - 1) ∷ []))
    × (after 4 ≡ none)
    × ((h : ℕ) → 5 ≤ h → h < 5 → after h ≡ some ((h - 2) ∷ []))
    × (length (open_archives after max_archives 1) ≤ 3)
rotate_retrying-loses_example =
    rotate_retrying-loses (λ g. some (g ∷ [])) 5 2 3 (λ n. true) refl (omega arith) (omega arith)

-- The first call is interrupted, the second takes two bytes, the others one.
abbrev takes : ℕ → Attempt ℕ
takes k = if nat_beq k 0 then transient else if nat_beq k 1 then ok 2 else ok 1

write_record-Wrote_example :
    Wrote
      (record { bytes = 9 ∷ []; calls = 0 })
      (1 ∷ 2 ∷ 3 ∷ [])
      (write_record 5 takes (record { bytes = 9 ∷ []; calls = 0 }) (1 ∷ 2 ∷ 3 ∷ []))
write_record-Wrote_example =
    write_record-Wrote 5 takes (record { bytes = 9 ∷ []; calls = 0 }) (1 ∷ 2 ∷ 3 ∷ [])
