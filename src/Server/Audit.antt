-- ===== src/Server/Audit.antt =====
-- crates/server/src/audit.rs, the files of the audit trail. Generation 0 is the active file, generation
-- `g` the archive with the ending `.g`. Whether the operating system lets an operation through is
-- an argument; an operation on a missing file is ignored, as in the code.
pub mod Redact
pub mod Shift
pub mod Snapshot
pub mod Retry
pub mod Rotation
pub mod Write
pub mod Writer
pub mod Queue
pub mod Trail
pub mod Held
pub mod Grows
pub mod Errors
pub mod Kept
pub mod Durable
pub mod Flush
pub mod Failed
pub mod Sticky
pub mod Tests
pub mod QueueTests
use at_pc.Common.{
  ℕ, zero, suc, ◌+◌, ◌-◌, max, Bool, true, false, Option, none, some, List, nat_beq, if◌then◌else◌,
}

pub record AuditRotation : Type 0 where
  pub max_file_bytes : ℕ
  pub retain_files : ℕ

abbrev pub File : Type 0
File = List ℕ

-- The files beside each other, by generation.
abbrev pub Files : Type 0
Files = ℕ → Option File

abbrev pub set_file : Files → ℕ → Option File → Files
set_file files g f h = if nat_beq h g then f else files h

abbrev pub moved : Files → ℕ → Option File → Files
moved files g none = files
moved files g (some f) = set_file (set_file files g none) (g + 1) (some f)

-- `ignore_not_found(rename(archive_path(path, g), archive_path(path, g + 1)))`
unfoldable pub rename_up : Files → ℕ → Files
rename_up files g = moved files g (files g)

-- `for generation in (1..=n).rev()`
unfoldable pub shift_down : Files → ℕ → (ℕ → Bool) → Files × Bool
unfolding rename_up
shift_down files zero renames = (files, true)
shift_down files (suc n) renames =
    let rest = shift_down (rename_up files (suc n)) n renames in
    if renames (suc n) then rest else (files, false)

abbrev pub rename_active : Files × Bool → (ℕ → Bool) → Files × Bool
rename_active (files, false) renames = (files, false)
rename_active (files, true) renames =
    if renames 0 then (rename_up files 0, true) else (files, false)

unfoldable pub rotate_log_files : Files → ℕ → Bool → (ℕ → Bool) → Files × Bool
unfolding shift_down
rotate_log_files files retain_files removes renames =
    let retain = max retain_files 1 in
    if nat_beq retain 1
    then (if removes then (set_file files 0 none, true) else (files, false))
    else if removes
    then rename_active (shift_down (set_file files (retain - 1) none) (retain - 2) renames) renames
    else (files, false)
