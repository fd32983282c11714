-- ===== src/Server/Audit/Snapshot.antt =====
-- audit.rs, `export_jsonl_path`: the archives that are found, and the bytes that are exported. The
-- writer's thread exports between two rotations, so no file is opened twice under two names.
use at_pc.Common.{
  ℕ, zero, suc, ◌+◌, Bool, false, not, Option, none, some, List, [], ◌∷◌, ◌++◌, nat_beq,
  if◌then◌else◌,
}
use at_pc.Server.Audit.{File, Files}

-- The loop over the generations stops at the first one that is missing.
unfoldable pub open_archives : Files → ℕ → ℕ → List File
open_archives files zero g = []
open_archives files (suc n) g =
    let rest = open_archives files n (g + 1) in elim (files g) [ none ↦ [] | some f ↦ f ∷ rest ]

unfoldable pub ends_with_newline : File → Bool
ends_with_newline [] = false
ends_with_newline (b ∷ []) = nat_beq b b'\n'
ends_with_newline (b ∷ c ∷ f) = ends_with_newline (c ∷ f)

abbrev pub is_missing_newline : File → Bool
unfolding ends_with_newline
is_missing_newline [] = false
is_missing_newline (b ∷ f) = not (ends_with_newline (b ∷ f))

unfoldable pub append_exported_jsonl : File → File → File
unfolding is_missing_newline
append_exported_jsonl out file =
    out ++ (if is_missing_newline file then file ++ b'\n' ∷ [] else file)

-- `archives.into_iter().rev()`
unfoldable pub export_archives : List File → File
unfolding append_exported_jsonl
export_archives [] = []
export_archives (f ∷ fs) = append_exported_jsonl (export_archives fs) f

abbrev pub append_current : File → Option File → File
unfolding append_exported_jsonl
append_current out none = out
append_current out (some f) = append_exported_jsonl out f

-- `1..=1024`
unfoldable pub max_archives : ℕ
max_archives = 1024

unfoldable pub export_jsonl_path : Files → File
unfolding append_current open_archives export_archives
export_jsonl_path files =
    append_current (export_archives (open_archives files max_archives 1)) (files 0)
