-- ===== src/Server/Audit/Redact.antt =====
-- audit.rs: `redact_token` and the prefix that it is made of.
use at_pc.Common.{ℕ, Str, ascii, Bool, not, ◌++◌, take, drop, is_empty, trim, if◌then◌else◌}

-- A prefix of at most `max_scalars` characters, and whether it is shorter than the text.
unfoldable pub truncate_to_scalars : Str → ℕ → Str × Bool
truncate_to_scalars value max_scalars =
    (take max_scalars value, not (is_empty (drop max_scalars value)))

unfoldable pub redact_token : Str → Str
unfolding truncate_to_scalars
redact_token token =
    let clean = trim token in
    if (truncate_to_scalars clean 4).1
    then (truncate_to_scalars clean 3).0 ++ ascii "***"
    else ascii "***"
