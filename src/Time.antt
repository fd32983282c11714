-- ===== src/Time.antt =====
-- Rust's `std::time`: an `Instant` is a number of nanoseconds since some start, a `Duration` a number
-- of nanoseconds. `duration_since` saturates at zero, as in the standard library.
pub mod Window
use at_pc.Common.{ℕ, ◌+◌, ◌-◌, ◌*◌, ◌/◌, ◌%◌, Bool, leb, ltb, if◌then◌else◌}

abbrev pub Instant : Type 0
Instant = ℕ

abbrev pub Duration : Type 0
Duration = ℕ

abbrev pub nanos : ℕ
nanos = 1_000_000_000

abbrev pub from_secs : ℕ → Duration
from_secs n = n * nanos

abbrev pub as_secs : Duration → ℕ
as_secs d = d / nanos

abbrev pub subsec_nanos : Duration → ℕ
subsec_nanos d = d % nanos

abbrev pub duration_since : Instant → Instant → Duration
duration_since now t = now - t

-- `now.duration_since(t) <= window`
abbrev pub within : Duration → Instant → Instant → Bool
within window now t = leb (duration_since now t) window
