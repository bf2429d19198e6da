-- ===== src/Base/Clock.antt =====
-- `std::time::Duration` and the instants of both clocks, in nanoseconds.
use Prim.Native.Nat.{ℕ, ◌*◌, ◌/◌}

abbrev pub seconds : ℕ → ℕ
seconds n = n * 1_000_000_000

-- `Duration::as_secs`
abbrev pub as_secs : ℕ → ℕ
as_secs d = d / 1_000_000_000
