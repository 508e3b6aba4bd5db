-- ===== src/Common/Integers.antt =====
-- Signed integers, for the differences of times.
use Prim.Native.Nat.{ℕ, zero, suc, ◌-◌, ◌/◌}
use mgba_server.Common.Tests.{leb, if◌then◌else◌}

pub data ℤ : Type 0 where
  pos : ℕ → ℤ
  negsuc : ℕ → ℤ

abbrev pub negate : ℕ → ℤ
negate zero = pos zero
negate (suc n) = negsuc n

-- `(a - b).num_milliseconds()` of two times in nanoseconds, which rounds towards zero.
unfoldable pub num_milliseconds : ℕ → ℕ → ℤ
num_milliseconds a b = if leb b a then pos ((a - b) / 1000000) else negate ((b - a) / 1000000)
