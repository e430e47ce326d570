-- ===== src/Base/Int.antt =====
-- C's `int` where its sign matters: arguments that are checked for a range, and results.
use Prim.Native.Nat.{ℕ, ◌<◌}
use mathlib.Core.Path.{◌≡◌}
use mathlib.Core.Option.{Option, none, some}
use native.Mathlib.Omega.{arith}
use har_lin_kernel.Base.Tests.{ltb, if◌then◌else◌}

-- `negsuc n` is -(n + 1).
pub data ℤ : Type 0 where
  pos : ℕ → ℤ
  negsuc : ℕ → ℤ

-- The guard `i < 0 || i >= n` that stands before an array access: what passes it is an index.
abbrev pub index : ℕ → ℤ → Option ℕ
index n (pos i) = if ltb i n then some i else none
index n (negsuc _) = none

pub index-pos : (n i : ℕ) → i < n → index n (pos i) ≡ some i
index-pos n i h = ground arith

pub index-lt : (n : ℕ) (z : ℤ) (i : ℕ) → index n z ≡ some i → i < n
index-lt n (pos k) i h = ground arith
index-lt n (negsuc k) i h = ground arith
