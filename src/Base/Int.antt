-- ===== src/Base/Int.antt =====
-- Machine integers with a sign, as the source reads exit codes: compared with constants only.
use homebased.Base.Tests.{◌==◌}
use Prim.Native.Nat.{ℕ}
use mathlib.Core.Bool.{Bool, false}

-- `negsuc n` is -(n + 1).
pub data ℤ : Type 0 where
  pos : ℕ → ℤ
  negsuc : ℕ → ℤ

-- Equality with a constant that is not negative.
abbrev pub is_pos : ℤ → ℕ → Bool
is_pos (pos n) k = n == k
is_pos (negsuc n) k = false
