-- ===== src/Common/Int.antt =====
-- The integers that error codes are.
use Prim.Native.Nat.{ℕ, ◌-◌}

-- `negsuc n` is -(n + 1).
pub data ℤ : Type 0 where
  pos : ℕ → ℤ
  negsuc : ℕ → ℤ

-- -n, for a positive n.
abbrev pub minus : ℕ → ℤ
minus n = negsuc (n - 1)
