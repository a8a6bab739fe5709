-- ===== src/Prelude/Ints.antt =====
-- Integers over the native numbers, for the signed numbers of Go.
use Prim.Native.Nat.{ℕ, zero, suc}
use mathlib.Core.Bool.{Bool, true, false}

pub data ℤ : Type 0 where
  pos negsuc : ℕ → ℤ

-- `0 < n`
abbrev pub is_positive : ℤ → Bool
is_positive (pos zero) = false
is_positive (pos (suc n)) = true
is_positive (negsuc n) = false

-- `0 <= n`
abbrev pub is_natural : ℤ → Bool
is_natural (pos n) = true
is_natural (negsuc n) = false
