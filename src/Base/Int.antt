-- ===== src/Base/Int.antt =====
-- `int64_t` and `off_t` values as integers, with the one test that the code makes of them.
use Prim.Native.Nat.{ℕ}
use mathlib.Core.Bool.{Bool, false}
use stanford_cs240_sp21_labs.Base.Tests.{◌==◌}

-- `negsuc n` is -(n + 1).
pub data ℤ : Type 0 where
  pos : ℕ → ℤ
  negsuc : ℕ → ℤ

-- Whether a number that is not negative equals an integer.
abbrev pub same_offset : ℕ → ℤ → Bool
same_offset n (pos m) = n == m
same_offset n (negsuc m) = false
