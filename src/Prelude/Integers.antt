-- ===== src/Prelude/Integers.antt =====
-- Integers, for the counters that `int` reads from a file.
use Prim.Native.Nat.{ℕ, zero, suc}
use mathlib.Core.Bool.{Bool, false}
use local_content_processor.Prelude.Tests.{ltb}

-- `negsuc n` is below zero by n + 1.
pub data ℤ : Type 0 where
  pos negsuc : ℕ → ℤ

-- `n + 1`
abbrev pub next : ℤ → ℤ
next (pos n) = pos (suc n)
next (negsuc zero) = pos zero
next (negsuc (suc n)) = negsuc n

-- `n > m`
abbrev pub exceeds : ℤ → ℕ → Bool
exceeds (pos n) m = ltb m n
exceeds (negsuc n) m = false
