-- ===== src/Prelude/Integers.antt =====
-- Integers over the native numbers: levels in decibels, and signed samples.
use Prim.Native.Nat.{ℕ, zero, suc, ◌-◌}
use mathlib.Core.Bool.{Bool, true, false}
use ip_commandmic.Prelude.Tests.{leb, if◌then◌else◌}

-- `pos n` is n, and `negsuc n` is - (n + 1).
pub data ℤ : Type 0 where
  pos negsuc : ℕ → ℤ

-- Whether a ≤ b.
abbrev pub leb_int : ℤ → ℤ → Bool
leb_int (pos a) (pos b) = leb a b
leb_int (pos a) (negsuc b) = false
leb_int (negsuc a) (pos b) = true
leb_int (negsuc a) (negsuc b) = leb b a

-- - n
abbrev pub negative : ℕ → ℤ
negative zero = pos 0
negative (suc n) = negsuc n

-- a - b
abbrev pub minus : ℕ → ℕ → ℤ
minus a b = if leb b a then pos (a - b) else negative (b - a)
