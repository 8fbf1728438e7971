-- ===== src/Base/Int.antt =====
-- Signed integers over the native numbers, and the operations of `i64` before they wrap.
use Prim.Native.Nat.{ℕ, zero, suc, ◌-◌, ◌/◌, ◌%◌, ◌^◌}
use mathlib.Core.Bool.{Bool, true, false}
use llvm_in_rust.Base.Tests.{ltb, ◌==◌, if◌then◌else◌}

-- `negsuc n` is -(n + 1).
pub data ℤ : Type 0 where
  pos : ℕ → ℤ
  negsuc : ℕ → ℤ

abbrev pub negate : ℕ → ℤ
negate zero = pos 0
negate (suc n) = negsuc n

-- `as i64` of a u64, and `as u64` of a signed number.
unfoldable pub as_i64 : ℕ → ℤ
as_i64 n = if ltb n (2 ^ 63) then pos n else negate (2 ^ 64 - n)

unfoldable pub as_u64 : ℤ → ℕ
as_u64 (pos n) = n % 2 ^ 64
as_u64 (negsuc n) = 2 ^ 64 - 1 - n % 2 ^ 64

-- The arithmetic shift to the right.
unfoldable pub asr : ℤ → ℕ → ℤ
asr (pos n) s = pos (n / 2 ^ s)
asr (negsuc n) s = negsuc (n / 2 ^ s)

-- Division and remainder, towards zero.
unfoldable pub div_trunc : ℤ → ℤ → ℤ
div_trunc (pos a) (pos b) = pos (a / b)
div_trunc (pos a) (negsuc b) = negate (a / suc b)
div_trunc (negsuc a) (pos b) = negate (suc a / b)
div_trunc (negsuc a) (negsuc b) = pos (suc a / suc b)

unfoldable pub rem_trunc : ℤ → ℤ → ℤ
rem_trunc (pos a) (pos b) = pos (a % b)
rem_trunc (pos a) (negsuc b) = pos (a % suc b)
rem_trunc (negsuc a) (pos b) = negate (suc a % b)
rem_trunc (negsuc a) (negsuc b) = negate (suc a % suc b)

unfoldable pub ltz : ℤ → ℤ → Bool
ltz (pos a) (pos b) = ltb a b
ltz (pos a) (negsuc b) = false
ltz (negsuc a) (pos b) = true
ltz (negsuc a) (negsuc b) = ltb b a

unfoldable pub eqz : ℤ → ℤ → Bool
eqz (pos a) (pos b) = a == b
eqz (negsuc a) (negsuc b) = a == b
eqz _ _ = false
