-- ===== src/Base/Machine.antt =====
-- Casts to the machine widths.
use Prim.Native.Nat.{ℕ, ◌%◌, ◌^◌, ◌<◌}
use mathlib.Core.Path.{◌≡◌}
use native.Mathlib.Omega.{arith}

-- `as u32`
abbrev pub as_u32 : ℕ → ℕ
as_u32 n = n % 2 ^ 32

pub as_u32_lem : (n : ℕ) → n < 2 ^ 32 → as_u32 n ≡ n
as_u32_lem n h = omega arith
