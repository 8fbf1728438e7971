-- ===== src/Transforms/ConstantFold.antt =====
-- llvm-transforms/src/constant_fold.rs: folding of the integer instructions. Overflow of a shift and
-- a failed `debug_assert` panic, as they do in a build with these checks.
pub mod Width
pub mod Operands
pub mod Quotient
pub mod Division
pub mod Wrapping
pub mod Compare
pub mod Shift
use Prim.Native.Nat.{ℕ, ◌+◌, ◌-◌, ◌*◌, ◌/◌, ◌%◌, ◌^◌, bit_and, bit_or, bit_xor}
use mathlib.Core.Bool.{Bool, true, false, not, ◌&&◌, ◌||◌}
use mathlib.Core.Option.{none, some}
use llvm_in_rust.Base.{ltb, leb, ◌==◌, if◌then◌else◌}
use llvm_in_rust.Base.Attempt.{Attempt, panicked, declined, done, ◌>>=◌, expect}
use llvm_in_rust.Base.Int.{
  ℤ, pos, negsuc, negate, as_i64, as_u64, asr, div_trunc, rem_trunc, ltz, eqz,
}
use llvm_in_rust.Ir.Ids.{TypeId, ConstId, ValueRef, constant}
use llvm_in_rust.Ir.Ops.{IntPredicate, eq, ne, ugt, uge, ult, ule, sgt, sge, slt, sle}
use llvm_in_rust.Ir.Types.{TypeData}
use llvm_in_rust.Ir.Value.{ConstantData}
use llvm_in_rust.Ir.Instr.{
  InstrKind, add, sub, mul, udiv, sdiv, urem, srem, and, or, xor, shl, lshr, ashr, icmp, select,
}
use llvm_in_rust.Ir.Context.{Context, get_type}
use llvm_in_rust.Ir.Constants.{const_int, get_const}

unfoldable pub int_of : ConstantData → Attempt (TypeId × ℕ)
int_of (ConstantData.int ty val) = done (ty, val)
int_of _ = declined

-- `const_int` of the module.
unfoldable pub const_int_value : Context → ValueRef → Attempt (TypeId × ℕ)
const_int_value ctx (constant cid) = expect (get_const ctx cid) >>= int_of
const_int_value ctx _ = declined

unfoldable pub sign_extend : ℕ → ℕ → Attempt ℤ
sign_extend val bits =
    if ltb 0 bits && leb bits 64
    then done (asr (as_i64 (val * 2 ^ (64 - bits) % 2 ^ 64)) (64 - bits))
    else panicked

unfoldable pub trunc_bits : ℕ → ℕ → ℕ
trunc_bits val bits = if leb 64 bits then val else bit_and val (2 ^ bits - 1)

unfoldable pub width_of : TypeData → Attempt ℕ
width_of (TypeData.integer bits) = done bits
width_of _ = declined

unfoldable pub int_bit_width : Context → TypeId → Attempt ℕ
int_bit_width ctx ty = expect (get_type ctx ty) >>= width_of

unfoldable pub shift_mask : Context → TypeId → Attempt ℕ
shift_mask ctx ty = do bits ← int_bit_width ctx ty; done (bits - 1)

-- A shift of a u64 by 64 or more overflows.
unfoldable pub checked_shift : ℕ → Attempt ℕ
checked_shift s = if ltb s 64 then done s else panicked

-- A signed comparison of the two values.
unfoldable pub signed_test : (ℤ → ℤ → Bool) → ℕ → ℕ → ℕ → Attempt Bool
signed_test test l r bits = do sl ← sign_extend l bits; sr ← sign_extend r bits; done (test sl sr)

unfoldable pub icmp_eval : IntPredicate → ℕ → ℕ → ℕ → Attempt Bool
icmp_eval eq l r bits = done (l == r)
icmp_eval ne l r bits = done (not (l == r))
icmp_eval ugt l r bits = done (ltb r l)
icmp_eval uge l r bits = done (leb r l)
icmp_eval ult l r bits = done (ltb l r)
icmp_eval ule l r bits = done (leb l r)
icmp_eval sgt l r bits = signed_test (λ a b. ltz b a) l r bits
icmp_eval sge l r bits = signed_test (λ a b. not (ltz a b)) l r bits
icmp_eval slt l r bits = signed_test ltz l r bits
icmp_eval sle l r bits = signed_test (λ a b. not (ltz b a)) l r bits

unfoldable pub fold_sdiv : ℕ → ℕ → ℕ → Attempt ℕ
fold_sdiv bits l r = do
  sl ← sign_extend l bits
  sr ← sign_extend r bits
  let type_min = if leb 64 bits then negate (2 ^ 63) else negate (2 ^ (bits - 1))
  if eqz sr (pos 0) || eqz sl type_min && eqz sr (negsuc 0)
      then declined
      else done (trunc_bits (as_u64 (div_trunc sl sr)) bits)

unfoldable pub fold_srem : ℕ → ℕ → ℕ → Attempt ℕ
fold_srem bits l r = do
  sl ← sign_extend l bits
  sr ← sign_extend r bits
  if eqz sr (pos 0) then declined else done (trunc_bits (as_u64 (rem_trunc sl sr)) bits)

unfoldable pub fold_ashr : ℕ → ℕ → ℕ → ℕ → Attempt ℕ
fold_ashr mask bits l r = do
  sl ← sign_extend l bits
  s ← checked_shift (bit_and r mask)
  done (trunc_bits (as_u64 (asr sl s)) bits)

-- The two operands' values, the type of the left one, and the constant of what is made of them.
unfoldable pub fold_binary :
    Context
    → ValueRef
    → ValueRef
    → (TypeId → ℕ → ℕ → Attempt (TypeId × ℕ))
    → Attempt (Context × ConstId)
fold_binary ctx lhs rhs f = do
  (ty, l) ← const_int_value ctx lhs
  (_, r) ← const_int_value ctx rhs
  (ty', v) ← f ty l r
  done (const_int ctx ty' v)

-- A result of the operands' type.
unfoldable pub typed : TypeId → Attempt ℕ → Attempt (TypeId × ℕ)
typed ty m = do v ← m; done (ty, v)

unfoldable pub const_id_of : ValueRef → Attempt ConstId
const_id_of (constant cid) = done cid
const_id_of _ = declined

unfoldable pub try_fold : Context → InstrKind → Attempt (Context × ConstId)
try_fold ctx (add _ lhs rhs) = fold_binary ctx lhs rhs (λ ty l r. done (ty, (l + r) % 2 ^ 64))
try_fold ctx (sub _ lhs rhs) =
    fold_binary ctx lhs rhs (λ ty l r. done (ty, (l + 2 ^ 64 - r) % 2 ^ 64))
try_fold ctx (mul _ lhs rhs) = fold_binary ctx lhs rhs (λ ty l r. done (ty, l * r % 2 ^ 64))
try_fold ctx (udiv _ lhs rhs) =
    fold_binary ctx lhs rhs (λ ty l r. if r == 0 then declined else done (ty, l / r))
try_fold ctx (sdiv _ lhs rhs) =
    fold_binary ctx lhs rhs
      (λ ty l r. do bits ← int_bit_width ctx ty; typed ty (fold_sdiv bits l r))
try_fold ctx (urem lhs rhs) =
    fold_binary ctx lhs rhs (λ ty l r. if r == 0 then declined else done (ty, l % r))
try_fold ctx (srem lhs rhs) =
    fold_binary ctx lhs rhs
      (λ ty l r. do bits ← int_bit_width ctx ty; typed ty (fold_srem bits l r))
try_fold ctx (and lhs rhs) = fold_binary ctx lhs rhs (λ ty l r. done (ty, bit_and l r))
try_fold ctx (or lhs rhs) = fold_binary ctx lhs rhs (λ ty l r. done (ty, bit_or l r))
try_fold ctx (xor lhs rhs) = fold_binary ctx lhs rhs (λ ty l r. done (ty, bit_xor l r))
try_fold ctx (shl _ lhs rhs) = fold_binary ctx lhs rhs (λ ty l r. do
  mask ← shift_mask ctx ty
  s ← checked_shift (bit_and r mask)
  done (ty, l * 2 ^ s % 2 ^ 64))
try_fold ctx (lshr _ lhs rhs) = fold_binary ctx lhs rhs (λ ty l r. do
  mask ← shift_mask ctx ty
  s ← checked_shift (bit_and r mask)
  done (ty, l / 2 ^ s))
try_fold ctx (ashr _ lhs rhs) = fold_binary ctx lhs rhs (λ ty l r. do
  mask ← shift_mask ctx ty
  bits ← int_bit_width ctx ty
  typed ty (fold_ashr mask bits l r))
try_fold ctx (icmp pred lhs rhs) = fold_binary ctx lhs rhs (λ ty l r. do
  bits ← int_bit_width ctx ty
  result ← icmp_eval pred l r bits
  done (ctx.i1_ty, if result then 1 else 0))
try_fold ctx (select cond then_val else_val) = do
  (_, c) ← const_int_value ctx cond
  cid ← const_id_of (if c == 0 then else_val else then_val)
  done (ctx, cid)
try_fold ctx _ = declined
