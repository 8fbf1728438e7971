-- ===== src/Transforms/ConstantFold/Operands.antt =====
-- llvm-transforms/src/constant_fold.rs: two constant operands of an integer type.
use llvm_in_rust.Base.{ℕ, ◌^◌, ◌≤◌, ◌<◌, ◌≡◌, refl, some}
use llvm_in_rust.Base.Attempt.{Attempt, done, ◌>>=◌}
use llvm_in_rust.Ir.Ids.{TypeId, ValueRef}
use llvm_in_rust.Ir.Types.{TypeData}
use llvm_in_rust.Ir.Context.{Context, get_type}
use llvm_in_rust.Ir.Constants.{const_int}
use llvm_in_rust.Transforms.ConstantFold.{const_int_value, fold_binary, int_bit_width, width_of}

-- Both operands are constants of one integer type of at most 64 bits, stored in its width.
pub record IntOperands (ctx : Context) (lhs rhs : ValueRef) (ty bits l r : ℕ) : Type 0 where
  pub left : const_int_value ctx lhs ≡ done (ty, l)
  pub right : const_int_value ctx rhs ≡ done (ty, r)
  pub width : get_type ctx ty ≡ some (TypeData.integer bits)
  pub wide : 0 < bits
  pub narrow : bits ≤ 64
  pub left_fits : l < 2 ^ bits
  pub right_fits : r < 2 ^ bits

module _ {ctx : Context} {lhs rhs : ValueRef} {ty bits l r : ℕ}
    (h : IntOperands ctx lhs rhs ty bits l r) where
  pub fold_binary_lem :
      (f : TypeId → ℕ → ℕ → Attempt (TypeId × ℕ))
      → fold_binary ctx lhs rhs f ≡ (f ty l r >>= λ p. done (const_int ctx p.0 p.1))
  unfolding fold_binary
  fold_binary_lem f = rw (h.left, h.right) refl

  pub int_bit_width_lem : int_bit_width ctx ty ≡ done bits
  unfolding int_bit_width width_of
  int_bit_width_lem = rw h.width refl
