-- ===== src/Transforms/ConstantFold/Wrapping.antt =====
-- llvm-transforms/src/constant_fold.rs: folding of sums, differences, products and bitwise
-- operations.
use native.Mathlib.Nat.{mod-eq_of_lt, mul-add-mod_self_left, pow-suc}
use llvm_in_rust.Base.{ℕ, suc, ◌+◌, ◌-◌, ◌*◌, ◌%◌, ◌^◌, ◌≤◌, ◌<◌, ◌≡◌, ap, ◌∙◌, arith}
use llvm_in_rust.Base.Pow.{pow_pos, pow_split, mod_pow, pow_mono}
use Prim.Native.Nat.{min, max, bit_and, bit_or, bit_xor}
use llvm_in_rust.Base.Bits.{
  bit, bit_and_fits, bit_or_fits, bit_xor_fits, bit-bit_and, bit-bit_or, bit-bit_xor,
}
use llvm_in_rust.Base.Attempt.{done}
use llvm_in_rust.Ir.Ids.{ValueRef}
use llvm_in_rust.Ir.Ops.{IntArithFlags}
use llvm_in_rust.Ir.Instr.{add, sub, mul, and, or, xor}
use llvm_in_rust.Ir.Context.{Context}
use llvm_in_rust.Ir.Constants.{const_int}
use llvm_in_rust.Transforms.ConstantFold.{try_fold}
use llvm_in_rust.Transforms.ConstantFold.Operands.{IntOperands, fold_binary_lem}

-- A wrapping difference, cut to a shorter width.
sub_mod :
    (l r bits : ℕ)
    → bits ≤ 64
    → r < 2 ^ bits
    → (l + 2 ^ 64 - r) % 2 ^ 64 % 2 ^ bits ≡ (l + (2 ^ bits - r)) % 2 ^ bits
sub_mod l r bits hi hr =
    mod_pow (l + 2 ^ 64 - r) bits 64 hi
    ∙ ap (λ (t : ℕ). t % 2 ^ bits) split
    ∙ mul-add-mod_self_left (2 ^ bits) (2 ^ (64 - bits) - 1) (l + (2 ^ bits - r))
  where
    split : l + 2 ^ 64 - r ≡ 2 ^ bits * (2 ^ (64 - bits) - 1) + (l + (2 ^ bits - r))
    split =
        let whole : 2 ^ (64 - bits) ≡ 1 + (2 ^ (64 - bits) - 1) =
          omega (arith, pow_pos (64 - bits)) in
        omega (arith, pow_split bits 64 hi, ap (λ (t : ℕ). 2 ^ bits * t) whole)

module _ {ctx : Context} {lhs rhs : ValueRef} {ty bits l r : ℕ}
    (h : IntOperands ctx lhs rhs ty bits l r) where
  -- Folding a sum, a difference or a product of two constants of an integer type of 1 to 64 bits
  -- gives a constant of the type whose low bits, as many as the type has, are those of the result
  -- in two's complement.
  pub try_fold_wrapping_lem :
      (flags : IntArithFlags)
      → ((v : ℕ) × (try_fold ctx (add flags lhs rhs) ≡ done (const_int ctx ty v))
          × (v % 2 ^ bits ≡ (l + r) % 2 ^ bits))
        × ((v : ℕ) × (try_fold ctx (sub flags lhs rhs) ≡ done (const_int ctx ty v))
            × (v % 2 ^ bits ≡ (l + (2 ^ bits - r)) % 2 ^ bits))
        × ((v : ℕ) × (try_fold ctx (mul flags lhs rhs) ≡ done (const_int ctx ty v))
            × (v % 2 ^ bits ≡ l * r % 2 ^ bits))
  unfolding try_fold
  try_fold_wrapping_lem flags = (
    ((l + r) % 2 ^ 64, fold_binary_lem h _, mod_pow (l + r) bits 64 h.narrow),
    ((l + 2 ^ 64 - r) % 2 ^ 64, fold_binary_lem h _, sub_mod l r bits h.narrow h.right_fits),
    (l * r % 2 ^ 64, fold_binary_lem h _, mod_pow (l * r) bits 64 h.narrow),
  )

  -- The constant that a sum folds to is not stored in the width of a type of fewer than 64 bits
  -- when the sum overflows the type.
  pub try_fold_add_exceeds :
      (flags : IntArithFlags)
      → bits < 64
      → 2 ^ bits ≤ l + r
      → (v : ℕ) × (try_fold ctx (add flags lhs rhs) ≡ done (const_int ctx ty v)) × (2 ^ bits ≤ v)
  unfolding try_fold
  try_fold_add_exceeds flags short over = (
    l + r,
    fold_binary_lem h _ ∙ ap (λ (t : ℕ). done (const_int ctx ty t)) (mod-eq_of_lt room),
    over,
  )
    where
      room : l + r < 2 ^ 64
      room =
          omega
            (arith, pow-suc 2 bits, pow_mono (suc bits) 64 (omega arith), h.left_fits, h.right_fits)

  -- Folding a bitwise operation on two constants of an integer type of 1 to 64 bits gives a
  -- constant of the type that fits the type's width, and of which each binary digit is, for `and`,
  -- the lesser of the operands' digits at its place, for `or` the greater, and for `xor` their sum
  -- modulo 2.
  pub try_fold_bitwise_lem :
      ((v : ℕ) × (try_fold ctx (and lhs rhs) ≡ done (const_int ctx ty v))
        × (v < 2 ^ bits)
        × ((i : ℕ) → bit v i ≡ min (bit l i) (bit r i)))
      × ((v : ℕ) × (try_fold ctx (or lhs rhs) ≡ done (const_int ctx ty v))
          × (v < 2 ^ bits)
          × ((i : ℕ) → bit v i ≡ max (bit l i) (bit r i)))
      × ((v : ℕ) × (try_fold ctx (xor lhs rhs) ≡ done (const_int ctx ty v))
          × (v < 2 ^ bits)
          × ((i : ℕ) → bit v i ≡ (bit l i + bit r i) % 2))
  unfolding try_fold
  try_fold_bitwise_lem = (
    (
      bit_and l r,
      fold_binary_lem h _,
      bit_and_fits bits l r h.left_fits h.right_fits,
      bit-bit_and l r,
    ),
    (
      bit_or l r,
      fold_binary_lem h _,
      bit_or_fits bits l r h.left_fits h.right_fits,
      bit-bit_or l r,
    ),
    (
      bit_xor l r,
      fold_binary_lem h _,
      bit_xor_fits bits l r h.left_fits h.right_fits,
      bit-bit_xor l r,
    ),
  )
