-- ===== src/Transforms/ConstantFold/Shift.antt =====
-- llvm-transforms/src/constant_fold.rs: folding of shifts.
use Prim.Native.Nat.{bit_and}
use native.Mathlib.Nat.{mod-eq_of_lt, div-le_self}
use llvm_in_rust.Base.{ℕ, ◌-◌, ◌*◌, ◌/◌, ◌%◌, ◌^◌, ◌<◌, ◌≡◌, refl, ap, ◌∙◌, arith, Bool, lt→ltb}
use llvm_in_rust.Base.Pow.{mod_pow, pow_mono}
use llvm_in_rust.Base.Bits.{bit_and_mask}
use llvm_in_rust.Base.Attempt.{done}
use llvm_in_rust.Base.Int.{ℤ, pos, negsuc, asr, as_u64}
use llvm_in_rust.Ir.Ids.{ValueRef}
use llvm_in_rust.Ir.Ops.{IntArithFlags}
use llvm_in_rust.Ir.Instr.{shl, lshr, ashr}
use llvm_in_rust.Ir.Context.{Context}
use llvm_in_rust.Ir.Constants.{const_int}
use llvm_in_rust.Transforms.ConstantFold.{
  try_fold, shift_mask, checked_shift, fold_ashr, typed, trunc_bits,
}
use llvm_in_rust.Transforms.ConstantFold.Operands.{IntOperands, fold_binary_lem, int_bit_width_lem}
use llvm_in_rust.Transforms.ConstantFold.Width.{
  signed, InRange, sign_extend_lem, trunc_bits_lem, signed-pattern, signed-InRange, pattern_fits,
}

asr-InRange : (z : ℤ) (s bits : ℕ) → InRange bits z → InRange bits (asr z s)
unfolding InRange asr
asr-InRange (pos n) s bits h = omega (arith, div-le_self n (2 ^ s))
asr-InRange (negsuc n) s bits h = omega (arith, div-le_self n (2 ^ s))

checked_shift_lem : (s : ℕ) → s < 64 → checked_shift s ≡ done s
unfolding checked_shift
checked_shift_lem s h = rw (lt→ltb s 64 h) refl

-- In a width that is a power of two the mask keeps an amount below the width.
masked : (k r : ℕ) → r < 2 ^ k → bit_and r (2 ^ k - 1) ≡ r
masked k r h = bit_and_mask r k ∙ mod-eq_of_lt h

module _ {ctx : Context} {lhs rhs : ValueRef} {ty bits l r : ℕ}
    (h : IntOperands ctx lhs rhs ty bits l r) where
  shift_mask_lem : shift_mask ctx ty ≡ done (bits - 1)
  unfolding shift_mask
  shift_mask_lem = rw (int_bit_width_lem h) refl

  module _ (k : ℕ) (square : bits ≡ 2 ^ k) (short : r < bits) where
    amount : checked_shift (bit_and r (bits - 1)) ≡ done r
    amount =
        ap checked_shift
          (ap (λ (t : ℕ). bit_and r (t - 1)) square ∙ masked k r (rw (← square) short))
        ∙ checked_shift_lem r (let n = h.narrow in omega arith)

    ashr_value :
        fold_ashr (bits - 1) bits l r ≡ done (trunc_bits (as_u64 (asr (signed bits l) r)) bits)
    unfolding fold_ashr
    ashr_value = rw (sign_extend_lem l bits h.wide h.narrow, mod-eq_of_lt h.left_fits, amount) refl

    -- Folding a shift of two constants of an integer type whose width is a power of two of at most
    -- 64, by less than the width: to the left the constant has the low bits of the product with the
    -- power of two, to the right it is the quotient by the power, unsigned or rounded down signed.
    pub try_fold_shift_lem :
        (flags : IntArithFlags) (exact : Bool)
        → ((v : ℕ) × (try_fold ctx (shl flags lhs rhs) ≡ done (const_int ctx ty v))
            × (v % 2 ^ bits ≡ l * 2 ^ r % 2 ^ bits))
          × (try_fold ctx (lshr exact lhs rhs) ≡ done (const_int ctx ty (l / 2 ^ r)))
          × ((v : ℕ) × (try_fold ctx (ashr exact lhs rhs) ≡ done (const_int ctx ty v))
              × (v < 2 ^ bits)
              × (signed bits v ≡ asr (signed bits l) r))
    unfolding try_fold typed
    try_fold_shift_lem flags exact =
        let z = asr (signed bits l) r in
        (
          (
            l * 2 ^ r % 2 ^ 64,
            rw (fold_binary_lem h, shift_mask_lem, amount) refl,
            mod_pow (l * 2 ^ r) bits 64 h.narrow,
          ),
          rw (fold_binary_lem h, shift_mask_lem, amount) refl,
          (
            trunc_bits (as_u64 z) bits,
            rw (fold_binary_lem h, shift_mask_lem, int_bit_width_lem h, ashr_value) refl,
            rw (trunc_bits_lem z bits h.narrow) (pattern_fits z bits),
            ap (signed bits) (trunc_bits_lem z bits h.narrow)
                ∙ signed-pattern z bits h.wide
                    (asr-InRange (signed bits l) r bits (signed-InRange l bits h.wide h.left_fits)),
          ),
        )

  -- Folding a shift to the left by an amount that has no bit in common with the width less one
  -- gives the constant unshifted.
  pub try_fold_shl_masked :
      (flags : IntArithFlags)
      → bit_and r (bits - 1) ≡ 0
      → try_fold ctx (shl flags lhs rhs) ≡ done (const_int ctx ty l)
  unfolding try_fold checked_shift
  try_fold_shl_masked flags apart =
      rw (fold_binary_lem h, shift_mask_lem, apart)
        (ap (λ (t : ℕ). done (const_int ctx ty t)) unshifted)
    where
      unshifted : l * 2 ^ 0 % 2 ^ 64 ≡ l
      unshifted = let room = pow_mono bits 64 h.narrow in let fits = h.left_fits in omega arith
