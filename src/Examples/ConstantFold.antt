-- ===== src/Examples/ConstantFold.antt =====
-- Constant folding at concrete inputs.
use Prim.Native.Nat.{min, max}
use llvm_in_rust.Base.Bits.{bit}
use llvm_in_rust.Base.{ℕ, ◌+◌, ◌%◌, ◌<◌, ◌≤◌, ◌≡◌, ◌≢◌, ◌⊎◌, refl, [], ◌∷◌, false, arith}
use llvm_in_rust.Base.Attempt.{Attempt, declined, done}
use llvm_in_rust.Base.Int.{pos, negsuc, div_trunc, rem_trunc, asr}
use llvm_in_rust.Ir.Ids.{ConstId, constant}
use llvm_in_rust.Ir.Types.{TypeData}
use llvm_in_rust.Ir.Value.{ConstantData}
use llvm_in_rust.Ir.Ops.{IntArithFlags, IntPredicate}
use llvm_in_rust.Ir.Instr.{
  add, sub, mul, udiv, sdiv, urem, srem, and, or, xor, shl, lshr, ashr, icmp,
}
use llvm_in_rust.Ir.Context.{Context, empty_context, get_type}
use llvm_in_rust.Ir.Constants.{const_int, get_const}
use llvm_in_rust.Transforms.ConstantFold.{const_int_value, int_of, try_fold}
use llvm_in_rust.Transforms.ConstantFold.Operands.{IntOperands}
use llvm_in_rust.Transforms.ConstantFold.Width.{signed}
use llvm_in_rust.Transforms.ConstantFold.Division.{
  try_fold_sdiv_lem, try_fold_srem_lem, try_fold_unsigned_lem,
}
use llvm_in_rust.Transforms.ConstantFold.Wrapping.{
  try_fold_wrapping_lem, try_fold_add_exceeds, try_fold_bitwise_lem,
}
use llvm_in_rust.Transforms.ConstantFold.Compare.{try_fold_icmp_lem, Holds}
use llvm_in_rust.Transforms.ConstantFold.Shift.{try_fold_shift_lem, try_fold_shl_masked}

-- The bytes 200 and 3, and the 24-bit numbers 5 and 8.
abbrev numbers : Context
numbers = record empty_context {
  types = TypeData.integer 1 ∷ TypeData.integer 8 ∷ TypeData.integer 24 ∷ [];
  constants =
      ConstantData.int 1 200
      ∷ ConstantData.int 1 103
      ∷ ConstantData.int 1 3
      ∷ ConstantData.int 2 5
      ∷ ConstantData.int 2 8
      ∷ [];
}

abbrev plain : IntArithFlags
plain = record { nuw = false; nsw = false }

large : IntOperands numbers (constant 0) (constant 1) 1 8 200 103
unfolding const_int_value int_of get_const get_type
large = record {
  left = refl;
  right = refl;
  width = refl;
  wide = omega arith;
  narrow = omega arith;
  left_fits = omega arith;
  right_fits = omega arith;
}

small : IntOperands numbers (constant 0) (constant 2) 1 8 200 3
unfolding const_int_value int_of get_const get_type
small = record {
  left = refl;
  right = refl;
  width = refl;
  wide = omega arith;
  narrow = omega arith;
  left_fits = omega arith;
  right_fits = omega arith;
}

odd_width : IntOperands numbers (constant 3) (constant 4) 2 24 5 8
unfolding const_int_value int_of get_const get_type
odd_width = record {
  left = refl;
  right = refl;
  width = refl;
  wide = omega arith;
  narrow = omega arith;
  left_fits = omega arith;
  right_fits = omega arith;
}

abbrev run_sdiv : Attempt (Context × ConstId)
run_sdiv = try_fold numbers (sdiv false (constant 0) (constant 2))

abbrev run_srem : Attempt (Context × ConstId)
run_srem = try_fold numbers (srem (constant 0) (constant 2))

abbrev divisor : ℕ
divisor = 3

try_fold_sdiv_lem_example :
    ((run_sdiv ≡ declined)
      × ((signed 8 3 ≡ pos 0) ⊎ ((signed 8 200 ≡ negsuc 127) × (signed 8 3 ≡ negsuc 0))))
    ⊎ ((v : ℕ) × (run_sdiv ≡ done (const_int numbers 1 v))
        × (v < 256)
        × (signed 8 3 ≢ pos 0)
        × (signed 8 v ≡ div_trunc (signed 8 200) (signed 8 3)))
try_fold_sdiv_lem_example = try_fold_sdiv_lem small false

try_fold_srem_lem_example :
    ((run_srem ≡ declined) × (signed 8 3 ≡ pos 0))
    ⊎ ((v : ℕ) × (run_srem ≡ done (const_int numbers 1 v))
        × (v < 256)
        × (signed 8 3 ≢ pos 0)
        × (signed 8 v ≡ rem_trunc (signed 8 200) (signed 8 3)))
try_fold_srem_lem_example = try_fold_srem_lem small

try_fold_unsigned_lem_example :
    ((divisor ≡ 0)
      × (try_fold numbers (udiv false (constant 0) (constant 2)) ≡ declined)
      × (try_fold numbers (urem (constant 0) (constant 2)) ≡ declined))
    ⊎ ((divisor ≢ 0)
        × (try_fold numbers (udiv false (constant 0) (constant 2)) ≡ done (const_int numbers 1 66))
        × (try_fold numbers (urem (constant 0) (constant 2)) ≡ done (const_int numbers 1 2))
        × (66 < 256)
        × (2 < 256))
try_fold_unsigned_lem_example = try_fold_unsigned_lem small false

try_fold_wrapping_lem_example :
    ((v : ℕ) × (try_fold numbers (add plain (constant 0) (constant 1))
        ≡ done (const_int numbers 1 v))
      × (v % 256 ≡ 47))
    × ((v : ℕ) × (try_fold numbers (sub plain (constant 0) (constant 1))
          ≡ done (const_int numbers 1 v))
        × (v % 256 ≡ 97))
    × ((v : ℕ) × (try_fold numbers (mul plain (constant 0) (constant 1))
          ≡ done (const_int numbers 1 v))
        × (v % 256 ≡ 120))
try_fold_wrapping_lem_example = try_fold_wrapping_lem large plain

try_fold_add_exceeds_example :
    (v : ℕ) × (try_fold numbers (add plain (constant 0) (constant 1))
      ≡ done (const_int numbers 1 v))
    × (256 ≤ v)
try_fold_add_exceeds_example = try_fold_add_exceeds large plain (omega arith) (omega arith)

try_fold_bitwise_lem_example :
    ((v : ℕ) × (try_fold numbers (and (constant 0) (constant 1)) ≡ done (const_int numbers 1 v))
      × (v < 256)
      × ((i : ℕ) → bit v i ≡ min (bit 200 i) (bit 103 i)))
    × ((v : ℕ) × (try_fold numbers (or (constant 0) (constant 1)) ≡ done (const_int numbers 1 v))
        × (v < 256)
        × ((i : ℕ) → bit v i ≡ max (bit 200 i) (bit 103 i)))
    × ((v : ℕ) × (try_fold numbers (xor (constant 0) (constant 1)) ≡ done (const_int numbers 1 v))
        × (v < 256)
        × ((i : ℕ) → bit v i ≡ (bit 200 i + bit 103 i) % 2))
try_fold_bitwise_lem_example = try_fold_bitwise_lem large

try_fold_icmp_lem_example :
    ((try_fold numbers (icmp IntPredicate.slt (constant 0) (constant 1))
        ≡ done (const_int numbers 0 1))
      × Holds IntPredicate.slt 8 200 103)
    ⊎ ((try_fold numbers (icmp IntPredicate.slt (constant 0) (constant 1))
          ≡ done (const_int numbers 0 0))
        × ¬ Holds IntPredicate.slt 8 200 103)
try_fold_icmp_lem_example = try_fold_icmp_lem large IntPredicate.slt

try_fold_shift_lem_example :
    ((v : ℕ) × (try_fold numbers (shl plain (constant 0) (constant 2))
        ≡ done (const_int numbers 1 v))
      × (v % 256 ≡ 64))
    × (try_fold numbers (lshr false (constant 0) (constant 2)) ≡ done (const_int numbers 1 25))
    × ((v : ℕ) × (try_fold numbers (ashr false (constant 0) (constant 2))
          ≡ done (const_int numbers 1 v))
        × (v < 256)
        × (signed 8 v ≡ asr (signed 8 200) 3))
try_fold_shift_lem_example = try_fold_shift_lem small 3 refl (omega arith) plain false

try_fold_shl_masked_example :
    try_fold numbers (shl plain (constant 3) (constant 4)) ≡ done (const_int numbers 2 5)
try_fold_shl_masked_example = try_fold_shl_masked odd_width plain refl
