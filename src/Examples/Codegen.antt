-- ===== src/Examples/Codegen.antt =====
-- Entries of variables at concrete inputs.
use llvm_in_rust.Base.{◌≡◌, refl, [], ◌∷◌, arith, length}
use llvm_in_rust.Base.Int.{negsuc}
use llvm_in_rust.Base.Utf8.{as_bytes}
use llvm_in_rust.Bitcode.Reads.{Reads}
use llvm_in_rust.Codegen.DwarfVars.{
  stack, encode_location, encode_sleb128, encode_uleb128, uleb_loop, sleb_loop, low_bits, high_bits,
  is_last, build_variable_die,
}
use llvm_in_rust.Codegen.DwarfVars.Reader.{read_die}
use llvm_in_rust.Codegen.DwarfVars.Laws.{NoNull, read_die-build_variable_die}

sleb_test : encode_sleb128 (negsuc 127) ≡ 128 ∷ 127 ∷ []
unfolding encode_sleb128 sleb_loop low_bits high_bits is_last
sleb_test = refl

uleb_test : encode_uleb128 624485 ≡ 229 ∷ 142 ∷ 38 ∷ []
unfolding encode_uleb128 uleb_loop
uleb_test = refl

x-NoNull : NoNull (as_bytes "x")
unfolding as_bytes
x-NoNull = (refl, tt)

read_die-build_variable_die_example :
    Reads read_die
      (build_variable_die 300 "x" 64 (stack (negsuc 7)))
      (300, as_bytes "x", 64, length (encode_location (stack (negsuc 7))), stack (negsuc 7))
read_die-build_variable_die_example =
    read_die-build_variable_die 300 "x" 64 (stack (negsuc 7)) (omega arith) x-NoNull (omega arith)
      (omega arith)
