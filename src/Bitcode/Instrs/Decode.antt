-- ===== src/Bitcode/Instrs/Decode.antt =====
-- llvm-bitcode/src/reader.rs: the records of instructions. `m` is the map of the type indices.
pub mod Fields
pub mod Calls
use Prim.Native.Nat.{ℕ}
use mathlib.Core.Bool.{Bool, true, false}
use mathlib.Core.List.{List, [], ◌∷◌}
use mathlib.Core.Option.{Option, none, some}
use llvm_in_rust.Base.{◌==◌, if◌then◌else◌}
use llvm_in_rust.Ir.Ids.{TypeId, BlockId, ValueRef}
use llvm_in_rust.Ir.Ops.{
  IntArithFlags, FastMathFlags, IntPredicate, FloatPredicate, TailCallKind, MemOrdering, RmwOp,
  LandingPadClause,
}
use llvm_in_rust.Ir.Instr.{InstrKind}
use llvm_in_rust.Ir.Function.{Instruction}
use llvm_in_rust.Bitcode.Stream.{
  Bytes, ◌<>◌, Parser, pure, fail, ◌>>=◌, unsupported_record, write_u8, write_u32, write_i32,
  write_string, write_flag, write_list, read_u8, read_u32, read_i32, read_string, read_flag,
  read_list, read_opt_string,
}
use llvm_in_rust.Bitcode.Enums.{
  encode_int_pred, encode_float_pred, encode_mem_ordering, encode_rmw_op, decode_int_pred,
  decode_float_pred, decode_mem_ordering, decode_rmw_op,
}
use llvm_in_rust.Bitcode.Values.{
  encode_vref, encode_opt_vref, encode_opt_u32, decode_vref, decode_opt_vref, decode_opt_u32,
  read_type_id, encode_option, decode_option,
}
use llvm_in_rust.Bitcode.Instrs.Decode.Fields.{
  no_fast_math, decode_binary, decode_flagged, decode_exact, decode_cast, decode_fneg, decode_icmp,
  decode_fcmp, decode_alloca, decode_load, decode_store, decode_get_element_ptr, decode_freeze,
  decode_select, decode_phi, decode_extract_value, decode_insert_value, decode_insert_element,
  decode_shuffle_vector,
}
use llvm_in_rust.Bitcode.Instrs.Decode.Calls.{
  decode_call, decode_inline_asm, decode_fence, decode_cmp_xchg, decode_atomic_rmw, decode_invoke,
  decode_landing_pad, decode_ret, decode_br, decode_cond_br, decode_switch, decode_resume,
  decode_catch_pad, decode_cleanup_pad, decode_catch_switch, decode_catch_ret, decode_cleanup_ret,
}

unfoldable pub decode_control : List TypeId → ℕ → Parser InstrKind
decode_control m tag =
    if tag == 90
    then decode_ret
    else if tag == 91
    then decode_br
    else if tag == 92
    then decode_cond_br
    else if tag == 93
    then decode_switch
    else if tag == 94
    then pure InstrKind.unreachable
    else if tag == 95
    then decode_resume
    else if tag == 100
    then decode_catch_pad
    else if tag == 101
    then decode_cleanup_pad
    else if tag == 102
    then decode_catch_switch
    else if tag == 103
    then decode_catch_ret
    else if tag == 104
    then decode_cleanup_ret
    else fail (unsupported_record tag)

unfoldable pub decode_calls : List TypeId → ℕ → Parser InstrKind
decode_calls m tag =
    if tag == 80
    then decode_call m
    else if tag == 81
    then decode_inline_asm
    else if tag == 82
    then decode_fence
    else if tag == 83
    then decode_cmp_xchg
    else if tag == 84
    then decode_atomic_rmw
    else if tag == 85
    then decode_invoke m
    else if tag == 86
    then decode_landing_pad m
    else decode_control m tag

unfoldable pub decode_vector_ops : List TypeId → ℕ → Parser InstrKind
decode_vector_ops m tag =
    if tag == 70
    then decode_select
    else if tag == 71
    then decode_phi m
    else if tag == 72
    then decode_extract_value
    else if tag == 73
    then decode_insert_value
    else if tag == 74
    then decode_binary InstrKind.extract_element
    else if tag == 75
    then decode_insert_element
    else if tag == 76
    then decode_shuffle_vector
    else decode_calls m tag

unfoldable pub decode_casts : List TypeId → ℕ → Parser InstrKind
decode_casts m tag =
    if tag == 50
    then decode_cast m InstrKind.trunc
    else if tag == 51
    then decode_cast m InstrKind.zext
    else if tag == 52
    then decode_cast m InstrKind.sext
    else if tag == 53
    then decode_cast m InstrKind.fptrunc
    else if tag == 54
    then decode_cast m InstrKind.fpext
    else if tag == 55
    then decode_cast m InstrKind.fptoui
    else if tag == 56
    then decode_cast m InstrKind.fptosi
    else if tag == 57
    then decode_cast m InstrKind.uitofp
    else if tag == 58
    then decode_cast m InstrKind.sitofp
    else if tag == 59
    then decode_cast m InstrKind.ptr_to_int
    else if tag == 60
    then decode_cast m InstrKind.int_to_ptr
    else if tag == 61
    then decode_cast m InstrKind.bitcast
    else if tag == 62
    then decode_cast m InstrKind.addr_space_cast
    else if tag == 63
    then decode_freeze
    else decode_vector_ops m tag

unfoldable pub decode_memory : List TypeId → ℕ → Parser InstrKind
decode_memory m tag =
    if tag == 40
    then decode_alloca m
    else if tag == 41
    then decode_load m
    else if tag == 42
    then decode_store
    else if tag == 43
    then decode_get_element_ptr m
    else decode_casts m tag

unfoldable pub decode_arith : List TypeId → ℕ → Parser InstrKind
decode_arith m tag =
    if tag == 0
    then decode_flagged InstrKind.add
    else if tag == 1
    then decode_flagged InstrKind.sub
    else if tag == 2
    then decode_flagged InstrKind.mul
    else if tag == 3
    then decode_exact InstrKind.udiv
    else if tag == 4
    then decode_exact InstrKind.sdiv
    else if tag == 5
    then decode_binary InstrKind.urem
    else if tag == 6
    then decode_binary InstrKind.srem
    else if tag == 10
    then decode_binary InstrKind.and
    else if tag == 11
    then decode_binary InstrKind.or
    else if tag == 12
    then decode_binary InstrKind.xor
    else if tag == 13
    then decode_flagged InstrKind.shl
    else if tag == 14
    then decode_exact InstrKind.lshr
    else if tag == 15
    then decode_exact InstrKind.ashr
    else if tag == 20
    then decode_binary (InstrKind.fadd no_fast_math)
    else if tag == 21
    then decode_binary (InstrKind.fsub no_fast_math)
    else if tag == 22
    then decode_binary (InstrKind.fmul no_fast_math)
    else if tag == 23
    then decode_binary (InstrKind.fdiv no_fast_math)
    else if tag == 24
    then decode_binary (InstrKind.frem no_fast_math)
    else if tag == 25
    then decode_fneg
    else if tag == 30
    then decode_icmp
    else if tag == 31
    then decode_fcmp
    else decode_memory m tag

unfoldable pub decode_kind : List TypeId → Parser InstrKind
decode_kind m = do tag ← read_u32; decode_arith m tag

unfoldable pub decode_instr : List TypeId → Parser Instruction
decode_instr m = do
  name ← read_opt_string
  ty ← read_type_id m
  kind ← decode_kind m
  pure (record { name = name; ty = ty; kind = kind })
