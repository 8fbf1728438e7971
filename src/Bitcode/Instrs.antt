-- ===== src/Bitcode/Instrs.antt =====
-- llvm-bitcode/src/writer.rs: the records of instructions.
pub mod Decode
pub mod Parts
pub mod Fits
pub mod Laws
use Prim.Native.Nat.{ℕ}
use mathlib.Core.Bool.{Bool, true, false}
use mathlib.Core.List.{List, [], ◌∷◌}
use mathlib.Core.Option.{Option, none, some}
use llvm_in_rust.Base.{◌==◌, if◌then◌else◌}
use llvm_in_rust.Ir.Ids.{TypeId, BlockId, ValueRef}
use llvm_in_rust.Ir.Ops.{
  IntArithFlags, FastMathFlags, IntPredicate, FloatPredicate, TailCallKind, MemOrdering, RmwOp,
  LandingPadClause,
}
use llvm_in_rust.Ir.Instr.{InstrKind}
use llvm_in_rust.Ir.Function.{Instruction}
use llvm_in_rust.Bitcode.Stream.{
  Bytes, ◌<>◌, Parser, pure, fail, ◌>>=◌, unsupported_record, write_u8, write_u32, write_i32,
  write_string, write_flag, write_list, read_u8, read_u32, read_i32, read_string, read_flag,
  read_list, read_opt_string,
}
use llvm_in_rust.Bitcode.Enums.{
  encode_int_pred, encode_float_pred, encode_mem_ordering, encode_rmw_op, decode_int_pred,
  decode_float_pred, decode_mem_ordering, decode_rmw_op,
}
use llvm_in_rust.Bitcode.Values.{
  encode_vref, encode_opt_vref, encode_opt_u32, decode_vref, decode_opt_vref, decode_opt_u32,
  read_type_id, encode_option, decode_option,
}
use llvm_in_rust.Bitcode.Types.{encode_name}

unfoldable pub encode_flags : IntArithFlags → Bytes
encode_flags flags = write_flag flags.nuw <> write_flag flags.nsw

-- An incoming value of a phi with its block, and a case of a switch with its block.
unfoldable pub encode_pair : ValueRef × BlockId → Bytes
encode_pair (v, bid) = encode_vref v <> write_u32 bid

unfoldable pub encode_tail : TailCallKind → ℕ
encode_tail TailCallKind.plain = 0
encode_tail TailCallKind.tail = 1
encode_tail TailCallKind.must_tail = 2
encode_tail TailCallKind.no_tail = 3

unfoldable pub encode_clause : LandingPadClause → Bytes
encode_clause (LandingPadClause.catch ty value) = write_u8 0 <> write_u32 ty <> encode_vref value
encode_clause (LandingPadClause.filter ty value) = write_u8 1 <> write_u32 ty <> encode_vref value

-- The tag of an instruction kind and its fields.
unfoldable pub encode_kind : InstrKind → Bytes
encode_kind (InstrKind.add flags lhs rhs) =
    write_u32 0 <> encode_flags flags <> encode_vref lhs <> encode_vref rhs
encode_kind (InstrKind.sub flags lhs rhs) =
    write_u32 1 <> encode_flags flags <> encode_vref lhs <> encode_vref rhs
encode_kind (InstrKind.mul flags lhs rhs) =
    write_u32 2 <> encode_flags flags <> encode_vref lhs <> encode_vref rhs
encode_kind (InstrKind.udiv exact lhs rhs) =
    write_u32 3 <> write_flag exact <> encode_vref lhs <> encode_vref rhs
encode_kind (InstrKind.sdiv exact lhs rhs) =
    write_u32 4 <> write_flag exact <> encode_vref lhs <> encode_vref rhs
encode_kind (InstrKind.urem lhs rhs) = write_u32 5 <> encode_vref lhs <> encode_vref rhs
encode_kind (InstrKind.srem lhs rhs) = write_u32 6 <> encode_vref lhs <> encode_vref rhs
encode_kind (InstrKind.and lhs rhs) = write_u32 10 <> encode_vref lhs <> encode_vref rhs
encode_kind (InstrKind.or lhs rhs) = write_u32 11 <> encode_vref lhs <> encode_vref rhs
encode_kind (InstrKind.xor lhs rhs) = write_u32 12 <> encode_vref lhs <> encode_vref rhs
encode_kind (InstrKind.shl flags lhs rhs) =
    write_u32 13 <> encode_flags flags <> encode_vref lhs <> encode_vref rhs
encode_kind (InstrKind.lshr exact lhs rhs) =
    write_u32 14 <> write_flag exact <> encode_vref lhs <> encode_vref rhs
encode_kind (InstrKind.ashr exact lhs rhs) =
    write_u32 15 <> write_flag exact <> encode_vref lhs <> encode_vref rhs
encode_kind (InstrKind.fadd _ lhs rhs) = write_u32 20 <> encode_vref lhs <> encode_vref rhs
encode_kind (InstrKind.fsub _ lhs rhs) = write_u32 21 <> encode_vref lhs <> encode_vref rhs
encode_kind (InstrKind.fmul _ lhs rhs) = write_u32 22 <> encode_vref lhs <> encode_vref rhs
encode_kind (InstrKind.fdiv _ lhs rhs) = write_u32 23 <> encode_vref lhs <> encode_vref rhs
encode_kind (InstrKind.frem _ lhs rhs) = write_u32 24 <> encode_vref lhs <> encode_vref rhs
encode_kind (InstrKind.fneg _ operand) = write_u32 25 <> encode_vref operand
encode_kind (InstrKind.icmp pred lhs rhs) =
    write_u32 30 <> write_u8 (encode_int_pred pred) <> encode_vref lhs <> encode_vref rhs
encode_kind (InstrKind.fcmp _ pred lhs rhs) =
    write_u32 31 <> write_u8 (encode_float_pred pred) <> encode_vref lhs <> encode_vref rhs
encode_kind (InstrKind.alloca alloc_ty num_elements align) =
    write_u32 40 <> write_u32 alloc_ty <> encode_opt_vref num_elements <> encode_opt_u32 align
encode_kind (InstrKind.load ty ptr align volatile) =
    write_u32 41 <> write_u32 ty <> encode_vref ptr <> encode_opt_u32 align <> write_flag volatile
encode_kind (InstrKind.store val ptr align volatile) =
    write_u32 42
    <> encode_vref val
    <> encode_vref ptr
    <> encode_opt_u32 align
    <> write_flag volatile
encode_kind (InstrKind.get_element_ptr inbounds base_ty ptr indices) =
    write_u32 43
    <> write_flag inbounds
    <> write_u32 base_ty
    <> encode_vref ptr
    <> write_list encode_vref indices
encode_kind (InstrKind.trunc val to) = write_u32 50 <> encode_vref val <> write_u32 to
encode_kind (InstrKind.zext val to) = write_u32 51 <> encode_vref val <> write_u32 to
encode_kind (InstrKind.sext val to) = write_u32 52 <> encode_vref val <> write_u32 to
encode_kind (InstrKind.fptrunc val to) = write_u32 53 <> encode_vref val <> write_u32 to
encode_kind (InstrKind.fpext val to) = write_u32 54 <> encode_vref val <> write_u32 to
encode_kind (InstrKind.fptoui val to) = write_u32 55 <> encode_vref val <> write_u32 to
encode_kind (InstrKind.fptosi val to) = write_u32 56 <> encode_vref val <> write_u32 to
encode_kind (InstrKind.uitofp val to) = write_u32 57 <> encode_vref val <> write_u32 to
encode_kind (InstrKind.sitofp val to) = write_u32 58 <> encode_vref val <> write_u32 to
encode_kind (InstrKind.ptr_to_int val to) = write_u32 59 <> encode_vref val <> write_u32 to
encode_kind (InstrKind.int_to_ptr val to) = write_u32 60 <> encode_vref val <> write_u32 to
encode_kind (InstrKind.bitcast val to) = write_u32 61 <> encode_vref val <> write_u32 to
encode_kind (InstrKind.addr_space_cast val to) = write_u32 62 <> encode_vref val <> write_u32 to
encode_kind (InstrKind.freeze val) = write_u32 63 <> encode_vref val
encode_kind (InstrKind.select cond then_val else_val) =
    write_u32 70 <> encode_vref cond <> encode_vref then_val <> encode_vref else_val
encode_kind (InstrKind.phi ty incoming) =
    write_u32 71 <> write_u32 ty <> write_list encode_pair incoming
encode_kind (InstrKind.extract_value aggregate indices) =
    write_u32 72 <> encode_vref aggregate <> write_list write_u32 indices
encode_kind (InstrKind.insert_value aggregate val indices) =
    write_u32 73 <> encode_vref aggregate <> encode_vref val <> write_list write_u32 indices
encode_kind (InstrKind.extract_element vec idx) = write_u32 74 <> encode_vref vec <> encode_vref idx
encode_kind (InstrKind.insert_element vec val idx) =
    write_u32 75 <> encode_vref vec <> encode_vref val <> encode_vref idx
encode_kind (InstrKind.shuffle_vector v1 v2 mask) =
    write_u32 76 <> encode_vref v1 <> encode_vref v2 <> write_list write_i32 mask
encode_kind (InstrKind.call tail_kind callee_ty callee args) =
    write_u32 80
    <> write_u8 (encode_tail tail_kind)
    <> write_u32 callee_ty
    <> encode_vref callee
    <> write_list encode_vref args
encode_kind (InstrKind.invoke callee_ty callee args normal_dest unwind_dest) =
    write_u32 85
    <> write_u32 callee_ty
    <> encode_vref callee
    <> write_list encode_vref args
    <> write_u32 normal_dest
    <> write_u32 unwind_dest
encode_kind (InstrKind.landing_pad result_ty personality_fn cleanup clauses) =
    write_u32 86
    <> write_u32 result_ty
    <> write_flag cleanup
    <> encode_opt_vref personality_fn
    <> write_list encode_clause clauses
encode_kind (InstrKind.inline_asm asm_string constraints side_effect align_stack args) =
    write_u32 81
    <> write_string asm_string
    <> write_string constraints
    <> write_flag side_effect
    <> write_flag align_stack
    <> write_list encode_vref args
encode_kind (InstrKind.fence ordering) = write_u32 82 <> write_u8 (encode_mem_ordering ordering)
encode_kind (InstrKind.cmp_xchg ptr cmp new_val success_ord fail_ord weak volatile) =
    write_u32 83
    <> encode_vref ptr
    <> encode_vref cmp
    <> encode_vref new_val
    <> write_u8 (encode_mem_ordering success_ord)
    <> write_u8 (encode_mem_ordering fail_ord)
    <> write_flag weak
    <> write_flag volatile
encode_kind (InstrKind.atomic_rmw op ptr val ordering volatile) =
    write_u32 84
    <> write_u8 (encode_rmw_op op)
    <> encode_vref ptr
    <> encode_vref val
    <> write_u8 (encode_mem_ordering ordering)
    <> write_flag volatile
encode_kind (InstrKind.ret val) = write_u32 90 <> encode_opt_vref val
encode_kind (InstrKind.br dest) = write_u32 91 <> write_u32 dest
encode_kind (InstrKind.cond_br cond then_dest else_dest) =
    write_u32 92 <> encode_vref cond <> write_u32 then_dest <> write_u32 else_dest
encode_kind (InstrKind.switch val default cases) =
    write_u32 93 <> encode_vref val <> write_u32 default <> write_list encode_pair cases
encode_kind InstrKind.unreachable = write_u32 94
encode_kind (InstrKind.resume val) = write_u32 95 <> encode_vref val
encode_kind (InstrKind.catch_pad parent_switch args) =
    write_u32 100 <> encode_vref parent_switch <> write_list encode_vref args
encode_kind (InstrKind.cleanup_pad parent args) =
    write_u32 101 <> encode_opt_vref parent <> write_list encode_vref args
encode_kind (InstrKind.catch_switch parent handlers default) =
    write_u32 102
    <> encode_opt_vref parent
    <> write_list write_u32 handlers
    <> encode_opt_u32 default
encode_kind (InstrKind.catch_ret pad successor) =
    write_u32 103 <> encode_vref pad <> write_u32 successor
encode_kind (InstrKind.cleanup_ret cleanup_pad unwind_dest) =
    write_u32 104 <> encode_vref cleanup_pad <> encode_opt_u32 unwind_dest

unfoldable pub encode_instr : Instruction → Bytes
encode_instr i = encode_name i.name <> write_u32 i.ty <> encode_kind i.kind
