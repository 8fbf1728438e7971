-- ===== src/Bitcode/Instrs/Decode/Calls.antt =====
-- llvm-bitcode/src/reader.rs: the fields of the records of calls, atomics and terminators. `m` is the
-- map of the type indices.
use mathlib.Core.List.{List}
use llvm_in_rust.Ir.Ids.{TypeId}
use llvm_in_rust.Ir.Instr.{InstrKind}
use llvm_in_rust.Bitcode.Stream.{
  Parser, pure, ◌>>=◌, read_u8, read_u32, read_string, read_flag, read_list,
}
use llvm_in_rust.Bitcode.Enums.{decode_mem_ordering, decode_rmw_op}
use llvm_in_rust.Bitcode.Values.{decode_vref, decode_opt_vref, decode_opt_u32, read_type_id}
use llvm_in_rust.Bitcode.Instrs.Decode.Fields.{decode_pair, decode_tail, decode_clause}

unfoldable pub decode_call : List TypeId → Parser InstrKind
decode_call m = do
  tail_kind ← read_u8 >>= decode_tail
  callee_ty ← read_type_id m
  callee ← decode_vref
  args ← read_list decode_vref
  pure (InstrKind.call tail_kind callee_ty callee args)

unfoldable pub decode_inline_asm : Parser InstrKind
decode_inline_asm = do
  asm_string ← read_string
  constraints ← read_string
  side_effect ← read_flag
  align_stack ← read_flag
  args ← read_list decode_vref
  pure (InstrKind.inline_asm asm_string constraints side_effect align_stack args)

unfoldable pub decode_fence : Parser InstrKind
decode_fence = do ordering ← read_u8 >>= decode_mem_ordering; pure (InstrKind.fence ordering)

unfoldable pub decode_cmp_xchg : Parser InstrKind
decode_cmp_xchg = do
  ptr ← decode_vref
  cmp ← decode_vref
  new_val ← decode_vref
  success_ord ← read_u8 >>= decode_mem_ordering
  fail_ord ← read_u8 >>= decode_mem_ordering
  weak ← read_flag
  volatile ← read_flag
  pure (InstrKind.cmp_xchg ptr cmp new_val success_ord fail_ord weak volatile)

unfoldable pub decode_atomic_rmw : Parser InstrKind
decode_atomic_rmw = do
  op ← read_u8 >>= decode_rmw_op
  ptr ← decode_vref
  val ← decode_vref
  ordering ← read_u8 >>= decode_mem_ordering
  volatile ← read_flag
  pure (InstrKind.atomic_rmw op ptr val ordering volatile)

unfoldable pub decode_invoke : List TypeId → Parser InstrKind
decode_invoke m = do
  callee_ty ← read_type_id m
  callee ← decode_vref
  args ← read_list decode_vref
  normal_dest ← read_u32
  unwind_dest ← read_u32
  pure (InstrKind.invoke callee_ty callee args normal_dest unwind_dest)

unfoldable pub decode_landing_pad : List TypeId → Parser InstrKind
decode_landing_pad m = do
  result_ty ← read_type_id m
  cleanup ← read_flag
  personality_fn ← decode_opt_vref
  clauses ← read_list (decode_clause m)
  pure (InstrKind.landing_pad result_ty personality_fn cleanup clauses)

unfoldable pub decode_ret : Parser InstrKind
decode_ret = do val ← decode_opt_vref; pure (InstrKind.ret val)

unfoldable pub decode_br : Parser InstrKind
decode_br = do dest ← read_u32; pure (InstrKind.br dest)

unfoldable pub decode_cond_br : Parser InstrKind
decode_cond_br = do
  cond ← decode_vref
  then_dest ← read_u32
  else_dest ← read_u32
  pure (InstrKind.cond_br cond then_dest else_dest)

unfoldable pub decode_switch : Parser InstrKind
decode_switch = do
  val ← decode_vref
  default ← read_u32
  cases ← read_list decode_pair
  pure (InstrKind.switch val default cases)

unfoldable pub decode_resume : Parser InstrKind
decode_resume = do val ← decode_vref; pure (InstrKind.resume val)

unfoldable pub decode_catch_pad : Parser InstrKind
decode_catch_pad = do
  parent_switch ← decode_vref
  args ← read_list decode_vref
  pure (InstrKind.catch_pad parent_switch args)

unfoldable pub decode_cleanup_pad : Parser InstrKind
decode_cleanup_pad = do
  parent ← decode_opt_vref
  args ← read_list decode_vref
  pure (InstrKind.cleanup_pad parent args)

unfoldable pub decode_catch_switch : Parser InstrKind
decode_catch_switch = do
  parent ← decode_opt_vref
  handlers ← read_list read_u32
  default ← decode_opt_u32
  pure (InstrKind.catch_switch parent handlers default)

unfoldable pub decode_catch_ret : Parser InstrKind
decode_catch_ret = do
  pad ← decode_vref
  successor ← read_u32
  pure (InstrKind.catch_ret pad successor)

unfoldable pub decode_cleanup_ret : Parser InstrKind
decode_cleanup_ret = do
  cleanup_pad ← decode_vref
  unwind_dest ← decode_opt_u32
  pure (InstrKind.cleanup_ret cleanup_pad unwind_dest)
