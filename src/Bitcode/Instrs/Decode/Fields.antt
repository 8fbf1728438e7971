-- ===== src/Bitcode/Instrs/Decode/Fields.antt =====
-- llvm-bitcode/src/reader.rs: the fields of the records of instructions. `m` is the map of the type
-- indices.
use Prim.Native.Nat.{ℕ}
use mathlib.Core.Bool.{Bool, false}
use mathlib.Core.List.{List}
use llvm_in_rust.Base.{◌==◌, if◌then◌else◌}
use llvm_in_rust.Ir.Ids.{TypeId, BlockId, ValueRef}
use llvm_in_rust.Ir.Ops.{IntArithFlags, FastMathFlags, TailCallKind, LandingPadClause}
use llvm_in_rust.Ir.Instr.{InstrKind}
use llvm_in_rust.Bitcode.Stream.{
  Parser, pure, ◌>>=◌, read_u8, read_u32, read_i32, read_flag, read_list,
}
use llvm_in_rust.Bitcode.Enums.{decode_int_pred, decode_float_pred}
use llvm_in_rust.Bitcode.Values.{decode_vref, decode_opt_vref, decode_opt_u32, read_type_id}

unfoldable pub decode_flags : Parser IntArithFlags
decode_flags = do nuw ← read_flag; nsw ← read_flag; pure (record { nuw = nuw; nsw = nsw })

unfoldable pub decode_pair : Parser (ValueRef × BlockId)
decode_pair = do v ← decode_vref; bid ← read_u32; pure (v, bid)

unfoldable pub decode_tail : ℕ → Parser TailCallKind
decode_tail tag =
    if tag == 0
    then pure TailCallKind.plain
    else if tag == 1
    then pure TailCallKind.tail
    else if tag == 2
    then pure TailCallKind.must_tail
    else pure TailCallKind.no_tail

unfoldable pub decode_clause : List TypeId → Parser LandingPadClause
decode_clause m = do
  tag ← read_u8
  ty ← read_type_id m
  value ← decode_vref
  pure (if tag == 0 then LandingPadClause.catch ty value else LandingPadClause.filter ty value)

-- `FastMathFlags::default()`
abbrev pub no_fast_math : FastMathFlags
no_fast_math = record {
  nnan = false;
  ninf = false;
  nsz = false;
  arcp = false;
  contract = false;
  afn = false;
  reassoc = false;
  fast = false;
}

-- The arms of the match that have the same fields.
unfoldable pub decode_binary : (ValueRef → ValueRef → InstrKind) → Parser InstrKind
decode_binary k = do lhs ← decode_vref; rhs ← decode_vref; pure (k lhs rhs)

unfoldable pub decode_flagged : (IntArithFlags → ValueRef → ValueRef → InstrKind) → Parser InstrKind
decode_flagged k = do
  flags ← decode_flags
  lhs ← decode_vref
  rhs ← decode_vref
  pure (k flags lhs rhs)

unfoldable pub decode_exact : (Bool → ValueRef → ValueRef → InstrKind) → Parser InstrKind
decode_exact k = do exact ← read_flag; lhs ← decode_vref; rhs ← decode_vref; pure (k exact lhs rhs)

unfoldable pub decode_cast : List TypeId → (ValueRef → TypeId → InstrKind) → Parser InstrKind
decode_cast m k = do val ← decode_vref; to ← read_type_id m; pure (k val to)

unfoldable pub decode_fneg : Parser InstrKind
decode_fneg = do operand ← decode_vref; pure (InstrKind.fneg no_fast_math operand)

unfoldable pub decode_icmp : Parser InstrKind
decode_icmp = do
  pred ← read_u8 >>= decode_int_pred
  lhs ← decode_vref
  rhs ← decode_vref
  pure (InstrKind.icmp pred lhs rhs)

unfoldable pub decode_fcmp : Parser InstrKind
decode_fcmp = do
  pred ← read_u8 >>= decode_float_pred
  lhs ← decode_vref
  rhs ← decode_vref
  pure (InstrKind.fcmp no_fast_math pred lhs rhs)

unfoldable pub decode_alloca : List TypeId → Parser InstrKind
decode_alloca m = do
  alloc_ty ← read_type_id m
  num_elements ← decode_opt_vref
  align ← decode_opt_u32
  pure (InstrKind.alloca alloc_ty num_elements align)

unfoldable pub decode_load : List TypeId → Parser InstrKind
decode_load m = do
  ty ← read_type_id m
  ptr ← decode_vref
  align ← decode_opt_u32
  volatile ← read_flag
  pure (InstrKind.load ty ptr align volatile)

unfoldable pub decode_store : Parser InstrKind
decode_store = do
  val ← decode_vref
  ptr ← decode_vref
  align ← decode_opt_u32
  volatile ← read_flag
  pure (InstrKind.store val ptr align volatile)

unfoldable pub decode_get_element_ptr : List TypeId → Parser InstrKind
decode_get_element_ptr m = do
  inbounds ← read_flag
  base_ty ← read_type_id m
  ptr ← decode_vref
  indices ← read_list decode_vref
  pure (InstrKind.get_element_ptr inbounds base_ty ptr indices)

unfoldable pub decode_freeze : Parser InstrKind
decode_freeze = do val ← decode_vref; pure (InstrKind.freeze val)

unfoldable pub decode_select : Parser InstrKind
decode_select = do
  cond ← decode_vref
  then_val ← decode_vref
  else_val ← decode_vref
  pure (InstrKind.select cond then_val else_val)

unfoldable pub decode_phi : List TypeId → Parser InstrKind
decode_phi m = do
  ty ← read_type_id m
  incoming ← read_list decode_pair
  pure (InstrKind.phi ty incoming)

unfoldable pub decode_extract_value : Parser InstrKind
decode_extract_value = do
  aggregate ← decode_vref
  indices ← read_list read_u32
  pure (InstrKind.extract_value aggregate indices)

unfoldable pub decode_insert_value : Parser InstrKind
decode_insert_value = do
  aggregate ← decode_vref
  val ← decode_vref
  indices ← read_list read_u32
  pure (InstrKind.insert_value aggregate val indices)

unfoldable pub decode_insert_element : Parser InstrKind
decode_insert_element = do
  vec ← decode_vref
  val ← decode_vref
  idx ← decode_vref
  pure (InstrKind.insert_element vec val idx)

unfoldable pub decode_shuffle_vector : Parser InstrKind
decode_shuffle_vector = do
  v1 ← decode_vref
  v2 ← decode_vref
  mask ← read_list read_i32
  pure (InstrKind.shuffle_vector v1 v2 mask)
