-- ===== src/Bitcode/Consts.antt =====
-- llvm-bitcode/src/writer.rs and reader.rs: the records of constants and of global variables.
pub mod Laws
use Prim.Native.Nat.{ℕ}
use mathlib.Core.Bool.{true, false}
use mathlib.Core.List.{List}
use mathlib.Core.Option.{Option, none, some}
use llvm_in_rust.Base.{◌==◌, if◌then◌else◌}
use llvm_in_rust.Ir.Ids.{TypeId, ConstId}
use llvm_in_rust.Ir.Value.{ConstExprOp, ConstantData, GlobalVariable}
use llvm_in_rust.Bitcode.Stream.{
  Bytes, ◌<>◌, Parser, pure, fail, ◌>>=◌, unsupported_record, write_u8, write_u32, write_u64,
  write_string, write_flag, write_list, read_u8, read_u32, read_u64, read_string, read_flag,
  read_list,
}
use llvm_in_rust.Bitcode.Enums.{encode_linkage, decode_linkage}
use llvm_in_rust.Bitcode.Values.{read_type_id, read_const_id, encode_option, decode_option}

unfoldable pub encode_op : ConstExprOp → Bytes
encode_op (ConstExprOp.get_element_ptr inbounds base_ty) =
    write_u8 (if inbounds then 1 else 0) <> write_u32 base_ty
encode_op ConstExprOp.bit_cast = write_u8 2
encode_op ConstExprOp.int_to_ptr = write_u8 3
encode_op ConstExprOp.ptr_to_int = write_u8 4
encode_op ConstExprOp.addr_space_cast = write_u8 5
encode_op ConstExprOp.trunc = write_u8 6
encode_op ConstExprOp.zext = write_u8 7
encode_op ConstExprOp.sext = write_u8 8

-- A tag, the type, and the indices of other constants.
unfoldable pub encode_aggregate : ℕ → TypeId → List ConstId → Bytes
encode_aggregate tag ty ids = write_u8 tag <> write_u32 ty <> write_list write_u32 ids

unfoldable pub encode_const : ConstantData → Bytes
encode_const (ConstantData.int ty val) = write_u8 0 <> write_u32 ty <> write_u64 val
encode_const (ConstantData.int_wide ty words) =
    write_u8 1 <> write_u32 ty <> write_list write_u64 words
encode_const (ConstantData.float ty bits) = write_u8 2 <> write_u32 ty <> write_u64 bits
encode_const (ConstantData.null ty) = write_u8 3 <> write_u32 ty
encode_const (ConstantData.undef ty) = write_u8 4 <> write_u32 ty
encode_const (ConstantData.poison ty) = write_u8 5 <> write_u32 ty
encode_const (ConstantData.zero_initializer ty) = write_u8 6 <> write_u32 ty
encode_const (ConstantData.array ty elements) = encode_aggregate 7 ty elements
encode_const (ConstantData.struct ty fields) = encode_aggregate 8 ty fields
encode_const (ConstantData.vector ty elements) = encode_aggregate 9 ty elements
encode_const (ConstantData.global_ref ty id name) =
    write_u8 10 <> write_u32 ty <> write_u32 id <> write_string name
encode_const (ConstantData.expr ty op operands) =
    write_u8 11 <> write_u32 ty <> encode_op op <> write_list write_u32 operands

-- The operation of a constant expression behind its tag.
unfoldable pub op_record : List TypeId → ℕ → Parser ConstExprOp
op_record m tag =
    if tag == 0
    then (do base_ty ← read_type_id m; pure (ConstExprOp.get_element_ptr false base_ty))
    else if tag == 1
    then (do base_ty ← read_type_id m; pure (ConstExprOp.get_element_ptr true base_ty))
    else if tag == 2
    then pure ConstExprOp.bit_cast
    else if tag == 3
    then pure ConstExprOp.int_to_ptr
    else if tag == 4
    then pure ConstExprOp.ptr_to_int
    else if tag == 5
    then pure ConstExprOp.addr_space_cast
    else if tag == 6
    then pure ConstExprOp.trunc
    else if tag == 7
    then pure ConstExprOp.zext
    else if tag == 8
    then pure ConstExprOp.sext
    else fail (unsupported_record tag)

unfoldable pub decode_aggregate :
    List TypeId → List ConstId → (TypeId → List ConstId → ConstantData) → Parser ConstantData
decode_aggregate m cm k = do
  ty ← read_type_id m
  ids ← read_list (read_const_id cm)
  pure (k ty ids)

unfoldable pub decode_typed : List TypeId → (TypeId → ConstantData) → Parser ConstantData
decode_typed m k = do ty ← read_type_id m; pure (k ty)

unfoldable pub decode_scalar : List TypeId → (TypeId → ℕ → ConstantData) → Parser ConstantData
decode_scalar m k = do ty ← read_type_id m; val ← read_u64; pure (k ty val)

unfoldable pub decode_int_wide : List TypeId → Parser ConstantData
decode_int_wide m = do
  ty ← read_type_id m
  words ← read_list read_u64
  pure (ConstantData.int_wide ty words)

unfoldable pub decode_global_ref : List TypeId → Parser ConstantData
decode_global_ref m = do
  ty ← read_type_id m
  id ← read_u32
  name ← read_string
  pure (ConstantData.global_ref ty id name)

unfoldable pub decode_expr : List TypeId → List ConstId → Parser ConstantData
decode_expr m cm = do
  ty ← read_type_id m
  op ← (read_u8 >>= op_record m)
  operands ← read_list (read_const_id cm)
  pure (ConstantData.expr ty op operands)

-- `decode_const` behind its tag.
unfoldable pub const_record : List TypeId → List ConstId → ℕ → Parser ConstantData
const_record m cm tag =
    if tag == 0
    then decode_scalar m ConstantData.int
    else if tag == 1
    then decode_int_wide m
    else if tag == 2
    then decode_scalar m ConstantData.float
    else if tag == 3
    then decode_typed m ConstantData.null
    else if tag == 4
    then decode_typed m ConstantData.undef
    else if tag == 5
    then decode_typed m ConstantData.poison
    else if tag == 6
    then decode_typed m ConstantData.zero_initializer
    else if tag == 7
    then decode_aggregate m cm ConstantData.array
    else if tag == 8
    then decode_aggregate m cm ConstantData.struct
    else if tag == 9
    then decode_aggregate m cm ConstantData.vector
    else if tag == 10
    then decode_global_ref m
    else if tag == 11
    then decode_expr m cm
    else fail (unsupported_record tag)

unfoldable pub decode_const : List TypeId → List ConstId → Parser ConstantData
decode_const m cm = do tag ← read_u8; const_record m cm tag

unfoldable pub encode_global : GlobalVariable → Bytes
encode_global gv =
    write_u32 gv.ty
    <> write_u8 (encode_linkage gv.linkage)
    <> write_flag gv.is_constant
    <> encode_option write_u32 gv.initializer
    <> write_string gv.name

unfoldable pub decode_global : List TypeId → List ConstId → Parser GlobalVariable
decode_global m cm = do
  ty ← read_type_id m
  linkage ← (read_u8 >>= decode_linkage)
  is_constant ← read_flag
  initializer ← decode_option (read_const_id cm)
  name ← read_string
  pure (record {
    name = name;
    ty = ty;
    initializer = initializer;
    is_constant = is_constant;
    linkage = linkage;
  })
