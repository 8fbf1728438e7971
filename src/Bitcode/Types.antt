-- ===== src/Bitcode/Types.antt =====
-- llvm-bitcode/src/writer.rs and reader.rs: the records of types.
pub mod Laws
use Prim.Native.Nat.{ℕ}
use Prim.Native.String.{String}
use mathlib.Core.List.{List, [], ◌∷◌}
use mathlib.Core.Option.{Option, none, some}
use llvm_in_rust.Base.{◌==◌, if◌then◌else◌}
use llvm_in_rust.Ir.Ids.{TypeId}
use llvm_in_rust.Ir.Types.{TypeData}
use llvm_in_rust.Bitcode.Stream.{
  Bytes, ◌<>◌, Parser, pure, fail, ◌>>=◌, invalid_type, write_u8, write_u32, write_u64,
  write_string, write_flag, write_list, read_u8, read_u32, read_u64, read_flag, read_list,
  read_opt_string,
}
use llvm_in_rust.Bitcode.Enums.{encode_float_kind, decode_float_kind}
use llvm_in_rust.Bitcode.Values.{map_type_id, read_type_id}

-- An optional text: the length 0 stands for none.
unfoldable pub encode_name : Option String → Bytes
encode_name none = write_u32 0
encode_name (some n) = write_string n

unfoldable pub encode_type : TypeData → Bytes
encode_type TypeData.void = write_u8 0
encode_type (TypeData.integer bits) = write_u8 1 <> write_u32 bits
encode_type (TypeData.float kind) = write_u8 2 <> write_u8 (encode_float_kind kind)
encode_type TypeData.pointer = write_u8 3
encode_type (TypeData.array element len) = write_u8 4 <> write_u32 element <> write_u64 len
encode_type (TypeData.vector element len scalable) =
    write_u8 5 <> write_u32 element <> write_u32 len <> write_flag scalable
encode_type (TypeData.struct name fields packed) =
    write_u8 6 <> encode_name name <> write_flag packed <> write_list write_u32 fields
encode_type (TypeData.function result params variadic) =
    write_u8 7 <> write_u32 result <> write_flag variadic <> write_list write_u32 params
encode_type TypeData.label = write_u8 8
encode_type TypeData.metadata = write_u8 9

unfoldable pub decode_array : List TypeId → Parser TypeData
decode_array type_id_map = do
  elem_raw ← read_u32
  len ← read_u64
  element ← map_type_id type_id_map elem_raw
  pure (TypeData.array element len)

unfoldable pub decode_vector : List TypeId → Parser TypeData
decode_vector type_id_map = do
  elem_raw ← read_u32
  len ← read_u32
  scalable ← read_flag
  element ← map_type_id type_id_map elem_raw
  pure (TypeData.vector element len scalable)

unfoldable pub decode_struct : List TypeId → Parser TypeData
decode_struct type_id_map = do
  name ← read_opt_string
  packed ← read_flag
  fields ← read_list (read_type_id type_id_map)
  pure (TypeData.struct name fields packed)

unfoldable pub decode_function_type : List TypeId → Parser TypeData
decode_function_type type_id_map = do
  ret_raw ← read_u32
  variadic ← read_flag
  params ← read_list (read_type_id type_id_map)
  ret ← map_type_id type_id_map ret_raw
  pure (TypeData.function ret params variadic)

-- `decode_type` behind its tag.
unfoldable pub type_record : List TypeId → ℕ → Parser TypeData
type_record type_id_map tag =
    if tag == 0
    then pure TypeData.void
    else if tag == 1
    then (do bits ← read_u32; pure (TypeData.integer bits))
    else if tag == 2
    then (do kind ← (read_u8 >>= decode_float_kind); pure (TypeData.float kind))
    else if tag == 3
    then pure TypeData.pointer
    else if tag == 4
    then decode_array type_id_map
    else if tag == 5
    then decode_vector type_id_map
    else if tag == 6
    then decode_struct type_id_map
    else if tag == 7
    then decode_function_type type_id_map
    else if tag == 8
    then pure TypeData.label
    else if tag == 9
    then pure TypeData.metadata
    else fail invalid_type

unfoldable pub decode_type : List TypeId → Parser TypeData
decode_type type_id_map = do tag ← read_u8; type_record type_id_map tag
