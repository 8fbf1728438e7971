-- ===== src/Bitcode/Module.antt =====
-- llvm-bitcode/src/writer.rs and reader.rs: `write_bitcode` and `read_bitcode`, the file as a whole.
pub mod Reached
pub mod Structs
pub mod Types
pub mod Tables
pub mod Laws
use Prim.Native.Nat.{ℕ, zero, suc}
use Prim.Native.String.{String}
use mathlib.Core.Bool.{Bool, true, false}
use mathlib.Core.List.{List, [], ◌∷◌, ◌++◌}
use mathlib.Core.Option
use mathlib.Core.Option.{Option, none, some}
use llvm_in_rust.Base.{◌==◌, if◌then◌else◌}
use llvm_in_rust.Ir.Ids.{TypeId, ConstId}
use llvm_in_rust.Ir.Types.{TypeData}
use llvm_in_rust.Ir.Value.{ConstantData, GlobalVariable}
use llvm_in_rust.Ir.Context.{
  Context, new_context, mk_int, mk_float, mk_ptr, mk_label, mk_metadata, mk_array, mk_vector,
  mk_fn_type, mk_struct_anon, mk_struct_named, define_struct_body,
}
use llvm_in_rust.Ir.Constants.{push_const}
use llvm_in_rust.Ir.Function.{Function}
use llvm_in_rust.Ir.Module.{Module, new_module, add_function, add_global}
use llvm_in_rust.Bitcode.Stream.{
  Bytes, ◌<>◌, Result, ok, panic, Parser, pure, fail, ◌>>=◌, invalid_magic, parse_error, write_u32,
  write_string, write_list, read_bytes, read_u32, read_string, read_list, or_panic,
}
use llvm_in_rust.Bitcode.Types.{encode_type, decode_type}
use llvm_in_rust.Bitcode.Consts.{encode_const, decode_const, encode_global, decode_global}
use llvm_in_rust.Bitcode.Functions.{encode_function, decode_function}

-- `b"LRIR"`
abbrev pub magic : Bytes
magic = 76 ∷ 82 ∷ 73 ∷ 82 ∷ []

unfoldable pub write_bitcode : Context → Module → Bytes
write_bitcode ctx m =
    magic
    <> write_u32 1
    <> write_list encode_type ctx.types
    <> write_list encode_const ctx.constants
    <> write_list encode_global m.globals
    <> write_string m.name
    <> write_list encode_function m.functions

-- A struct with a name is found or made under its name, and then gets its body. `none` is a body for
-- an index out of range.
unfoldable pub intern_type : Context → TypeData → Option (Context × TypeId)
intern_type ctx TypeData.void = some (ctx, ctx.void_ty)
intern_type ctx (TypeData.integer bits) = some (mk_int ctx bits)
intern_type ctx (TypeData.float kind) = some (mk_float ctx kind)
intern_type ctx TypeData.pointer = some (mk_ptr ctx)
intern_type ctx TypeData.label = some (mk_label ctx)
intern_type ctx TypeData.metadata = some (mk_metadata ctx)
intern_type ctx (TypeData.array element len) = some (mk_array ctx element len)
intern_type ctx (TypeData.vector element len scalable) = some (mk_vector ctx element len scalable)
intern_type ctx (TypeData.struct (some name) fields packed) =
    let (ctx', id) = mk_struct_named ctx name in
    Option.map (λ c. (c, id)) (define_struct_body ctx' id fields packed)
intern_type ctx (TypeData.struct none fields packed) = some (mk_struct_anon ctx fields packed)
intern_type ctx (TypeData.function result params variadic) =
    some (mk_fn_type ctx result params variadic)

-- The loop over the type table: the context, and the index of every type read so far.
unfoldable pub read_types : ℕ → Context → List TypeId → Parser (Context × List TypeId)
read_types zero ctx type_id_map = pure (ctx, type_id_map)
read_types (suc n) ctx type_id_map = do
  td ← decode_type type_id_map
  interned ← or_panic (intern_type ctx td)
  read_types n (interned.0) (type_id_map ++ interned.1 ∷ [])

-- The loop over the constant table.
unfoldable pub read_consts :
    ℕ → List TypeId → Context → List ConstId → Parser (Context × List ConstId)
read_consts zero type_id_map ctx const_id_map = pure (ctx, const_id_map)
read_consts (suc n) type_id_map ctx const_id_map = do
  cd ← decode_const type_id_map const_id_map
  let (ctx', cid) = push_const ctx cd in read_consts n type_id_map ctx' (const_id_map ++ cid ∷ [])

unfoldable pub add_globals : Module → List GlobalVariable → Module
add_globals m [] = m
add_globals m (gv ∷ gvs) = add_globals (add_global m gv).0 gvs

unfoldable pub add_functions : Module → List Function → Module
add_functions m [] = m
add_functions m (f ∷ fs) = add_functions (add_function m f).0 fs

unfoldable pub is_magic : Bytes → Bool
is_magic (a ∷ b ∷ c ∷ d ∷ []) =
    if a == 76 then (if b == 82 then (if c == 73 then d == 82 else false) else false) else false
is_magic _ = false

unfoldable pub check_magic : Bytes → Parser {0} Unit
check_magic bytes = if is_magic bytes then pure tt else fail invalid_magic

unfoldable pub check_version : ℕ → Parser {0} Unit
check_version version = if version == 1 then pure tt else fail (parse_error "unsupported version")

unfoldable pub read_module : List TypeId → List ConstId → Parser Module
read_module type_id_map const_id_map = do
  globals ← read_list (decode_global type_id_map const_id_map)
  name ← read_string
  functions ← read_list (decode_function type_id_map)
  pure (add_functions (add_globals (new_module name) globals) functions)

unfoldable pub read_bitcode : Parser (Context × Module)
read_bitcode = do
  magic_bytes ← read_bytes 4
  _ ← check_magic magic_bytes
  version ← read_u32
  _ ← check_version version
  type_count ← read_u32
  types ← read_types type_count new_context []
  const_count ← read_u32
  consts ← read_consts const_count (types.1) (types.0) []
  m ← read_module (types.1) (consts.1)
  pure (consts.0, m)
