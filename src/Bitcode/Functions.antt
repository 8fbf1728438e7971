-- ===== src/Bitcode/Functions.antt =====
-- llvm-bitcode/src/writer.rs and reader.rs: the records of functions.
pub mod Laws
use Prim.Native.Nat.{ℕ, zero, suc}
use Prim.Native.String.{String}
use mathlib.Core.Bool.{Bool, false, not}
use mathlib.Core.List.{List, [], ◌∷◌, ◌++◌, map}
use mathlib.Core.Option.{Option, none, some}
use llvm_in_rust.Base.{◌==◌, if◌then◌else◌}
use llvm_in_rust.Ir.Ids.{TypeId, InstrId}
use llvm_in_rust.Ir.Value.{Argument, Linkage}
use llvm_in_rust.Ir.Block.{BasicBlock}
use llvm_in_rust.Ir.Function.{Function, Instruction, new_function, new_declaration, alloc_instr}
use llvm_in_rust.Bitcode.Stream.{
  Bytes, ◌<>◌, Result, ok, err, panic, Parser, pure, ◌>>=◌, write_u8, write_u32, write_string,
  write_flag, write_list, or_panic, read_u8, read_u32, read_string, read_flag, read_list,
}
use llvm_in_rust.Bitcode.Enums.{encode_linkage, decode_linkage}
use llvm_in_rust.Bitcode.Values.{read_type_id}
use llvm_in_rust.Bitcode.Instrs.{encode_instr}
use llvm_in_rust.Bitcode.Instrs.Decode.{decode_instr}

unfoldable pub encode_arg : Argument → Bytes
encode_arg arg = write_string arg.name <> write_u32 arg.ty <> write_u32 arg.index

-- The terminator's id, or 0xFFFFFFFF.
unfoldable pub encode_terminator : Option InstrId → Bytes
encode_terminator none = write_u32 4294967295
encode_terminator (some tid) = write_u32 tid

unfoldable pub encode_block : BasicBlock → Bytes
encode_block bb =
    write_string bb.name <> write_list write_u32 bb.body <> encode_terminator bb.terminator

unfoldable pub encode_function : Function → Bytes
encode_function func =
    write_string func.name
    <> write_u32 func.ty
    <> write_u8 (encode_linkage func.linkage)
    <> write_flag func.is_declaration
    <> write_flag func.strictfp
    <> write_list encode_arg func.args
    <> write_list encode_block func.blocks
    <> write_list encode_instr func.instructions

-- `r.u8().unwrap_or(0) != 0`: where no byte is left, nothing is taken.
unfoldable pub read_strictfp : Parser Bool
read_strictfp bs = elim (read_u8 bs) [
  | err _ ↦ ok (false, bs)
  | ok (b, rest) ↦ ok (not (b == 0), rest)
  | panic ↦ panic
]

unfoldable pub decode_arg : List TypeId → Parser Argument
decode_arg m = do
  name ← read_string
  ty ← read_type_id m
  index ← read_u32
  pure (record { name = name; ty = ty; index = index })

-- The name, the body and the terminator of a block as they are stored.
abbrev pub BlockRecord : Type 0
BlockRecord = String × List ℕ × ℕ

unfoldable pub read_block_record : Parser BlockRecord
read_block_record = do
  name ← read_string
  body ← read_list read_u32
  term ← read_u32
  pure (name, body, term)

unfoldable pub terminator_of : ℕ → Option InstrId
terminator_of term_raw = if term_raw == 4294967295 then none else some term_raw

unfoldable pub block_of : BlockRecord → BasicBlock
unfolding terminator_of
block_of (name, body, term_raw) = record {
  name = name;
  body = body;
  terminator = terminator_of term_raw;
}

-- The function before its instructions and its blocks.
unfoldable pub function_head : String → TypeId → Linkage → Bool → Bool → List Argument → Function
function_head name ty linkage is_declaration strictfp args =
    let func =
      if is_declaration
      then new_declaration name ty args linkage
      else new_function name ty args linkage in
    record func { is_declaration = is_declaration; strictfp = strictfp }

-- The loop over the pool of instructions.
unfoldable pub alloc_all : List TypeId → ℕ → Function → Parser Function
alloc_all m zero func = pure func
alloc_all m (suc n) func = do
  instr ← decode_instr m
  allocated ← or_panic (alloc_instr func instr)
  alloc_all m n (allocated.0)

unfoldable pub push_blocks : Function → List BlockRecord → Function
push_blocks f records = record f { blocks = f.blocks ++ map block_of records }

unfoldable pub decode_function : List TypeId → Parser Function
decode_function m = do
  name ← read_string
  ty ← read_type_id m
  linkage ← (read_u8 >>= decode_linkage)
  is_declaration ← read_flag
  strictfp ← read_strictfp
  args ← read_list (decode_arg m)
  block_records ← read_list read_block_record
  instr_count ← read_u32
  func ← alloc_all m instr_count (function_head name ty linkage is_declaration strictfp args)
  pure (push_blocks func block_records)
