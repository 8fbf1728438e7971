-- ===== src/Bitcode/Values.antt =====
-- llvm-bitcode/src/writer.rs and reader.rs: value references, optional fields and indices. The
-- message of a parse error is its fixed text.
pub mod Laws
use Prim.Native.Nat.{ℕ}
use mathlib.Core.Bool.{Bool}
use mathlib.Core.List.{List, [], ◌∷◌}
use mathlib.Core.Option.{Option, none, some}
use llvm_in_rust.Base.{get_elem?, ◌==◌, if◌then◌else◌}
use llvm_in_rust.Ir.Ids.{TypeId, ConstId, ValueRef}
use llvm_in_rust.Bitcode.Stream.{
  Bytes, ◌<>◌, Parser, pure, fail, ◌>>=◌, unsupported_record, parse_error, write_u8, write_u32,
  read_u8, read_u32, read_flag, write_flag,
}

unfoldable pub encode_vref : ValueRef → Bytes
encode_vref (ValueRef.instruction id) = write_u8 0 <> write_u32 id
encode_vref (ValueRef.argument id) = write_u8 1 <> write_u32 id
encode_vref (ValueRef.constant id) = write_u8 2 <> write_u32 id
encode_vref (ValueRef.global id) = write_u8 3 <> write_u32 id

unfoldable pub vref_of : ℕ → ℕ → Parser ValueRef
vref_of tag id =
    if tag == 0
    then pure (ValueRef.instruction id)
    else if tag == 1
    then pure (ValueRef.argument id)
    else if tag == 2
    then pure (ValueRef.constant id)
    else if tag == 3
    then pure (ValueRef.global id)
    else fail (unsupported_record tag)

unfoldable pub decode_vref : Parser ValueRef
decode_vref = do tag ← read_u8; id ← read_u32; vref_of tag id

unfoldable pub encode_option {ℓ} : {A : Type ℓ} → (A → Bytes) → Option A → Bytes
encode_option w none = write_u8 0
encode_option w (some a) = write_u8 1 <> w a

unfoldable pub decode_option {ℓ} : {A : Type ℓ} → Parser A → Parser (Option A)
decode_option p = do present ← read_flag; if present then (do a ← p; pure (some a)) else pure none

abbrev pub encode_opt_vref : Option ValueRef → Bytes
encode_opt_vref v = encode_option encode_vref v

abbrev pub decode_opt_vref : Parser (Option ValueRef)
decode_opt_vref = decode_option decode_vref

abbrev pub encode_opt_u32 : Option ℕ → Bytes
encode_opt_u32 v = encode_option write_u32 v

abbrev pub decode_opt_u32 : Parser (Option ℕ)
decode_opt_u32 = decode_option read_u32

unfoldable pub map_type_id : List TypeId → ℕ → Parser TypeId
map_type_id type_id_map raw = elim (get_elem? type_id_map raw) [
  | none ↦ fail (parse_error "type id out of range")
  | some t ↦ pure t
]

unfoldable pub map_const_id : List ConstId → ℕ → Parser ConstId
map_const_id const_id_map raw = elim (get_elem? const_id_map raw) [
  | none ↦ fail (parse_error "const id out of range")
  | some c ↦ pure c
]

unfoldable pub read_type_id : List TypeId → Parser TypeId
read_type_id type_id_map = do raw ← read_u32; map_type_id type_id_map raw

unfoldable pub read_const_id : List ConstId → Parser ConstId
read_const_id const_id_map = do raw ← read_u32; map_const_id const_id_map raw
