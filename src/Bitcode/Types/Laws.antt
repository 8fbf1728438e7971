-- ===== src/Bitcode/Types/Laws.antt =====
-- llvm-bitcode/src/reader.rs: the records of types are read back.
use Prim.Native.String.{String}
use llvm_in_rust.Base.{◌<◌, ◌^◌, ◌≢◌, List, Option, none, some, length}
use llvm_in_rust.Ir.Ids.{TypeId}
use llvm_in_rust.Ir.Types.{TypeData}
use llvm_in_rust.Bitcode.Stream.{write_u32, read_opt_string, read_list, write_list}
use llvm_in_rust.Bitcode.Reads.{
  Reads, Reads-bind, Reads-last, Reads-then, Reads-pure, Reads-read_u8, Reads-read_u32,
  Reads-read_u64, Reads-read_flag, Reads-read_list, Reads-read_opt_string-some,
  Reads-read_opt_string-none, FitsText, AllFit,
}
use llvm_in_rust.Bitcode.Values.{read_type_id}
use llvm_in_rust.Bitcode.Values.Laws.{
  KnownType, Reads-read_type_id, Reads-map_type_id, Reads-float_kind,
}
use llvm_in_rust.Bitcode.Types.{
  encode_name, encode_type, decode_type, type_record, decode_array, decode_vector, decode_struct,
  decode_function_type,
}

-- A name that is not empty and not too long, or none.
abbrev pub FitsName : Option String → Type 0
FitsName none = Unit
FitsName (some n) = FitsText n × (n ≢ "")

pub Reads-encode_name : (n : Option String) → FitsName n → Reads read_opt_string (encode_name n) n
unfolding encode_name
Reads-encode_name none h = Reads-read_opt_string-none
Reads-encode_name (some n) (h, full) = Reads-read_opt_string-some n h full

-- The reader keeps each of the type indices, of which there are fewer than 2^32.
abbrev pub KnownTypes : List TypeId → List TypeId → Type 0
KnownTypes type_id_map ts = (length ts < 2 ^ 32) × AllFit (KnownType type_id_map) ts

pub Reads-type_ids :
    (type_id_map : List TypeId) (ts : List TypeId)
    → KnownTypes type_id_map ts
    → Reads (read_list (read_type_id type_id_map)) (write_list write_u32 ts) ts
Reads-type_ids type_id_map ts (short, known) =
    Reads-read_list (read_type_id type_id_map) write_u32 (KnownType type_id_map)
      (Reads-read_type_id type_id_map) ts short known

-- The numbers of a type fit their fields, and it refers to types that the reader keeps.
abbrev pub FitsType : List TypeId → TypeData → Type 0
FitsType m (TypeData.integer bits) = bits < 2 ^ 32
FitsType m (TypeData.array element len) = KnownType m element × (len < 2 ^ 64)
FitsType m (TypeData.vector element len scalable) = KnownType m element × (len < 2 ^ 32)
FitsType m (TypeData.struct name fields packed) = FitsName name × KnownTypes m fields
FitsType m (TypeData.function result params variadic) = KnownType m result × KnownTypes m params
FitsType m _ = Unit

-- Reading the record of a type gives the type, when its numbers fit their fields and it refers to
-- types that the reader keeps at their index.
pub decode_type-encode_type :
    (m : List TypeId) (td : TypeData) → FitsType m td → Reads (decode_type m) (encode_type td) td
unfolding decode_type encode_type type_record decode_array decode_vector decode_struct
    decode_function_type
decode_type-encode_type m TypeData.void h = Reads-then _ (Reads-read_u8 0) (Reads-pure _)
decode_type-encode_type m (TypeData.integer bits) h =
    Reads-bind _ (Reads-read_u8 1) (Reads-last _ (Reads-read_u32 bits h))
decode_type-encode_type m (TypeData.float kind) h =
    Reads-bind _ (Reads-read_u8 2) (Reads-last _ (Reads-float_kind kind))
decode_type-encode_type m TypeData.pointer h = Reads-then _ (Reads-read_u8 3) (Reads-pure _)
decode_type-encode_type m (TypeData.array element len) (known, h) = Reads-bind _ (Reads-read_u8 4) (
    Reads-bind _ (Reads-read_u32 element (known.0))
      (Reads-then _ (Reads-read_u64 len h) (Reads-last _ (Reads-map_type_id m element known))))
decode_type-encode_type m (TypeData.vector element len scalable) (known, h) =
    Reads-bind _ (Reads-read_u8 5) (
      Reads-bind _ (Reads-read_u32 element (known.0)) (
        Reads-bind _ (Reads-read_u32 len h) (
          Reads-then _ (Reads-read_flag scalable)
            (Reads-last _ (Reads-map_type_id m element known)))))
decode_type-encode_type m (TypeData.struct name fields packed) (named, known) =
    Reads-bind _ (Reads-read_u8 6) (
      Reads-bind _ (Reads-encode_name name named)
        (Reads-bind _ (Reads-read_flag packed) (Reads-last _ (Reads-type_ids m fields known))))
decode_type-encode_type m (TypeData.function result params variadic) (known, rest) =
    Reads-bind _ (Reads-read_u8 7) (
      Reads-bind _ (Reads-read_u32 result (known.0)) (
        Reads-bind _ (Reads-read_flag variadic) (
          Reads-then _ (Reads-type_ids m params rest)
            (Reads-last _ (Reads-map_type_id m result known)))))
decode_type-encode_type m TypeData.label h = Reads-then _ (Reads-read_u8 8) (Reads-pure _)
decode_type-encode_type m TypeData.metadata h = Reads-then _ (Reads-read_u8 9) (Reads-pure _)
