-- ===== src/Bitcode/Consts/Laws.antt =====
-- llvm-bitcode/src/reader.rs: the records of constants and of global variables are read back.
use llvm_in_rust.Base.{ℕ, ◌<◌, ◌^◌, List, true, false}
use llvm_in_rust.Ir.Ids.{TypeId, ConstId}
use llvm_in_rust.Ir.Value.{ConstExprOp, ConstantData, GlobalVariable}
use llvm_in_rust.Bitcode.Stream.{
  ◌>>=◌, write_u32, write_u64, write_list, read_u8, read_u64, read_list,
}
use llvm_in_rust.Bitcode.Reads.{
  Reads, Reads-bind, Reads-last, Reads-then, Reads-pure, Reads-read_u8, Reads-read_u32,
  Reads-read_u64, Reads-read_flag, Reads-read_string, Reads-read_list, FitsText,
}
use llvm_in_rust.Bitcode.Values.{read_const_id}
use llvm_in_rust.Bitcode.Values.Laws.{
  KnownType, KnownConst, FitsOption, Reads-decode_option, Reads-read_type_id, Reads-read_const_id,
  Reads-linkage,
}
use llvm_in_rust.Bitcode.Instrs.Parts.{FitsList, FitsU32}
use llvm_in_rust.Bitcode.Consts.{
  encode_op, encode_aggregate, encode_const, op_record, decode_aggregate, decode_typed,
  decode_scalar, decode_int_wide, decode_global_ref, decode_expr, const_record, decode_const,
  encode_global, decode_global,
}

abbrev FitsU64 : ℕ → Type 0
FitsU64 n = n < 2 ^ 64

abbrev pub FitsOp : List TypeId → ConstExprOp → Type 0
FitsOp m (ConstExprOp.get_element_ptr inbounds base_ty) = KnownType m base_ty
FitsOp m _ = Unit

-- The numbers of a constant fit their fields, and it refers to types and constants that the reader
-- keeps.
abbrev pub FitsConst : List TypeId → List ConstId → ConstantData → Type 0
FitsConst m cm (ConstantData.int ty val) = KnownType m ty × FitsU64 val
FitsConst m cm (ConstantData.int_wide ty words) = KnownType m ty × FitsList FitsU64 words
FitsConst m cm (ConstantData.float ty bits) = KnownType m ty × FitsU64 bits
FitsConst m cm (ConstantData.null ty) = KnownType m ty
FitsConst m cm (ConstantData.undef ty) = KnownType m ty
FitsConst m cm (ConstantData.poison ty) = KnownType m ty
FitsConst m cm (ConstantData.zero_initializer ty) = KnownType m ty
FitsConst m cm (ConstantData.array ty ids) = KnownType m ty × FitsList (KnownConst cm) ids
FitsConst m cm (ConstantData.struct ty ids) = KnownType m ty × FitsList (KnownConst cm) ids
FitsConst m cm (ConstantData.vector ty ids) = KnownType m ty × FitsList (KnownConst cm) ids
FitsConst m cm (ConstantData.global_ref ty id name) = KnownType m ty × FitsU32 id × FitsText name
FitsConst m cm (ConstantData.expr ty op ids) =
    KnownType m ty × FitsOp m op × FitsList (KnownConst cm) ids

Reads-op :
    (m : List TypeId) (op : ConstExprOp)
    → FitsOp m op
    → Reads (read_u8 >>= op_record m) (encode_op op) op
unfolding encode_op op_record
Reads-op m (ConstExprOp.get_element_ptr false base_ty) h =
    Reads-bind _ (Reads-read_u8 0) (Reads-last _ (Reads-read_type_id m base_ty h))
Reads-op m (ConstExprOp.get_element_ptr true base_ty) h =
    Reads-bind _ (Reads-read_u8 1) (Reads-last _ (Reads-read_type_id m base_ty h))
Reads-op m ConstExprOp.bit_cast h = Reads-then _ (Reads-read_u8 2) (Reads-pure _)
Reads-op m ConstExprOp.int_to_ptr h = Reads-then _ (Reads-read_u8 3) (Reads-pure _)
Reads-op m ConstExprOp.ptr_to_int h = Reads-then _ (Reads-read_u8 4) (Reads-pure _)
Reads-op m ConstExprOp.addr_space_cast h = Reads-then _ (Reads-read_u8 5) (Reads-pure _)
Reads-op m ConstExprOp.trunc h = Reads-then _ (Reads-read_u8 6) (Reads-pure _)
Reads-op m ConstExprOp.zext h = Reads-then _ (Reads-read_u8 7) (Reads-pure _)
Reads-op m ConstExprOp.sext h = Reads-then _ (Reads-read_u8 8) (Reads-pure _)

Reads-const_ids :
    (cm : List ConstId) (ids : List ConstId)
    → FitsList (KnownConst cm) ids
    → Reads (read_list (read_const_id cm)) (write_list write_u32 ids) ids
Reads-const_ids cm ids (n, h) =
    Reads-read_list (read_const_id cm) write_u32 (KnownConst cm) (Reads-read_const_id cm) ids n h

-- Reading the record of a constant gives the constant, when its numbers fit their fields and it
-- refers to types and constants that the reader keeps at their index.
pub decode_const-encode_const :
    (m : List TypeId) (cm : List ConstId) (c : ConstantData)
    → FitsConst m cm c
    → Reads (decode_const m cm) (encode_const c) c
unfolding encode_const encode_aggregate decode_const const_record decode_aggregate decode_typed
    decode_scalar decode_int_wide decode_global_ref decode_expr
decode_const-encode_const m cm (ConstantData.int ty val) (t, h) =
    Reads-bind _ (Reads-read_u8 0)
      (Reads-bind _ (Reads-read_type_id m ty t) (Reads-last _ (Reads-read_u64 val h)))
decode_const-encode_const m cm (ConstantData.int_wide ty words) (t, (n, h)) =
    Reads-bind _ (Reads-read_u8 1) (
      Reads-bind _ (Reads-read_type_id m ty t)
        (Reads-last _ (Reads-read_list read_u64 write_u64 FitsU64 Reads-read_u64 words n h)))
decode_const-encode_const m cm (ConstantData.float ty bits) (t, h) =
    Reads-bind _ (Reads-read_u8 2)
      (Reads-bind _ (Reads-read_type_id m ty t) (Reads-last _ (Reads-read_u64 bits h)))
decode_const-encode_const m cm (ConstantData.null ty) t =
    Reads-bind _ (Reads-read_u8 3) (Reads-last _ (Reads-read_type_id m ty t))
decode_const-encode_const m cm (ConstantData.undef ty) t =
    Reads-bind _ (Reads-read_u8 4) (Reads-last _ (Reads-read_type_id m ty t))
decode_const-encode_const m cm (ConstantData.poison ty) t =
    Reads-bind _ (Reads-read_u8 5) (Reads-last _ (Reads-read_type_id m ty t))
decode_const-encode_const m cm (ConstantData.zero_initializer ty) t =
    Reads-bind _ (Reads-read_u8 6) (Reads-last _ (Reads-read_type_id m ty t))
decode_const-encode_const m cm (ConstantData.array ty ids) (t, h) =
    Reads-bind _ (Reads-read_u8 7)
      (Reads-bind _ (Reads-read_type_id m ty t) (Reads-last _ (Reads-const_ids cm ids h)))
decode_const-encode_const m cm (ConstantData.struct ty ids) (t, h) =
    Reads-bind _ (Reads-read_u8 8)
      (Reads-bind _ (Reads-read_type_id m ty t) (Reads-last _ (Reads-const_ids cm ids h)))
decode_const-encode_const m cm (ConstantData.vector ty ids) (t, h) =
    Reads-bind _ (Reads-read_u8 9)
      (Reads-bind _ (Reads-read_type_id m ty t) (Reads-last _ (Reads-const_ids cm ids h)))
decode_const-encode_const m cm (ConstantData.global_ref ty id name) (t, i, n) =
    Reads-bind _ (Reads-read_u8 10) (
      Reads-bind _ (Reads-read_type_id m ty t)
        (Reads-bind _ (Reads-read_u32 id i) (Reads-last _ (Reads-read_string name n))))
decode_const-encode_const m cm (ConstantData.expr ty op ids) (t, o, h) =
    Reads-bind _ (Reads-read_u8 11) (
      Reads-bind _ (Reads-read_type_id m ty t)
        (Reads-bind _ (Reads-op m op o) (Reads-last _ (Reads-const_ids cm ids h))))

-- The name of a global variable is not too long, and its type and initializer are kept by the reader.
abbrev pub FitsGlobal : List TypeId → List ConstId → GlobalVariable → Type 0
FitsGlobal m cm gv =
    KnownType m gv.ty × FitsOption (KnownConst cm) gv.initializer × FitsText gv.name

pub decode_global-encode_global :
    (m : List TypeId) (cm : List ConstId) (gv : GlobalVariable)
    → FitsGlobal m cm gv
    → Reads (decode_global m cm) (encode_global gv) gv
unfolding encode_global decode_global
decode_global-encode_global m cm gv (t, i, n) = Reads-bind _ (Reads-read_type_id m gv.ty t) (
    Reads-bind _ (Reads-linkage gv.linkage) (
      Reads-bind _ (Reads-read_flag gv.is_constant) (
        Reads-bind _
          (Reads-decode_option (read_const_id cm) write_u32 (KnownConst cm) (Reads-read_const_id cm)
            gv.initializer i)
          (Reads-last _ (Reads-read_string gv.name n)))))
