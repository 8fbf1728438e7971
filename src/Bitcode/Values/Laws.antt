-- ===== src/Bitcode/Values/Laws.antt =====
-- llvm-bitcode/src/reader.rs: value references, optional fields, tags and indices are read back.
use llvm_in_rust.Base.{◌<◌, ◌^◌, ◌≡◌, List, [], Option, none, some, true, false, get_elem?}
use llvm_in_rust.Ir.Ids.{TypeId, ConstId, ValueRef}
use llvm_in_rust.Ir.Ops.{IntPredicate, FloatPredicate, MemOrdering, RmwOp}
use llvm_in_rust.Ir.Types.{FloatKind}
use llvm_in_rust.Ir.Value.{Linkage}
use llvm_in_rust.Bitcode.Stream.{Bytes, Parser, ◌>>=◌, write_u8, write_u32, read_u8, write_flag}
use llvm_in_rust.Bitcode.Reads.{
  Reads, Reads-bind, Reads-last, Reads-then, Reads-pure, Reads-read_u8, Reads-read_u32,
  Reads-read_flag,
}
use llvm_in_rust.Bitcode.Enums.{
  encode_mem_ordering, decode_mem_ordering, encode_rmw_op, decode_rmw_op, encode_int_pred,
  decode_int_pred, encode_float_pred, decode_float_pred, encode_linkage, decode_linkage,
  encode_float_kind, decode_float_kind,
}
use llvm_in_rust.Bitcode.Values.{
  encode_vref, decode_vref, vref_of, encode_option, decode_option, map_type_id, map_const_id,
  read_type_id, read_const_id,
}

-- The index of a value reference is a u32.
abbrev pub FitsVref : ValueRef → Type 0
FitsVref (ValueRef.instruction id) = id < 2 ^ 32
FitsVref (ValueRef.argument id) = id < 2 ^ 32
FitsVref (ValueRef.constant id) = id < 2 ^ 32
FitsVref (ValueRef.global id) = id < 2 ^ 32

pub Reads-decode_vref : (v : ValueRef) → FitsVref v → Reads decode_vref (encode_vref v) v
unfolding decode_vref encode_vref vref_of
Reads-decode_vref (ValueRef.instruction id) h =
    Reads-bind _ (Reads-read_u8 0) (Reads-then _ (Reads-read_u32 id h) (Reads-pure _))
Reads-decode_vref (ValueRef.argument id) h =
    Reads-bind _ (Reads-read_u8 1) (Reads-then _ (Reads-read_u32 id h) (Reads-pure _))
Reads-decode_vref (ValueRef.constant id) h =
    Reads-bind _ (Reads-read_u8 2) (Reads-then _ (Reads-read_u32 id h) (Reads-pure _))
Reads-decode_vref (ValueRef.global id) h =
    Reads-bind _ (Reads-read_u8 3) (Reads-then _ (Reads-read_u32 id h) (Reads-pure _))

abbrev pub FitsOption {ℓ} : {A : Type ℓ} → (A → Type 0) → Option A → Type 0
FitsOption P none = Unit
FitsOption P (some a) = P a

pub Reads-decode_option {ℓ} :
    {A : Type ℓ} (p : Parser A) (w : A → Bytes) (P : A → Type 0)
    → ((a : A) → P a → Reads p (w a) a)
    → (o : Option A) → FitsOption P o
    → Reads (decode_option p) (encode_option w o) o
unfolding decode_option encode_option write_flag
Reads-decode_option p w P one none h = Reads-then _ (Reads-read_flag false) (Reads-pure none)
Reads-decode_option p w P one (some a) h =
    Reads-bind _ (Reads-read_flag true) (Reads-last _ (one a h))

-- A type index that the reader keeps.
abbrev pub KnownType : List TypeId → TypeId → Type 0
KnownType type_id_map t = (t < 2 ^ 32) × (get_elem? type_id_map t ≡ some t)

pub Reads-map_type_id :
    (type_id_map : List TypeId) (t : TypeId)
    → KnownType type_id_map t
    → Reads (map_type_id type_id_map t) [] t
unfolding map_type_id
Reads-map_type_id type_id_map t (h, known) = rw (map_type_id, known) (Reads-pure t)

pub Reads-read_type_id :
    (type_id_map : List TypeId) (t : TypeId)
    → KnownType type_id_map t
    → Reads (read_type_id type_id_map) (write_u32 t) t
unfolding read_type_id
Reads-read_type_id type_id_map t (h, known) =
    Reads-then _ (Reads-read_u32 t h) (Reads-map_type_id type_id_map t (h, known))

-- A constant's index that the reader keeps.
abbrev pub KnownConst : List ConstId → ConstId → Type 0
KnownConst const_id_map c = (c < 2 ^ 32) × (get_elem? const_id_map c ≡ some c)

pub Reads-read_const_id :
    (const_id_map : List ConstId) (c : ConstId)
    → KnownConst const_id_map c
    → Reads (read_const_id const_id_map) (write_u32 c) c
unfolding read_const_id map_const_id
Reads-read_const_id const_id_map c (h, known) =
    Reads-then _ (Reads-read_u32 c h) (rw (map_const_id, known) (Reads-pure c))

pub Reads-mem_ordering :
    (x : MemOrdering) → Reads (read_u8 >>= decode_mem_ordering) (write_u8 (encode_mem_ordering x)) x
unfolding encode_mem_ordering decode_mem_ordering
Reads-mem_ordering MemOrdering.unordered =
    Reads-then _ (Reads-read_u8 0) (Reads-pure MemOrdering.unordered)
Reads-mem_ordering MemOrdering.monotonic =
    Reads-then _ (Reads-read_u8 1) (Reads-pure MemOrdering.monotonic)
Reads-mem_ordering MemOrdering.acquire =
    Reads-then _ (Reads-read_u8 2) (Reads-pure MemOrdering.acquire)
Reads-mem_ordering MemOrdering.release =
    Reads-then _ (Reads-read_u8 3) (Reads-pure MemOrdering.release)
Reads-mem_ordering MemOrdering.acq_rel =
    Reads-then _ (Reads-read_u8 4) (Reads-pure MemOrdering.acq_rel)
Reads-mem_ordering MemOrdering.seq_cst =
    Reads-then _ (Reads-read_u8 5) (Reads-pure MemOrdering.seq_cst)

pub Reads-rmw_op : (x : RmwOp) → Reads (read_u8 >>= decode_rmw_op) (write_u8 (encode_rmw_op x)) x
unfolding encode_rmw_op decode_rmw_op
Reads-rmw_op RmwOp.xchg = Reads-then _ (Reads-read_u8 0) (Reads-pure RmwOp.xchg)
Reads-rmw_op RmwOp.add = Reads-then _ (Reads-read_u8 1) (Reads-pure RmwOp.add)
Reads-rmw_op RmwOp.sub = Reads-then _ (Reads-read_u8 2) (Reads-pure RmwOp.sub)
Reads-rmw_op RmwOp.and = Reads-then _ (Reads-read_u8 3) (Reads-pure RmwOp.and)
Reads-rmw_op RmwOp.nand = Reads-then _ (Reads-read_u8 4) (Reads-pure RmwOp.nand)
Reads-rmw_op RmwOp.or = Reads-then _ (Reads-read_u8 5) (Reads-pure RmwOp.or)
Reads-rmw_op RmwOp.xor = Reads-then _ (Reads-read_u8 6) (Reads-pure RmwOp.xor)
Reads-rmw_op RmwOp.max = Reads-then _ (Reads-read_u8 7) (Reads-pure RmwOp.max)
Reads-rmw_op RmwOp.min = Reads-then _ (Reads-read_u8 8) (Reads-pure RmwOp.min)
Reads-rmw_op RmwOp.umax = Reads-then _ (Reads-read_u8 9) (Reads-pure RmwOp.umax)
Reads-rmw_op RmwOp.umin = Reads-then _ (Reads-read_u8 10) (Reads-pure RmwOp.umin)
Reads-rmw_op RmwOp.fadd = Reads-then _ (Reads-read_u8 11) (Reads-pure RmwOp.fadd)
Reads-rmw_op RmwOp.fsub = Reads-then _ (Reads-read_u8 12) (Reads-pure RmwOp.fsub)

pub Reads-int_pred :
    (x : IntPredicate) → Reads (read_u8 >>= decode_int_pred) (write_u8 (encode_int_pred x)) x
unfolding encode_int_pred decode_int_pred
Reads-int_pred IntPredicate.eq = Reads-then _ (Reads-read_u8 0) (Reads-pure IntPredicate.eq)
Reads-int_pred IntPredicate.ne = Reads-then _ (Reads-read_u8 1) (Reads-pure IntPredicate.ne)
Reads-int_pred IntPredicate.ugt = Reads-then _ (Reads-read_u8 2) (Reads-pure IntPredicate.ugt)
Reads-int_pred IntPredicate.uge = Reads-then _ (Reads-read_u8 3) (Reads-pure IntPredicate.uge)
Reads-int_pred IntPredicate.ult = Reads-then _ (Reads-read_u8 4) (Reads-pure IntPredicate.ult)
Reads-int_pred IntPredicate.ule = Reads-then _ (Reads-read_u8 5) (Reads-pure IntPredicate.ule)
Reads-int_pred IntPredicate.sgt = Reads-then _ (Reads-read_u8 6) (Reads-pure IntPredicate.sgt)
Reads-int_pred IntPredicate.sge = Reads-then _ (Reads-read_u8 7) (Reads-pure IntPredicate.sge)
Reads-int_pred IntPredicate.slt = Reads-then _ (Reads-read_u8 8) (Reads-pure IntPredicate.slt)
Reads-int_pred IntPredicate.sle = Reads-then _ (Reads-read_u8 9) (Reads-pure IntPredicate.sle)

pub Reads-float_pred :
    (x : FloatPredicate) → Reads (read_u8 >>= decode_float_pred) (write_u8 (encode_float_pred x)) x
unfolding encode_float_pred decode_float_pred
Reads-float_pred FloatPredicate.never =
    Reads-then _ (Reads-read_u8 0) (Reads-pure FloatPredicate.never)
Reads-float_pred FloatPredicate.oeq = Reads-then _ (Reads-read_u8 1) (Reads-pure FloatPredicate.oeq)
Reads-float_pred FloatPredicate.ogt = Reads-then _ (Reads-read_u8 2) (Reads-pure FloatPredicate.ogt)
Reads-float_pred FloatPredicate.oge = Reads-then _ (Reads-read_u8 3) (Reads-pure FloatPredicate.oge)
Reads-float_pred FloatPredicate.olt = Reads-then _ (Reads-read_u8 4) (Reads-pure FloatPredicate.olt)
Reads-float_pred FloatPredicate.ole = Reads-then _ (Reads-read_u8 5) (Reads-pure FloatPredicate.ole)
Reads-float_pred FloatPredicate.one = Reads-then _ (Reads-read_u8 6) (Reads-pure FloatPredicate.one)
Reads-float_pred FloatPredicate.ord = Reads-then _ (Reads-read_u8 7) (Reads-pure FloatPredicate.ord)
Reads-float_pred FloatPredicate.uno = Reads-then _ (Reads-read_u8 8) (Reads-pure FloatPredicate.uno)
Reads-float_pred FloatPredicate.ueq = Reads-then _ (Reads-read_u8 9) (Reads-pure FloatPredicate.ueq)
Reads-float_pred FloatPredicate.ugt =
    Reads-then _ (Reads-read_u8 10) (Reads-pure FloatPredicate.ugt)
Reads-float_pred FloatPredicate.uge =
    Reads-then _ (Reads-read_u8 11) (Reads-pure FloatPredicate.uge)
Reads-float_pred FloatPredicate.ult =
    Reads-then _ (Reads-read_u8 12) (Reads-pure FloatPredicate.ult)
Reads-float_pred FloatPredicate.ule =
    Reads-then _ (Reads-read_u8 13) (Reads-pure FloatPredicate.ule)
Reads-float_pred FloatPredicate.une =
    Reads-then _ (Reads-read_u8 14) (Reads-pure FloatPredicate.une)
Reads-float_pred FloatPredicate.always =
    Reads-then _ (Reads-read_u8 15) (Reads-pure FloatPredicate.always)

pub Reads-linkage :
    (x : Linkage) → Reads (read_u8 >>= decode_linkage) (write_u8 (encode_linkage x)) x
unfolding encode_linkage decode_linkage
Reads-linkage Linkage.private = Reads-then _ (Reads-read_u8 0) (Reads-pure Linkage.private)
Reads-linkage Linkage.internal = Reads-then _ (Reads-read_u8 1) (Reads-pure Linkage.internal)
Reads-linkage Linkage.external = Reads-then _ (Reads-read_u8 2) (Reads-pure Linkage.external)
Reads-linkage Linkage.weak = Reads-then _ (Reads-read_u8 3) (Reads-pure Linkage.weak)
Reads-linkage Linkage.weak_odr = Reads-then _ (Reads-read_u8 4) (Reads-pure Linkage.weak_odr)
Reads-linkage Linkage.link_once = Reads-then _ (Reads-read_u8 5) (Reads-pure Linkage.link_once)
Reads-linkage Linkage.link_once_odr =
    Reads-then _ (Reads-read_u8 6) (Reads-pure Linkage.link_once_odr)
Reads-linkage Linkage.common = Reads-then _ (Reads-read_u8 7) (Reads-pure Linkage.common)
Reads-linkage Linkage.available_externally =
    Reads-then _ (Reads-read_u8 8) (Reads-pure Linkage.available_externally)

pub Reads-float_kind :
    (x : FloatKind) → Reads (read_u8 >>= decode_float_kind) (write_u8 (encode_float_kind x)) x
unfolding encode_float_kind decode_float_kind
Reads-float_kind FloatKind.half = Reads-then _ (Reads-read_u8 0) (Reads-pure FloatKind.half)
Reads-float_kind FloatKind.bfloat = Reads-then _ (Reads-read_u8 1) (Reads-pure FloatKind.bfloat)
Reads-float_kind FloatKind.single = Reads-then _ (Reads-read_u8 2) (Reads-pure FloatKind.single)
Reads-float_kind FloatKind.double = Reads-then _ (Reads-read_u8 3) (Reads-pure FloatKind.double)
Reads-float_kind FloatKind.fp128 = Reads-then _ (Reads-read_u8 4) (Reads-pure FloatKind.fp128)
Reads-float_kind FloatKind.x86_fp80 = Reads-then _ (Reads-read_u8 5) (Reads-pure FloatKind.x86_fp80)
