-- ===== src/Bitcode/Enums.antt =====
-- llvm-bitcode/src/writer.rs and reader.rs: the tags of the enumerations.
use Prim.Native.Nat.{ℕ}
use llvm_in_rust.Base.{◌==◌, if◌then◌else◌}
use llvm_in_rust.Ir.Ops.{IntPredicate, FloatPredicate, MemOrdering, RmwOp}
use llvm_in_rust.Ir.Types.{FloatKind}
use llvm_in_rust.Ir.Value.{Linkage}
use llvm_in_rust.Bitcode.Stream.{Parser, pure, fail, unsupported_record, invalid_type}

unfoldable pub encode_mem_ordering : MemOrdering → ℕ
encode_mem_ordering MemOrdering.unordered = 0
encode_mem_ordering MemOrdering.monotonic = 1
encode_mem_ordering MemOrdering.acquire = 2
encode_mem_ordering MemOrdering.release = 3
encode_mem_ordering MemOrdering.acq_rel = 4
encode_mem_ordering MemOrdering.seq_cst = 5

unfoldable pub decode_mem_ordering : ℕ → Parser MemOrdering
decode_mem_ordering tag =
    if tag == 0
    then pure MemOrdering.unordered
    else if tag == 1
    then pure MemOrdering.monotonic
    else if tag == 2
    then pure MemOrdering.acquire
    else if tag == 3
    then pure MemOrdering.release
    else if tag == 4
    then pure MemOrdering.acq_rel
    else if tag == 5
    then pure MemOrdering.seq_cst
    else fail (unsupported_record tag)

unfoldable pub encode_rmw_op : RmwOp → ℕ
encode_rmw_op RmwOp.xchg = 0
encode_rmw_op RmwOp.add = 1
encode_rmw_op RmwOp.sub = 2
encode_rmw_op RmwOp.and = 3
encode_rmw_op RmwOp.nand = 4
encode_rmw_op RmwOp.or = 5
encode_rmw_op RmwOp.xor = 6
encode_rmw_op RmwOp.max = 7
encode_rmw_op RmwOp.min = 8
encode_rmw_op RmwOp.umax = 9
encode_rmw_op RmwOp.umin = 10
encode_rmw_op RmwOp.fadd = 11
encode_rmw_op RmwOp.fsub = 12

unfoldable pub decode_rmw_op : ℕ → Parser RmwOp
decode_rmw_op tag =
    if tag == 0
    then pure RmwOp.xchg
    else if tag == 1
    then pure RmwOp.add
    else if tag == 2
    then pure RmwOp.sub
    else if tag == 3
    then pure RmwOp.and
    else if tag == 4
    then pure RmwOp.nand
    else if tag == 5
    then pure RmwOp.or
    else if tag == 6
    then pure RmwOp.xor
    else if tag == 7
    then pure RmwOp.max
    else if tag == 8
    then pure RmwOp.min
    else if tag == 9
    then pure RmwOp.umax
    else if tag == 10
    then pure RmwOp.umin
    else if tag == 11
    then pure RmwOp.fadd
    else if tag == 12
    then pure RmwOp.fsub
    else fail (unsupported_record tag)

unfoldable pub encode_int_pred : IntPredicate → ℕ
encode_int_pred IntPredicate.eq = 0
encode_int_pred IntPredicate.ne = 1
encode_int_pred IntPredicate.ugt = 2
encode_int_pred IntPredicate.uge = 3
encode_int_pred IntPredicate.ult = 4
encode_int_pred IntPredicate.ule = 5
encode_int_pred IntPredicate.sgt = 6
encode_int_pred IntPredicate.sge = 7
encode_int_pred IntPredicate.slt = 8
encode_int_pred IntPredicate.sle = 9

unfoldable pub decode_int_pred : ℕ → Parser IntPredicate
decode_int_pred tag =
    if tag == 0
    then pure IntPredicate.eq
    else if tag == 1
    then pure IntPredicate.ne
    else if tag == 2
    then pure IntPredicate.ugt
    else if tag == 3
    then pure IntPredicate.uge
    else if tag == 4
    then pure IntPredicate.ult
    else if tag == 5
    then pure IntPredicate.ule
    else if tag == 6
    then pure IntPredicate.sgt
    else if tag == 7
    then pure IntPredicate.sge
    else if tag == 8
    then pure IntPredicate.slt
    else if tag == 9
    then pure IntPredicate.sle
    else fail (unsupported_record tag)

unfoldable pub encode_float_pred : FloatPredicate → ℕ
encode_float_pred FloatPredicate.never = 0
encode_float_pred FloatPredicate.oeq = 1
encode_float_pred FloatPredicate.ogt = 2
encode_float_pred FloatPredicate.oge = 3
encode_float_pred FloatPredicate.olt = 4
encode_float_pred FloatPredicate.ole = 5
encode_float_pred FloatPredicate.one = 6
encode_float_pred FloatPredicate.ord = 7
encode_float_pred FloatPredicate.uno = 8
encode_float_pred FloatPredicate.ueq = 9
encode_float_pred FloatPredicate.ugt = 10
encode_float_pred FloatPredicate.uge = 11
encode_float_pred FloatPredicate.ult = 12
encode_float_pred FloatPredicate.ule = 13
encode_float_pred FloatPredicate.une = 14
encode_float_pred FloatPredicate.always = 15

unfoldable pub decode_float_pred : ℕ → Parser FloatPredicate
decode_float_pred tag =
    if tag == 0
    then pure FloatPredicate.never
    else if tag == 1
    then pure FloatPredicate.oeq
    else if tag == 2
    then pure FloatPredicate.ogt
    else if tag == 3
    then pure FloatPredicate.oge
    else if tag == 4
    then pure FloatPredicate.olt
    else if tag == 5
    then pure FloatPredicate.ole
    else if tag == 6
    then pure FloatPredicate.one
    else if tag == 7
    then pure FloatPredicate.ord
    else if tag == 8
    then pure FloatPredicate.uno
    else if tag == 9
    then pure FloatPredicate.ueq
    else if tag == 10
    then pure FloatPredicate.ugt
    else if tag == 11
    then pure FloatPredicate.uge
    else if tag == 12
    then pure FloatPredicate.ult
    else if tag == 13
    then pure FloatPredicate.ule
    else if tag == 14
    then pure FloatPredicate.une
    else if tag == 15
    then pure FloatPredicate.always
    else fail (unsupported_record tag)

unfoldable pub encode_linkage : Linkage → ℕ
encode_linkage Linkage.private = 0
encode_linkage Linkage.internal = 1
encode_linkage Linkage.external = 2
encode_linkage Linkage.weak = 3
encode_linkage Linkage.weak_odr = 4
encode_linkage Linkage.link_once = 5
encode_linkage Linkage.link_once_odr = 6
encode_linkage Linkage.common = 7
encode_linkage Linkage.available_externally = 8

unfoldable pub decode_linkage : ℕ → Parser Linkage
decode_linkage tag =
    if tag == 0
    then pure Linkage.private
    else if tag == 1
    then pure Linkage.internal
    else if tag == 2
    then pure Linkage.external
    else if tag == 3
    then pure Linkage.weak
    else if tag == 4
    then pure Linkage.weak_odr
    else if tag == 5
    then pure Linkage.link_once
    else if tag == 6
    then pure Linkage.link_once_odr
    else if tag == 7
    then pure Linkage.common
    else if tag == 8
    then pure Linkage.available_externally
    else fail (unsupported_record tag)

unfoldable pub encode_float_kind : FloatKind → ℕ
encode_float_kind FloatKind.half = 0
encode_float_kind FloatKind.bfloat = 1
encode_float_kind FloatKind.single = 2
encode_float_kind FloatKind.double = 3
encode_float_kind FloatKind.fp128 = 4
encode_float_kind FloatKind.x86_fp80 = 5

unfoldable pub decode_float_kind : ℕ → Parser FloatKind
decode_float_kind tag =
    if tag == 0
    then pure FloatKind.half
    else if tag == 1
    then pure FloatKind.bfloat
    else if tag == 2
    then pure FloatKind.single
    else if tag == 3
    then pure FloatKind.double
    else if tag == 4
    then pure FloatKind.fp128
    else if tag == 5
    then pure FloatKind.x86_fp80
    else fail invalid_type
