-- ===== src/Bitcode/Instrs/Fits.antt =====
-- llvm-bitcode/src/reader.rs: what the record of an instruction kind holds.
use llvm_in_rust.Base.{List}
use llvm_in_rust.Ir.Ids.{TypeId}
use llvm_in_rust.Ir.Instr.{InstrKind}
use llvm_in_rust.Bitcode.Reads.{FitsText, FitsI32}
use llvm_in_rust.Bitcode.Values.Laws.{KnownType, FitsVref, FitsOption}
use llvm_in_rust.Bitcode.Instrs.Decode.Fields.{no_fast_math}
use llvm_in_rust.Bitcode.Instrs.Parts.{FitsU32, FitsList, FitsPair, FitsClause}

-- The numbers of an instruction kind fit their fields, and it refers to types that the reader keeps.
abbrev pub FitsKind : List TypeId → InstrKind → Type 0
FitsKind m (InstrKind.add _ lhs rhs) = FitsVref lhs × FitsVref rhs
FitsKind m (InstrKind.sub _ lhs rhs) = FitsVref lhs × FitsVref rhs
FitsKind m (InstrKind.mul _ lhs rhs) = FitsVref lhs × FitsVref rhs
FitsKind m (InstrKind.udiv _ lhs rhs) = FitsVref lhs × FitsVref rhs
FitsKind m (InstrKind.sdiv _ lhs rhs) = FitsVref lhs × FitsVref rhs
FitsKind m (InstrKind.urem lhs rhs) = FitsVref lhs × FitsVref rhs
FitsKind m (InstrKind.srem lhs rhs) = FitsVref lhs × FitsVref rhs
FitsKind m (InstrKind.and lhs rhs) = FitsVref lhs × FitsVref rhs
FitsKind m (InstrKind.or lhs rhs) = FitsVref lhs × FitsVref rhs
FitsKind m (InstrKind.xor lhs rhs) = FitsVref lhs × FitsVref rhs
FitsKind m (InstrKind.shl _ lhs rhs) = FitsVref lhs × FitsVref rhs
FitsKind m (InstrKind.lshr _ lhs rhs) = FitsVref lhs × FitsVref rhs
FitsKind m (InstrKind.ashr _ lhs rhs) = FitsVref lhs × FitsVref rhs
FitsKind m (InstrKind.fadd _ lhs rhs) = FitsVref lhs × FitsVref rhs
FitsKind m (InstrKind.fsub _ lhs rhs) = FitsVref lhs × FitsVref rhs
FitsKind m (InstrKind.fmul _ lhs rhs) = FitsVref lhs × FitsVref rhs
FitsKind m (InstrKind.fdiv _ lhs rhs) = FitsVref lhs × FitsVref rhs
FitsKind m (InstrKind.frem _ lhs rhs) = FitsVref lhs × FitsVref rhs
FitsKind m (InstrKind.fneg _ operand) = FitsVref operand
FitsKind m (InstrKind.icmp _ lhs rhs) = FitsVref lhs × FitsVref rhs
FitsKind m (InstrKind.fcmp _ _ lhs rhs) = FitsVref lhs × FitsVref rhs
FitsKind m (InstrKind.alloca alloc_ty num_elements align) =
    KnownType m alloc_ty × FitsOption FitsVref num_elements × FitsOption FitsU32 align
FitsKind m (InstrKind.load ty ptr align _) =
    KnownType m ty × FitsVref ptr × FitsOption FitsU32 align
FitsKind m (InstrKind.store val ptr align _) =
    FitsVref val × FitsVref ptr × FitsOption FitsU32 align
FitsKind m (InstrKind.get_element_ptr _ base_ty ptr indices) =
    KnownType m base_ty × FitsVref ptr × FitsList FitsVref indices
FitsKind m (InstrKind.trunc val to) = FitsVref val × KnownType m to
FitsKind m (InstrKind.zext val to) = FitsVref val × KnownType m to
FitsKind m (InstrKind.sext val to) = FitsVref val × KnownType m to
FitsKind m (InstrKind.fptrunc val to) = FitsVref val × KnownType m to
FitsKind m (InstrKind.fpext val to) = FitsVref val × KnownType m to
FitsKind m (InstrKind.fptoui val to) = FitsVref val × KnownType m to
FitsKind m (InstrKind.fptosi val to) = FitsVref val × KnownType m to
FitsKind m (InstrKind.uitofp val to) = FitsVref val × KnownType m to
FitsKind m (InstrKind.sitofp val to) = FitsVref val × KnownType m to
FitsKind m (InstrKind.ptr_to_int val to) = FitsVref val × KnownType m to
FitsKind m (InstrKind.int_to_ptr val to) = FitsVref val × KnownType m to
FitsKind m (InstrKind.bitcast val to) = FitsVref val × KnownType m to
FitsKind m (InstrKind.addr_space_cast val to) = FitsVref val × KnownType m to
FitsKind m (InstrKind.freeze val) = FitsVref val
FitsKind m (InstrKind.select cond then_val else_val) =
    FitsVref cond × FitsVref then_val × FitsVref else_val
FitsKind m (InstrKind.phi ty incoming) = KnownType m ty × FitsList FitsPair incoming
FitsKind m (InstrKind.extract_value aggregate indices) =
    FitsVref aggregate × FitsList FitsU32 indices
FitsKind m (InstrKind.insert_value aggregate val indices) =
    FitsVref aggregate × FitsVref val × FitsList FitsU32 indices
FitsKind m (InstrKind.extract_element vec idx) = FitsVref vec × FitsVref idx
FitsKind m (InstrKind.insert_element vec val idx) = FitsVref vec × FitsVref val × FitsVref idx
FitsKind m (InstrKind.shuffle_vector v1 v2 mask) = FitsVref v1 × FitsVref v2 × FitsList FitsI32 mask
FitsKind m (InstrKind.call _ callee_ty callee args) =
    KnownType m callee_ty × FitsVref callee × FitsList FitsVref args
FitsKind m (InstrKind.invoke callee_ty callee args normal_dest unwind_dest) =
    KnownType m callee_ty
    × FitsVref callee
    × FitsList FitsVref args
    × FitsU32 normal_dest
    × FitsU32 unwind_dest
FitsKind m (InstrKind.landing_pad result_ty personality_fn _ clauses) =
    KnownType m result_ty × FitsOption FitsVref personality_fn × FitsList (FitsClause m) clauses
FitsKind m (InstrKind.inline_asm asm_string constraints _ _ args) =
    FitsText asm_string × FitsText constraints × FitsList FitsVref args
FitsKind m (InstrKind.cmp_xchg ptr cmp new_val _ _ _ _) =
    FitsVref ptr × FitsVref cmp × FitsVref new_val
FitsKind m (InstrKind.atomic_rmw _ ptr val _ _) = FitsVref ptr × FitsVref val
FitsKind m (InstrKind.ret val) = FitsOption FitsVref val
FitsKind m (InstrKind.br dest) = FitsU32 dest
FitsKind m (InstrKind.cond_br cond then_dest else_dest) =
    FitsVref cond × FitsU32 then_dest × FitsU32 else_dest
FitsKind m (InstrKind.switch val default cases) =
    FitsVref val × FitsU32 default × FitsList FitsPair cases
FitsKind m (InstrKind.resume val) = FitsVref val
FitsKind m (InstrKind.catch_pad parent_switch args) =
    FitsVref parent_switch × FitsList FitsVref args
FitsKind m (InstrKind.cleanup_pad parent args) = FitsOption FitsVref parent × FitsList FitsVref args
FitsKind m (InstrKind.catch_switch parent handlers default) =
    FitsOption FitsVref parent × FitsList FitsU32 handlers × FitsOption FitsU32 default
FitsKind m (InstrKind.catch_ret pad successor) = FitsVref pad × FitsU32 successor
FitsKind m (InstrKind.cleanup_ret cleanup_pad unwind_dest) =
    FitsVref cleanup_pad × FitsOption FitsU32 unwind_dest
FitsKind m _ = Unit

-- The kind with the default fast-math flags, which the format does not hold.
unfoldable pub without_fast_math : InstrKind → InstrKind
without_fast_math (InstrKind.fadd _ lhs rhs) = InstrKind.fadd no_fast_math lhs rhs
without_fast_math (InstrKind.fsub _ lhs rhs) = InstrKind.fsub no_fast_math lhs rhs
without_fast_math (InstrKind.fmul _ lhs rhs) = InstrKind.fmul no_fast_math lhs rhs
without_fast_math (InstrKind.fdiv _ lhs rhs) = InstrKind.fdiv no_fast_math lhs rhs
without_fast_math (InstrKind.frem _ lhs rhs) = InstrKind.frem no_fast_math lhs rhs
without_fast_math (InstrKind.fneg _ operand) = InstrKind.fneg no_fast_math operand
without_fast_math (InstrKind.fcmp _ pred lhs rhs) = InstrKind.fcmp no_fast_math pred lhs rhs
without_fast_math k = k
