-- ===== src/Bitcode/Instrs/Laws.antt =====
-- llvm-bitcode/src/reader.rs: the records of instructions are read back.
use llvm_in_rust.Base.{List, arith}
use llvm_in_rust.Ir.Ids.{TypeId}
use llvm_in_rust.Ir.Instr.{InstrKind}
use llvm_in_rust.Ir.Function.{Instruction}
use llvm_in_rust.Bitcode.Reads.{
  Reads, Reads-bind, Reads-last, Reads-then, Reads-pure, Reads-read_u32, Reads-read_flag,
  Reads-read_string,
}
use llvm_in_rust.Bitcode.Values.Laws.{
  KnownType, Reads-decode_vref, Reads-read_type_id, Reads-int_pred, Reads-float_pred,
  Reads-mem_ordering, Reads-rmw_op,
}
use llvm_in_rust.Bitcode.Types.Laws.{FitsName, Reads-encode_name}
use llvm_in_rust.Bitcode.Instrs.{encode_instr, encode_kind}
use llvm_in_rust.Bitcode.Instrs.Decode.{
  decode_kind, decode_instr, decode_arith, decode_memory, decode_casts, decode_vector_ops,
  decode_calls, decode_control,
}
use llvm_in_rust.Bitcode.Instrs.Decode.Fields.{
  decode_binary, decode_flagged, decode_exact, decode_cast, decode_fneg, decode_icmp, decode_fcmp,
  decode_alloca, decode_load, decode_store, decode_get_element_ptr, decode_freeze, decode_select,
  decode_phi, decode_extract_value, decode_insert_value, decode_insert_element,
  decode_shuffle_vector,
}
use llvm_in_rust.Bitcode.Instrs.Decode.Calls.{
  decode_call, decode_inline_asm, decode_fence, decode_cmp_xchg, decode_atomic_rmw, decode_invoke,
  decode_landing_pad, decode_ret, decode_br, decode_cond_br, decode_switch, decode_resume,
  decode_catch_pad, decode_cleanup_pad, decode_catch_switch, decode_catch_ret, decode_cleanup_ret,
}
use llvm_in_rust.Bitcode.Instrs.Parts.{
  Reads-decode_flags, Reads-opt_vref, Reads-opt_u32, Reads-vrefs, Reads-u32s, Reads-i32s,
  Reads-pairs, Reads-clauses, Reads-tail, Reads-operands, Reads-cast,
}
use llvm_in_rust.Bitcode.Instrs.Fits.{FitsKind, without_fast_math}

-- Reading the record of an instruction kind gives the kind, except for its fast-math flags, when its
-- numbers fit their fields and it refers to types that the reader keeps at their index.
pub decode_kind-encode_kind :
    (m : List TypeId) (k : InstrKind)
    → FitsKind m k
    → Reads (decode_kind m) (encode_kind k) (without_fast_math k)
unfolding decode_kind encode_kind without_fast_math decode_arith decode_memory decode_casts
    decode_vector_ops decode_calls decode_control decode_binary decode_flagged decode_exact
    decode_cast decode_fneg decode_icmp decode_fcmp decode_alloca decode_load decode_store
    decode_get_element_ptr decode_freeze decode_select decode_phi decode_extract_value
    decode_insert_value decode_insert_element decode_shuffle_vector decode_call decode_inline_asm
    decode_fence decode_cmp_xchg decode_atomic_rmw decode_invoke decode_landing_pad decode_ret
    decode_br decode_cond_br decode_switch decode_resume decode_catch_pad decode_cleanup_pad
    decode_catch_switch decode_catch_ret decode_cleanup_ret
decode_kind-encode_kind m (InstrKind.add flags lhs rhs) (h0, h1) =
    Reads-bind _ (Reads-read_u32 0 (omega arith))
      (Reads-bind _ (Reads-decode_flags flags) (Reads-operands _ lhs rhs h0 h1))
decode_kind-encode_kind m (InstrKind.sub flags lhs rhs) (h0, h1) =
    Reads-bind _ (Reads-read_u32 1 (omega arith))
      (Reads-bind _ (Reads-decode_flags flags) (Reads-operands _ lhs rhs h0 h1))
decode_kind-encode_kind m (InstrKind.mul flags lhs rhs) (h0, h1) =
    Reads-bind _ (Reads-read_u32 2 (omega arith))
      (Reads-bind _ (Reads-decode_flags flags) (Reads-operands _ lhs rhs h0 h1))
decode_kind-encode_kind m (InstrKind.udiv exact lhs rhs) (h0, h1) =
    Reads-bind _ (Reads-read_u32 3 (omega arith))
      (Reads-bind _ (Reads-read_flag exact) (Reads-operands _ lhs rhs h0 h1))
decode_kind-encode_kind m (InstrKind.sdiv exact lhs rhs) (h0, h1) =
    Reads-bind _ (Reads-read_u32 4 (omega arith))
      (Reads-bind _ (Reads-read_flag exact) (Reads-operands _ lhs rhs h0 h1))
decode_kind-encode_kind m (InstrKind.urem lhs rhs) (h0, h1) =
    Reads-bind _ (Reads-read_u32 5 (omega arith)) (Reads-operands _ lhs rhs h0 h1)
decode_kind-encode_kind m (InstrKind.srem lhs rhs) (h0, h1) =
    Reads-bind _ (Reads-read_u32 6 (omega arith)) (Reads-operands _ lhs rhs h0 h1)
decode_kind-encode_kind m (InstrKind.and lhs rhs) (h0, h1) =
    Reads-bind _ (Reads-read_u32 10 (omega arith)) (Reads-operands _ lhs rhs h0 h1)
decode_kind-encode_kind m (InstrKind.or lhs rhs) (h0, h1) =
    Reads-bind _ (Reads-read_u32 11 (omega arith)) (Reads-operands _ lhs rhs h0 h1)
decode_kind-encode_kind m (InstrKind.xor lhs rhs) (h0, h1) =
    Reads-bind _ (Reads-read_u32 12 (omega arith)) (Reads-operands _ lhs rhs h0 h1)
decode_kind-encode_kind m (InstrKind.shl flags lhs rhs) (h0, h1) =
    Reads-bind _ (Reads-read_u32 13 (omega arith))
      (Reads-bind _ (Reads-decode_flags flags) (Reads-operands _ lhs rhs h0 h1))
decode_kind-encode_kind m (InstrKind.lshr exact lhs rhs) (h0, h1) =
    Reads-bind _ (Reads-read_u32 14 (omega arith))
      (Reads-bind _ (Reads-read_flag exact) (Reads-operands _ lhs rhs h0 h1))
decode_kind-encode_kind m (InstrKind.ashr exact lhs rhs) (h0, h1) =
    Reads-bind _ (Reads-read_u32 15 (omega arith))
      (Reads-bind _ (Reads-read_flag exact) (Reads-operands _ lhs rhs h0 h1))
decode_kind-encode_kind m (InstrKind.fadd flags lhs rhs) (h0, h1) =
    Reads-bind _ (Reads-read_u32 20 (omega arith)) (Reads-operands _ lhs rhs h0 h1)
decode_kind-encode_kind m (InstrKind.fsub flags lhs rhs) (h0, h1) =
    Reads-bind _ (Reads-read_u32 21 (omega arith)) (Reads-operands _ lhs rhs h0 h1)
decode_kind-encode_kind m (InstrKind.fmul flags lhs rhs) (h0, h1) =
    Reads-bind _ (Reads-read_u32 22 (omega arith)) (Reads-operands _ lhs rhs h0 h1)
decode_kind-encode_kind m (InstrKind.fdiv flags lhs rhs) (h0, h1) =
    Reads-bind _ (Reads-read_u32 23 (omega arith)) (Reads-operands _ lhs rhs h0 h1)
decode_kind-encode_kind m (InstrKind.frem flags lhs rhs) (h0, h1) =
    Reads-bind _ (Reads-read_u32 24 (omega arith)) (Reads-operands _ lhs rhs h0 h1)
decode_kind-encode_kind m (InstrKind.fneg flags operand) h0 =
    Reads-bind _ (Reads-read_u32 25 (omega arith)) (Reads-last _ (Reads-decode_vref operand h0))
decode_kind-encode_kind m (InstrKind.icmp pred lhs rhs) (h0, h1) =
    Reads-bind _ (Reads-read_u32 30 (omega arith))
      (Reads-bind _ (Reads-int_pred pred) (Reads-operands _ lhs rhs h0 h1))
decode_kind-encode_kind m (InstrKind.fcmp flags pred lhs rhs) (h0, h1) =
    Reads-bind _ (Reads-read_u32 31 (omega arith))
      (Reads-bind _ (Reads-float_pred pred) (Reads-operands _ lhs rhs h0 h1))
decode_kind-encode_kind m (InstrKind.alloca alloc_ty num_elements align) (h0, h1, h2) =
    Reads-bind _ (Reads-read_u32 40 (omega arith)) (
      Reads-bind _ (Reads-read_type_id m alloc_ty h0)
        (Reads-bind _ (Reads-opt_vref num_elements h1) (Reads-last _ (Reads-opt_u32 align h2))))
decode_kind-encode_kind m (InstrKind.load ty ptr align volatile) (h0, h1, h2) =
    Reads-bind _ (Reads-read_u32 41 (omega arith)) (
      Reads-bind _ (Reads-read_type_id m ty h0) (
        Reads-bind _ (Reads-decode_vref ptr h1)
          (Reads-bind _ (Reads-opt_u32 align h2) (Reads-last _ (Reads-read_flag volatile)))))
decode_kind-encode_kind m (InstrKind.store val ptr align volatile) (h0, h1, h2) =
    Reads-bind _ (Reads-read_u32 42 (omega arith)) (
      Reads-bind _ (Reads-decode_vref val h0) (
        Reads-bind _ (Reads-decode_vref ptr h1)
          (Reads-bind _ (Reads-opt_u32 align h2) (Reads-last _ (Reads-read_flag volatile)))))
decode_kind-encode_kind m (InstrKind.get_element_ptr inbounds base_ty ptr indices) (h0, h1, h2) =
    Reads-bind _ (Reads-read_u32 43 (omega arith)) (
      Reads-bind _ (Reads-read_flag inbounds) (
        Reads-bind _ (Reads-read_type_id m base_ty h0)
          (Reads-bind _ (Reads-decode_vref ptr h1) (Reads-last _ (Reads-vrefs indices h2)))))
decode_kind-encode_kind m (InstrKind.trunc val to) (h0, h1) =
    Reads-bind _ (Reads-read_u32 50 (omega arith)) (Reads-cast m _ val to h0 h1)
decode_kind-encode_kind m (InstrKind.zext val to) (h0, h1) =
    Reads-bind _ (Reads-read_u32 51 (omega arith)) (Reads-cast m _ val to h0 h1)
decode_kind-encode_kind m (InstrKind.sext val to) (h0, h1) =
    Reads-bind _ (Reads-read_u32 52 (omega arith)) (Reads-cast m _ val to h0 h1)
decode_kind-encode_kind m (InstrKind.fptrunc val to) (h0, h1) =
    Reads-bind _ (Reads-read_u32 53 (omega arith)) (Reads-cast m _ val to h0 h1)
decode_kind-encode_kind m (InstrKind.fpext val to) (h0, h1) =
    Reads-bind _ (Reads-read_u32 54 (omega arith)) (Reads-cast m _ val to h0 h1)
decode_kind-encode_kind m (InstrKind.fptoui val to) (h0, h1) =
    Reads-bind _ (Reads-read_u32 55 (omega arith)) (Reads-cast m _ val to h0 h1)
decode_kind-encode_kind m (InstrKind.fptosi val to) (h0, h1) =
    Reads-bind _ (Reads-read_u32 56 (omega arith)) (Reads-cast m _ val to h0 h1)
decode_kind-encode_kind m (InstrKind.uitofp val to) (h0, h1) =
    Reads-bind _ (Reads-read_u32 57 (omega arith)) (Reads-cast m _ val to h0 h1)
decode_kind-encode_kind m (InstrKind.sitofp val to) (h0, h1) =
    Reads-bind _ (Reads-read_u32 58 (omega arith)) (Reads-cast m _ val to h0 h1)
decode_kind-encode_kind m (InstrKind.ptr_to_int val to) (h0, h1) =
    Reads-bind _ (Reads-read_u32 59 (omega arith)) (Reads-cast m _ val to h0 h1)
decode_kind-encode_kind m (InstrKind.int_to_ptr val to) (h0, h1) =
    Reads-bind _ (Reads-read_u32 60 (omega arith)) (Reads-cast m _ val to h0 h1)
decode_kind-encode_kind m (InstrKind.bitcast val to) (h0, h1) =
    Reads-bind _ (Reads-read_u32 61 (omega arith)) (Reads-cast m _ val to h0 h1)
decode_kind-encode_kind m (InstrKind.addr_space_cast val to) (h0, h1) =
    Reads-bind _ (Reads-read_u32 62 (omega arith)) (Reads-cast m _ val to h0 h1)
decode_kind-encode_kind m (InstrKind.freeze val) h0 =
    Reads-bind _ (Reads-read_u32 63 (omega arith)) (Reads-last _ (Reads-decode_vref val h0))
decode_kind-encode_kind m (InstrKind.select cond then_val else_val) (h0, h1, h2) =
    Reads-bind _ (Reads-read_u32 70 (omega arith))
      (Reads-bind _ (Reads-decode_vref cond h0) (Reads-operands _ then_val else_val h1 h2))
decode_kind-encode_kind m (InstrKind.phi ty incoming) (h0, h1) =
    Reads-bind _ (Reads-read_u32 71 (omega arith))
      (Reads-bind _ (Reads-read_type_id m ty h0) (Reads-last _ (Reads-pairs incoming h1)))
decode_kind-encode_kind m (InstrKind.extract_value aggregate indices) (h0, h1) =
    Reads-bind _ (Reads-read_u32 72 (omega arith))
      (Reads-bind _ (Reads-decode_vref aggregate h0) (Reads-last _ (Reads-u32s indices h1)))
decode_kind-encode_kind m (InstrKind.insert_value aggregate val indices) (h0, h1, h2) =
    Reads-bind _ (Reads-read_u32 73 (omega arith)) (
      Reads-bind _ (Reads-decode_vref aggregate h0)
        (Reads-bind _ (Reads-decode_vref val h1) (Reads-last _ (Reads-u32s indices h2))))
decode_kind-encode_kind m (InstrKind.extract_element vec idx) (h0, h1) =
    Reads-bind _ (Reads-read_u32 74 (omega arith)) (Reads-operands _ vec idx h0 h1)
decode_kind-encode_kind m (InstrKind.insert_element vec val idx) (h0, h1, h2) =
    Reads-bind _ (Reads-read_u32 75 (omega arith))
      (Reads-bind _ (Reads-decode_vref vec h0) (Reads-operands _ val idx h1 h2))
decode_kind-encode_kind m (InstrKind.shuffle_vector v1 v2 mask) (h0, h1, h2) =
    Reads-bind _ (Reads-read_u32 76 (omega arith)) (
      Reads-bind _ (Reads-decode_vref v1 h0)
        (Reads-bind _ (Reads-decode_vref v2 h1) (Reads-last _ (Reads-i32s mask h2))))
decode_kind-encode_kind m (InstrKind.call tail_kind callee_ty callee args) (h0, h1, h2) =
    Reads-bind _ (Reads-read_u32 80 (omega arith)) (
      Reads-bind _ (Reads-tail tail_kind) (
        Reads-bind _ (Reads-read_type_id m callee_ty h0)
          (Reads-bind _ (Reads-decode_vref callee h1) (Reads-last _ (Reads-vrefs args h2)))))
decode_kind-encode_kind m (InstrKind.invoke callee_ty callee args normal_dest unwind_dest)
      (h0, h1, h2, h3, h4) =
    Reads-bind _ (Reads-read_u32 85 (omega arith)) (
      Reads-bind _ (Reads-read_type_id m callee_ty h0) (
        Reads-bind _ (Reads-decode_vref callee h1) (
          Reads-bind _ (Reads-vrefs args h2) (
            Reads-bind _ (Reads-read_u32 normal_dest h3)
              (Reads-last _ (Reads-read_u32 unwind_dest h4))))))
decode_kind-encode_kind m (InstrKind.landing_pad result_ty personality_fn cleanup clauses)
      (h0, h1, h2) =
    Reads-bind _ (Reads-read_u32 86 (omega arith)) (
      Reads-bind _ (Reads-read_type_id m result_ty h0) (
        Reads-bind _ (Reads-read_flag cleanup) (
          Reads-bind _ (Reads-opt_vref personality_fn h1)
            (Reads-last _ (Reads-clauses m clauses h2)))))
decode_kind-encode_kind m (InstrKind.inline_asm asm_string constraints side_effect align_stack args)
      (h0, h1, h2) =
    Reads-bind _ (Reads-read_u32 81 (omega arith)) (
      Reads-bind _ (Reads-read_string asm_string h0) (
        Reads-bind _ (Reads-read_string constraints h1) (
          Reads-bind _ (Reads-read_flag side_effect)
            (Reads-bind _ (Reads-read_flag align_stack) (Reads-last _ (Reads-vrefs args h2))))))
decode_kind-encode_kind m (InstrKind.fence ordering) h =
    Reads-bind _ (Reads-read_u32 82 (omega arith)) (Reads-last _ (Reads-mem_ordering ordering))
decode_kind-encode_kind m (InstrKind.cmp_xchg ptr cmp new_val success_ord fail_ord weak volatile)
      (h0, h1, h2) =
    Reads-bind _ (Reads-read_u32 83 (omega arith)) (
      Reads-bind _ (Reads-decode_vref ptr h0) (
        Reads-bind _ (Reads-decode_vref cmp h1) (
          Reads-bind _ (Reads-decode_vref new_val h2) (
            Reads-bind _ (Reads-mem_ordering success_ord) (
              Reads-bind _ (Reads-mem_ordering fail_ord)
                (Reads-bind _ (Reads-read_flag weak) (Reads-last _ (Reads-read_flag volatile))))))))
decode_kind-encode_kind m (InstrKind.atomic_rmw op ptr val ordering volatile) (h0, h1) =
    Reads-bind _ (Reads-read_u32 84 (omega arith)) (
      Reads-bind _ (Reads-rmw_op op) (
        Reads-bind _ (Reads-decode_vref ptr h0) (
          Reads-bind _ (Reads-decode_vref val h1) (
            Reads-bind _ (Reads-mem_ordering ordering) (Reads-last _ (Reads-read_flag volatile))))))
decode_kind-encode_kind m (InstrKind.ret val) h0 =
    Reads-bind _ (Reads-read_u32 90 (omega arith)) (Reads-last _ (Reads-opt_vref val h0))
decode_kind-encode_kind m (InstrKind.br dest) h0 =
    Reads-bind _ (Reads-read_u32 91 (omega arith)) (Reads-last _ (Reads-read_u32 dest h0))
decode_kind-encode_kind m (InstrKind.cond_br cond then_dest else_dest) (h0, h1, h2) =
    Reads-bind _ (Reads-read_u32 92 (omega arith)) (
      Reads-bind _ (Reads-decode_vref cond h0)
        (Reads-bind _ (Reads-read_u32 then_dest h1) (Reads-last _ (Reads-read_u32 else_dest h2))))
decode_kind-encode_kind m (InstrKind.switch val default cases) (h0, h1, h2) =
    Reads-bind _ (Reads-read_u32 93 (omega arith)) (
      Reads-bind _ (Reads-decode_vref val h0)
        (Reads-bind _ (Reads-read_u32 default h1) (Reads-last _ (Reads-pairs cases h2))))
decode_kind-encode_kind m InstrKind.unreachable h =
    Reads-then _ (Reads-read_u32 94 (omega arith)) (Reads-pure _)
decode_kind-encode_kind m (InstrKind.resume val) h0 =
    Reads-bind _ (Reads-read_u32 95 (omega arith)) (Reads-last _ (Reads-decode_vref val h0))
decode_kind-encode_kind m (InstrKind.catch_pad parent_switch args) (h0, h1) =
    Reads-bind _ (Reads-read_u32 100 (omega arith))
      (Reads-bind _ (Reads-decode_vref parent_switch h0) (Reads-last _ (Reads-vrefs args h1)))
decode_kind-encode_kind m (InstrKind.cleanup_pad parent args) (h0, h1) =
    Reads-bind _ (Reads-read_u32 101 (omega arith))
      (Reads-bind _ (Reads-opt_vref parent h0) (Reads-last _ (Reads-vrefs args h1)))
decode_kind-encode_kind m (InstrKind.catch_switch parent handlers default) (h0, h1, h2) =
    Reads-bind _ (Reads-read_u32 102 (omega arith)) (
      Reads-bind _ (Reads-opt_vref parent h0)
        (Reads-bind _ (Reads-u32s handlers h1) (Reads-last _ (Reads-opt_u32 default h2))))
decode_kind-encode_kind m (InstrKind.catch_ret pad successor) (h0, h1) =
    Reads-bind _ (Reads-read_u32 103 (omega arith))
      (Reads-bind _ (Reads-decode_vref pad h0) (Reads-last _ (Reads-read_u32 successor h1)))
decode_kind-encode_kind m (InstrKind.cleanup_ret cleanup_pad unwind_dest) (h0, h1) =
    Reads-bind _ (Reads-read_u32 104 (omega arith)) (
      Reads-bind _ (Reads-decode_vref cleanup_pad h0) (Reads-last _ (Reads-opt_u32 unwind_dest h1)))

-- The name of an instruction is not empty and not too long, and its type and its kind fit.
abbrev pub FitsInstr : List TypeId → Instruction → Type 0
FitsInstr m i = FitsName i.name × KnownType m i.ty × FitsKind m i.kind

-- The instruction without its fast-math flags.
unfoldable pub kept_instr : Instruction → Instruction
unfolding without_fast_math
kept_instr i = record i { kind = without_fast_math i.kind }

pub decode_instr-encode_instr :
    (m : List TypeId) (i : Instruction)
    → FitsInstr m i
    → Reads (decode_instr m) (encode_instr i) (kept_instr i)
unfolding decode_instr encode_instr kept_instr
decode_instr-encode_instr m i (n, t, k) =
    Reads-bind _ (Reads-encode_name i.name n) (
      Reads-bind _ (Reads-read_type_id m i.ty t)
        (Reads-last _ (decode_kind-encode_kind m i.kind k)))
