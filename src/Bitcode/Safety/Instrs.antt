-- ===== src/Bitcode/Safety/Instrs.antt =====
-- llvm-bitcode/src/reader.rs: the records of instructions never panic.
use llvm_in_rust.Base.{ℕ, Bool, List}
use llvm_in_rust.Ir.Ids.{TypeId}
use llvm_in_rust.Bitcode.Safety.{Answers, answering}
use llvm_in_rust.Ir.Ids.{ValueRef}
use llvm_in_rust.Ir.Ops.{IntArithFlags}
use llvm_in_rust.Ir.Instr.{InstrKind}
use llvm_in_rust.Bitcode.Safety.Records.{reading_values}
use llvm_in_rust.Bitcode.Instrs.Decode.Fields.{
  decode_flags, decode_pair, decode_tail, decode_clause, decode_binary, decode_flagged,
  decode_exact, decode_cast, decode_fneg, decode_icmp, decode_fcmp, decode_alloca, decode_load,
  decode_store, decode_get_element_ptr, decode_freeze, decode_select, decode_phi,
  decode_extract_value, decode_insert_value, decode_insert_element, decode_shuffle_vector,
}
use llvm_in_rust.Bitcode.Instrs.Decode.Calls.{
  decode_call, decode_inline_asm, decode_fence, decode_cmp_xchg, decode_atomic_rmw, decode_invoke,
  decode_landing_pad, decode_ret, decode_br, decode_cond_br, decode_switch, decode_resume,
  decode_catch_pad, decode_cleanup_pad, decode_catch_switch, decode_catch_ret, decode_cleanup_ret,
}
use llvm_in_rust.Bitcode.Instrs.Decode.{
  decode_control, decode_calls, decode_vector_ops, decode_casts, decode_memory, decode_arith,
  decode_kind, decode_instr,
}

Answers-decode_flags : Answers decode_flags
unfolding decode_flags
Answers-decode_flags = search reading_values depth 40

Answers-decode_pair : Answers decode_pair
unfolding decode_pair
Answers-decode_pair = search reading_values depth 40

Answers-decode_tail : (tag : ℕ) → Answers (decode_tail tag)
unfolding decode_tail
Answers-decode_tail tag = search reading_values depth 40

Answers-decode_clause : (m : List TypeId) → Answers (decode_clause m)
unfolding decode_clause
Answers-decode_clause m = search reading_values depth 40

Answers-decode_binary : (k : ValueRef → ValueRef → InstrKind) → Answers (decode_binary k)
unfolding decode_binary
Answers-decode_binary k = search reading_values depth 40

Answers-decode_flagged :
    (k : IntArithFlags → ValueRef → ValueRef → InstrKind) → Answers (decode_flagged k)
unfolding decode_flagged
Answers-decode_flagged k = search (reading_values, Answers-decode_flags) depth 40

Answers-decode_exact : (k : Bool → ValueRef → ValueRef → InstrKind) → Answers (decode_exact k)
unfolding decode_exact
Answers-decode_exact k = search reading_values depth 40

Answers-decode_cast :
    (m : List TypeId) (k : ValueRef → TypeId → InstrKind) → Answers (decode_cast m k)
unfolding decode_cast
Answers-decode_cast m k = search reading_values depth 40

Answers-decode_fneg : Answers decode_fneg
unfolding decode_fneg
Answers-decode_fneg = search reading_values depth 40

Answers-decode_icmp : Answers decode_icmp
unfolding decode_icmp
Answers-decode_icmp = search reading_values depth 40

Answers-decode_fcmp : Answers decode_fcmp
unfolding decode_fcmp
Answers-decode_fcmp = search reading_values depth 40

Answers-decode_alloca : (m : List TypeId) → Answers (decode_alloca m)
unfolding decode_alloca
Answers-decode_alloca m = search reading_values depth 40

Answers-decode_load : (m : List TypeId) → Answers (decode_load m)
unfolding decode_load
Answers-decode_load m = search reading_values depth 40

Answers-decode_store : Answers decode_store
unfolding decode_store
Answers-decode_store = search reading_values depth 40

Answers-decode_get_element_ptr : (m : List TypeId) → Answers (decode_get_element_ptr m)
unfolding decode_get_element_ptr
Answers-decode_get_element_ptr m = search reading_values depth 40

Answers-decode_freeze : Answers decode_freeze
unfolding decode_freeze
Answers-decode_freeze = search reading_values depth 40

Answers-decode_select : Answers decode_select
unfolding decode_select
Answers-decode_select = search reading_values depth 40

Answers-decode_phi : (m : List TypeId) → Answers (decode_phi m)
unfolding decode_phi
Answers-decode_phi m = search (reading_values, Answers-decode_pair) depth 40

Answers-decode_extract_value : Answers decode_extract_value
unfolding decode_extract_value
Answers-decode_extract_value = search reading_values depth 40

Answers-decode_insert_value : Answers decode_insert_value
unfolding decode_insert_value
Answers-decode_insert_value = search reading_values depth 40

Answers-decode_insert_element : Answers decode_insert_element
unfolding decode_insert_element
Answers-decode_insert_element = search reading_values depth 40

Answers-decode_shuffle_vector : Answers decode_shuffle_vector
unfolding decode_shuffle_vector
Answers-decode_shuffle_vector = search reading_values depth 40

Answers-decode_call : (m : List TypeId) → Answers (decode_call m)
unfolding decode_call
Answers-decode_call m = search (reading_values, Answers-decode_tail) depth 40

Answers-decode_inline_asm : Answers decode_inline_asm
unfolding decode_inline_asm
Answers-decode_inline_asm = search reading_values depth 40

Answers-decode_fence : Answers decode_fence
unfolding decode_fence
Answers-decode_fence = search reading_values depth 40

Answers-decode_cmp_xchg : Answers decode_cmp_xchg
unfolding decode_cmp_xchg
Answers-decode_cmp_xchg = search reading_values depth 40

Answers-decode_atomic_rmw : Answers decode_atomic_rmw
unfolding decode_atomic_rmw
Answers-decode_atomic_rmw = search reading_values depth 40

Answers-decode_invoke : (m : List TypeId) → Answers (decode_invoke m)
unfolding decode_invoke
Answers-decode_invoke m = search reading_values depth 40

Answers-decode_landing_pad : (m : List TypeId) → Answers (decode_landing_pad m)
unfolding decode_landing_pad
Answers-decode_landing_pad m = search (reading_values, Answers-decode_clause) depth 40

Answers-decode_ret : Answers decode_ret
unfolding decode_ret
Answers-decode_ret = search reading_values depth 40

Answers-decode_br : Answers decode_br
unfolding decode_br
Answers-decode_br = search reading_values depth 40

Answers-decode_cond_br : Answers decode_cond_br
unfolding decode_cond_br
Answers-decode_cond_br = search reading_values depth 40

Answers-decode_switch : Answers decode_switch
unfolding decode_switch
Answers-decode_switch = search (reading_values, Answers-decode_pair) depth 40

Answers-decode_resume : Answers decode_resume
unfolding decode_resume
Answers-decode_resume = search reading_values depth 40

Answers-decode_catch_pad : Answers decode_catch_pad
unfolding decode_catch_pad
Answers-decode_catch_pad = search reading_values depth 40

Answers-decode_cleanup_pad : Answers decode_cleanup_pad
unfolding decode_cleanup_pad
Answers-decode_cleanup_pad = search reading_values depth 40

Answers-decode_catch_switch : Answers decode_catch_switch
unfolding decode_catch_switch
Answers-decode_catch_switch = search reading_values depth 40

Answers-decode_catch_ret : Answers decode_catch_ret
unfolding decode_catch_ret
Answers-decode_catch_ret = search reading_values depth 40

Answers-decode_cleanup_ret : Answers decode_cleanup_ret
unfolding decode_cleanup_ret
Answers-decode_cleanup_ret = search reading_values depth 40

ruleset reading_fields = (
  answering, Answers-decode_binary, Answers-decode_flagged, Answers-decode_exact,
  Answers-decode_cast, Answers-decode_fneg, Answers-decode_icmp, Answers-decode_fcmp,
  Answers-decode_alloca, Answers-decode_load, Answers-decode_store, Answers-decode_get_element_ptr,
  Answers-decode_freeze, Answers-decode_select, Answers-decode_phi, Answers-decode_extract_value,
  Answers-decode_insert_value, Answers-decode_insert_element, Answers-decode_shuffle_vector,
  Answers-decode_call, Answers-decode_inline_asm, Answers-decode_fence, Answers-decode_cmp_xchg,
  Answers-decode_atomic_rmw, Answers-decode_invoke, Answers-decode_landing_pad, Answers-decode_ret,
  Answers-decode_br, Answers-decode_cond_br, Answers-decode_switch, Answers-decode_resume,
  Answers-decode_catch_pad, Answers-decode_cleanup_pad, Answers-decode_catch_switch,
  Answers-decode_catch_ret, Answers-decode_cleanup_ret,
)

Answers-decode_control : (m : List TypeId) (tag : ℕ) → Answers (decode_control m tag)
unfolding decode_control
Answers-decode_control m tag = search reading_fields depth 40

Answers-decode_calls : (m : List TypeId) (tag : ℕ) → Answers (decode_calls m tag)
unfolding decode_calls
Answers-decode_calls m tag = search (reading_fields, Answers-decode_control) depth 40

Answers-decode_vector_ops : (m : List TypeId) (tag : ℕ) → Answers (decode_vector_ops m tag)
unfolding decode_vector_ops
Answers-decode_vector_ops m tag = search (reading_fields, Answers-decode_calls) depth 40

Answers-decode_casts : (m : List TypeId) (tag : ℕ) → Answers (decode_casts m tag)
unfolding decode_casts
Answers-decode_casts m tag = search (reading_fields, Answers-decode_vector_ops) depth 40

Answers-decode_memory : (m : List TypeId) (tag : ℕ) → Answers (decode_memory m tag)
unfolding decode_memory
Answers-decode_memory m tag = search (reading_fields, Answers-decode_casts) depth 40

Answers-decode_arith : (m : List TypeId) (tag : ℕ) → Answers (decode_arith m tag)
unfolding decode_arith
Answers-decode_arith m tag = search (reading_fields, Answers-decode_memory) depth 40

Answers-decode_kind : (m : List TypeId) → Answers (decode_kind m)
unfolding decode_kind
Answers-decode_kind m = search (reading_values, Answers-decode_arith) depth 40

pub Answers-decode_instr : (m : List TypeId) → Answers (decode_instr m)
unfolding decode_instr
Answers-decode_instr m = search (reading_values, Answers-decode_kind) depth 40
