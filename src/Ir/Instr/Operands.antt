-- ===== src/Ir/Instr/Operands.antt =====
-- llvm-ir/src/instruction.rs: `InstrKind::operands` and `InstrKind::successors`.
use mathlib.Core.List.{List, [], ◌∷◌, ◌++◌, map}
use mathlib.Core.Option.{Option, none, some}
use llvm_in_rust.Ir.Ids.{BlockId, ValueRef}
use llvm_in_rust.Ir.Ops.{LandingPadClause, catch, filter}
use llvm_in_rust.Ir.Instr.{
  InstrKind, add, sub, mul, udiv, sdiv, urem, srem, and, or, xor, shl, lshr, ashr, fadd, fsub, fmul,
  fdiv, frem, fneg, icmp, fcmp, alloca, load, store, get_element_ptr, trunc, zext, sext, fptrunc,
  fpext, fptoui, fptosi, uitofp, sitofp, ptr_to_int, int_to_ptr, bitcast, addr_space_cast, freeze,
  select, phi, extract_value, insert_value, extract_element, insert_element, shuffle_vector, call,
  invoke, landing_pad, inline_asm, fence, cmp_xchg, atomic_rmw, ret, br, cond_br, switch,
  unreachable, resume, catch_pad, cleanup_pad, catch_switch, catch_ret, cleanup_ret,
}

-- `opt.iter().copied().collect()`
abbrev pub option_list {ℓ} : {A : Type ℓ} → Option A → List A
option_list none = []
option_list (some a) = a ∷ []

abbrev pub clause_value : LandingPadClause → ValueRef
clause_value (catch _ v) = v
clause_value (filter _ v) = v

unfoldable pub operands : InstrKind → List ValueRef
operands (add _ lhs rhs) = lhs ∷ rhs ∷ []
operands (sub _ lhs rhs) = lhs ∷ rhs ∷ []
operands (mul _ lhs rhs) = lhs ∷ rhs ∷ []
operands (udiv _ lhs rhs) = lhs ∷ rhs ∷ []
operands (sdiv _ lhs rhs) = lhs ∷ rhs ∷ []
operands (urem lhs rhs) = lhs ∷ rhs ∷ []
operands (srem lhs rhs) = lhs ∷ rhs ∷ []
operands (and lhs rhs) = lhs ∷ rhs ∷ []
operands (or lhs rhs) = lhs ∷ rhs ∷ []
operands (xor lhs rhs) = lhs ∷ rhs ∷ []
operands (shl _ lhs rhs) = lhs ∷ rhs ∷ []
operands (lshr _ lhs rhs) = lhs ∷ rhs ∷ []
operands (ashr _ lhs rhs) = lhs ∷ rhs ∷ []
operands (fadd _ lhs rhs) = lhs ∷ rhs ∷ []
operands (fsub _ lhs rhs) = lhs ∷ rhs ∷ []
operands (fmul _ lhs rhs) = lhs ∷ rhs ∷ []
operands (fdiv _ lhs rhs) = lhs ∷ rhs ∷ []
operands (frem _ lhs rhs) = lhs ∷ rhs ∷ []
operands (fneg _ operand) = operand ∷ []
operands (icmp _ lhs rhs) = lhs ∷ rhs ∷ []
operands (fcmp _ _ lhs rhs) = lhs ∷ rhs ∷ []
operands (alloca _ num_elements _) = option_list num_elements
operands (load _ ptr _ _) = ptr ∷ []
operands (store val ptr _ _) = val ∷ ptr ∷ []
operands (get_element_ptr _ _ ptr indices) = ptr ∷ indices
operands (trunc val _) = val ∷ []
operands (zext val _) = val ∷ []
operands (sext val _) = val ∷ []
operands (fptrunc val _) = val ∷ []
operands (fpext val _) = val ∷ []
operands (fptoui val _) = val ∷ []
operands (fptosi val _) = val ∷ []
operands (uitofp val _) = val ∷ []
operands (sitofp val _) = val ∷ []
operands (ptr_to_int val _) = val ∷ []
operands (int_to_ptr val _) = val ∷ []
operands (bitcast val _) = val ∷ []
operands (addr_space_cast val _) = val ∷ []
operands (freeze val) = val ∷ []
operands (select cond then_val else_val) = cond ∷ then_val ∷ else_val ∷ []
operands (phi _ incoming) = map (λ p. p.0) incoming
operands (extract_value aggregate _) = aggregate ∷ []
operands (insert_value aggregate val _) = aggregate ∷ val ∷ []
operands (extract_element vec idx) = vec ∷ idx ∷ []
operands (insert_element vec val idx) = vec ∷ val ∷ idx ∷ []
operands (shuffle_vector v1 v2 _) = v1 ∷ v2 ∷ []
operands (call _ _ callee args) = callee ∷ args
operands (invoke _ callee args _ _) = callee ∷ args
operands (landing_pad _ personality_fn _ clauses) =
    option_list personality_fn ++ map clause_value clauses
operands (inline_asm _ _ _ _ args) = args
operands (fence _) = []
operands (cmp_xchg ptr cmp new_val _ _ _ _) = ptr ∷ cmp ∷ new_val ∷ []
operands (atomic_rmw _ ptr val _ _) = ptr ∷ val ∷ []
operands (ret val) = option_list val
operands (br _) = []
operands (cond_br cond _ _) = cond ∷ []
operands (switch val _ cases) = val ∷ map (λ p. p.0) cases
operands unreachable = []
operands (resume val) = val ∷ []
operands (catch_pad pad args) = pad ∷ args
operands (cleanup_pad parent args) = option_list parent ++ args
operands (catch_switch parent _ _) = option_list parent
operands (catch_ret pad _) = pad ∷ []
operands (cleanup_ret pad _) = pad ∷ []

unfoldable pub successors : InstrKind → List BlockId
successors (br dest) = dest ∷ []
successors (cond_br _ then_dest else_dest) = then_dest ∷ else_dest ∷ []
successors (invoke _ _ _ normal_dest unwind_dest) = normal_dest ∷ unwind_dest ∷ []
successors (switch _ default cases) = default ∷ map (λ p. p.1) cases
successors (catch_switch _ handlers default) = handlers ++ option_list default
successors (catch_ret _ successor) = successor ∷ []
successors (cleanup_ret _ unwind_dest) = option_list unwind_dest
successors _ = []
