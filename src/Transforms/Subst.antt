-- ===== src/Transforms/Subst.antt =====
-- llvm-transforms/src/const_prop.rs: `subst_kind`.
pub mod Laws
use mathlib.Core.List.{map}
use mathlib.Core.Option
use mathlib.Core.Option.{none, some}
use llvm_in_rust.Base.Maps.{HashMap, get}
use native.Mathlib.Decide.{ℕ_discrete}
use llvm_in_rust.Ir.Ids.{InstrId, ValueRef, instruction}
use llvm_in_rust.Ir.Ops.{LandingPadClause, catch, filter}
use llvm_in_rust.Ir.Instr.{
  InstrKind, add, sub, mul, udiv, sdiv, urem, srem, and, or, xor, shl, lshr, ashr, fadd, fsub, fmul,
  fdiv, frem, fneg, icmp, fcmp, alloca, load, store, get_element_ptr, trunc, zext, sext, fptrunc,
  fpext, fptoui, fptosi, uitofp, sitofp, ptr_to_int, int_to_ptr, bitcast, addr_space_cast, freeze,
  select, phi, extract_value, insert_value, extract_element, insert_element, shuffle_vector, call,
  invoke, landing_pad, inline_asm, fence, cmp_xchg, atomic_rmw, ret, br, cond_br, switch,
  unreachable, resume, catch_pad, cleanup_pad, catch_switch, catch_ret, cleanup_ret,
}

-- The closure `s`: an instruction that has a substitute is replaced by it.
unfoldable pub subst_value : HashMap InstrId ValueRef → ValueRef → ValueRef
unfolding get
subst_value subst (instruction id) = elim (get ℕ_discrete id subst) [
  | some v ↦ v
  | none ↦ instruction id
]
subst_value subst v = v

abbrev pub subst_clause : HashMap InstrId ValueRef → LandingPadClause → LandingPadClause
subst_clause subst (catch ty value) = catch ty (subst_value subst value)
subst_clause subst (filter ty value) = filter ty (subst_value subst value)

unfoldable pub subst_kind : InstrKind → HashMap InstrId ValueRef → InstrKind
subst_kind (add flags lhs rhs) subst = add flags (subst_value subst lhs) (subst_value subst rhs)
subst_kind (sub flags lhs rhs) subst = sub flags (subst_value subst lhs) (subst_value subst rhs)
subst_kind (mul flags lhs rhs) subst = mul flags (subst_value subst lhs) (subst_value subst rhs)
subst_kind (udiv exact lhs rhs) subst = udiv exact (subst_value subst lhs) (subst_value subst rhs)
subst_kind (sdiv exact lhs rhs) subst = sdiv exact (subst_value subst lhs) (subst_value subst rhs)
subst_kind (urem lhs rhs) subst = urem (subst_value subst lhs) (subst_value subst rhs)
subst_kind (srem lhs rhs) subst = srem (subst_value subst lhs) (subst_value subst rhs)
subst_kind (and lhs rhs) subst = and (subst_value subst lhs) (subst_value subst rhs)
subst_kind (or lhs rhs) subst = or (subst_value subst lhs) (subst_value subst rhs)
subst_kind (xor lhs rhs) subst = xor (subst_value subst lhs) (subst_value subst rhs)
subst_kind (shl flags lhs rhs) subst = shl flags (subst_value subst lhs) (subst_value subst rhs)
subst_kind (lshr exact lhs rhs) subst = lshr exact (subst_value subst lhs) (subst_value subst rhs)
subst_kind (ashr exact lhs rhs) subst = ashr exact (subst_value subst lhs) (subst_value subst rhs)
subst_kind (fadd flags lhs rhs) subst = fadd flags (subst_value subst lhs) (subst_value subst rhs)
subst_kind (fsub flags lhs rhs) subst = fsub flags (subst_value subst lhs) (subst_value subst rhs)
subst_kind (fmul flags lhs rhs) subst = fmul flags (subst_value subst lhs) (subst_value subst rhs)
subst_kind (fdiv flags lhs rhs) subst = fdiv flags (subst_value subst lhs) (subst_value subst rhs)
subst_kind (frem flags lhs rhs) subst = frem flags (subst_value subst lhs) (subst_value subst rhs)
subst_kind (fneg flags operand) subst = fneg flags (subst_value subst operand)
subst_kind (icmp pred lhs rhs) subst = icmp pred (subst_value subst lhs) (subst_value subst rhs)
subst_kind (fcmp flags pred lhs rhs) subst =
    fcmp flags pred (subst_value subst lhs) (subst_value subst rhs)
subst_kind (alloca alloc_ty num_elements align) subst =
    alloca alloc_ty (Option.map (subst_value subst) num_elements) align
subst_kind (load ty ptr align volatile) subst = load ty (subst_value subst ptr) align volatile
subst_kind (store val ptr align volatile) subst =
    store (subst_value subst val) (subst_value subst ptr) align volatile
subst_kind (get_element_ptr inbounds base_ty ptr indices) subst =
    get_element_ptr inbounds base_ty (subst_value subst ptr) (map (subst_value subst) indices)
subst_kind (trunc val to) subst = trunc (subst_value subst val) to
subst_kind (zext val to) subst = zext (subst_value subst val) to
subst_kind (sext val to) subst = sext (subst_value subst val) to
subst_kind (fptrunc val to) subst = fptrunc (subst_value subst val) to
subst_kind (fpext val to) subst = fpext (subst_value subst val) to
subst_kind (fptoui val to) subst = fptoui (subst_value subst val) to
subst_kind (fptosi val to) subst = fptosi (subst_value subst val) to
subst_kind (uitofp val to) subst = uitofp (subst_value subst val) to
subst_kind (sitofp val to) subst = sitofp (subst_value subst val) to
subst_kind (ptr_to_int val to) subst = ptr_to_int (subst_value subst val) to
subst_kind (int_to_ptr val to) subst = int_to_ptr (subst_value subst val) to
subst_kind (bitcast val to) subst = bitcast (subst_value subst val) to
subst_kind (addr_space_cast val to) subst = addr_space_cast (subst_value subst val) to
subst_kind (freeze val) subst = freeze (subst_value subst val)
subst_kind (select cond then_val else_val) subst =
    select (subst_value subst cond) (subst_value subst then_val) (subst_value subst else_val)
subst_kind (phi ty incoming) subst = phi ty (map (λ p. (subst_value subst p.0, p.1)) incoming)
subst_kind (extract_value aggregate indices) subst =
    extract_value (subst_value subst aggregate) indices
subst_kind (insert_value aggregate val indices) subst =
    insert_value (subst_value subst aggregate) (subst_value subst val) indices
subst_kind (extract_element vec idx) subst =
    extract_element (subst_value subst vec) (subst_value subst idx)
subst_kind (insert_element vec val idx) subst =
    insert_element (subst_value subst vec) (subst_value subst val) (subst_value subst idx)
subst_kind (shuffle_vector v1 v2 mask) subst =
    shuffle_vector (subst_value subst v1) (subst_value subst v2) mask
subst_kind (call tail_kind callee_ty callee args) subst =
    call tail_kind callee_ty (subst_value subst callee) (map (subst_value subst) args)
subst_kind (invoke callee_ty callee args normal_dest unwind_dest) subst =
    invoke callee_ty (subst_value subst callee) (map (subst_value subst) args) normal_dest
      unwind_dest
subst_kind (landing_pad result_ty personality_fn cleanup clauses) subst =
    landing_pad result_ty (Option.map (subst_value subst) personality_fn) cleanup
      (map (subst_clause subst) clauses)
subst_kind (inline_asm asm_string constraints side_effect align_stack args) subst =
    inline_asm asm_string constraints side_effect align_stack (map (subst_value subst) args)
subst_kind (fence ordering) subst = fence ordering
subst_kind (cmp_xchg ptr cmp new_val success_ord fail_ord weak volatile) subst =
    cmp_xchg (subst_value subst ptr) (subst_value subst cmp) (subst_value subst new_val) success_ord
      fail_ord weak volatile
subst_kind (atomic_rmw op ptr val ordering volatile) subst =
    atomic_rmw op (subst_value subst ptr) (subst_value subst val) ordering volatile
subst_kind (ret val) subst = ret (Option.map (subst_value subst) val)
subst_kind (br dest) subst = br dest
subst_kind (cond_br cond then_dest else_dest) subst =
    cond_br (subst_value subst cond) then_dest else_dest
subst_kind (switch val default cases) subst =
    switch (subst_value subst val) default (map (λ p. (subst_value subst p.0, p.1)) cases)
subst_kind unreachable subst = unreachable
subst_kind (resume val) subst = resume (subst_value subst val)
subst_kind (catch_pad pad args) subst =
    catch_pad (subst_value subst pad) (map (subst_value subst) args)
subst_kind (cleanup_pad parent args) subst =
    cleanup_pad (Option.map (subst_value subst) parent) (map (subst_value subst) args)
subst_kind (catch_switch parent handlers default) subst =
    catch_switch (Option.map (subst_value subst) parent) handlers default
subst_kind (catch_ret pad successor) subst = catch_ret (subst_value subst pad) successor
subst_kind (cleanup_ret pad unwind_dest) subst = cleanup_ret (subst_value subst pad) unwind_dest
