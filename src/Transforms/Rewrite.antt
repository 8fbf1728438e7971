-- ===== src/Transforms/Rewrite.antt =====
-- llvm-transforms/src/value_rewrite.rs.
pub mod Laws
use mathlib.Core.List.{map}
use mathlib.Core.Option
use llvm_in_rust.Ir.Ids.{ValueRef}
use llvm_in_rust.Ir.Ops.{LandingPadClause, catch, filter}
use llvm_in_rust.Ir.Instr.{
  InstrKind, add, sub, mul, udiv, sdiv, urem, srem, and, or, xor, shl, lshr, ashr, fadd, fsub, fmul,
  fdiv, frem, fneg, icmp, fcmp, alloca, load, store, get_element_ptr, trunc, zext, sext, fptrunc,
  fpext, fptoui, fptosi, uitofp, sitofp, ptr_to_int, int_to_ptr, bitcast, addr_space_cast, freeze,
  select, phi, extract_value, insert_value, extract_element, insert_element, shuffle_vector, call,
  invoke, landing_pad, inline_asm, fence, cmp_xchg, atomic_rmw, ret, br, cond_br, switch,
  unreachable, resume, catch_pad, cleanup_pad, catch_switch, catch_ret, cleanup_ret,
}

abbrev pub rewrite_clause : (ValueRef → ValueRef) → LandingPadClause → LandingPadClause
rewrite_clause f (catch ty value) = catch ty (f value)
rewrite_clause f (filter ty value) = filter ty (f value)

-- The mapper is a pure function, as it is at every call in the repository.
unfoldable pub rewrite_values_in_kind : InstrKind → (ValueRef → ValueRef) → InstrKind
rewrite_values_in_kind (add flags lhs rhs) f = add flags (f lhs) (f rhs)
rewrite_values_in_kind (sub flags lhs rhs) f = sub flags (f lhs) (f rhs)
rewrite_values_in_kind (mul flags lhs rhs) f = mul flags (f lhs) (f rhs)
rewrite_values_in_kind (udiv exact lhs rhs) f = udiv exact (f lhs) (f rhs)
rewrite_values_in_kind (sdiv exact lhs rhs) f = sdiv exact (f lhs) (f rhs)
rewrite_values_in_kind (urem lhs rhs) f = urem (f lhs) (f rhs)
rewrite_values_in_kind (srem lhs rhs) f = srem (f lhs) (f rhs)
rewrite_values_in_kind (and lhs rhs) f = and (f lhs) (f rhs)
rewrite_values_in_kind (or lhs rhs) f = or (f lhs) (f rhs)
rewrite_values_in_kind (xor lhs rhs) f = xor (f lhs) (f rhs)
rewrite_values_in_kind (shl flags lhs rhs) f = shl flags (f lhs) (f rhs)
rewrite_values_in_kind (lshr exact lhs rhs) f = lshr exact (f lhs) (f rhs)
rewrite_values_in_kind (ashr exact lhs rhs) f = ashr exact (f lhs) (f rhs)
rewrite_values_in_kind (fadd flags lhs rhs) f = fadd flags (f lhs) (f rhs)
rewrite_values_in_kind (fsub flags lhs rhs) f = fsub flags (f lhs) (f rhs)
rewrite_values_in_kind (fmul flags lhs rhs) f = fmul flags (f lhs) (f rhs)
rewrite_values_in_kind (fdiv flags lhs rhs) f = fdiv flags (f lhs) (f rhs)
rewrite_values_in_kind (frem flags lhs rhs) f = frem flags (f lhs) (f rhs)
rewrite_values_in_kind (fneg flags operand) f = fneg flags (f operand)
rewrite_values_in_kind (icmp pred lhs rhs) f = icmp pred (f lhs) (f rhs)
rewrite_values_in_kind (fcmp flags pred lhs rhs) f = fcmp flags pred (f lhs) (f rhs)
rewrite_values_in_kind (alloca alloc_ty num_elements align) f =
    alloca alloc_ty (Option.map f num_elements) align
rewrite_values_in_kind (load ty ptr align volatile) f = load ty (f ptr) align volatile
rewrite_values_in_kind (store val ptr align volatile) f = store (f val) (f ptr) align volatile
rewrite_values_in_kind (get_element_ptr inbounds base_ty ptr indices) f =
    get_element_ptr inbounds base_ty (f ptr) (map f indices)
rewrite_values_in_kind (trunc val to) f = trunc (f val) to
rewrite_values_in_kind (zext val to) f = zext (f val) to
rewrite_values_in_kind (sext val to) f = sext (f val) to
rewrite_values_in_kind (fptrunc val to) f = fptrunc (f val) to
rewrite_values_in_kind (fpext val to) f = fpext (f val) to
rewrite_values_in_kind (fptoui val to) f = fptoui (f val) to
rewrite_values_in_kind (fptosi val to) f = fptosi (f val) to
rewrite_values_in_kind (uitofp val to) f = uitofp (f val) to
rewrite_values_in_kind (sitofp val to) f = sitofp (f val) to
rewrite_values_in_kind (ptr_to_int val to) f = ptr_to_int (f val) to
rewrite_values_in_kind (int_to_ptr val to) f = int_to_ptr (f val) to
rewrite_values_in_kind (bitcast val to) f = bitcast (f val) to
rewrite_values_in_kind (addr_space_cast val to) f = addr_space_cast (f val) to
rewrite_values_in_kind (freeze val) f = freeze (f val)
rewrite_values_in_kind (select cond then_val else_val) f = select (f cond) (f then_val) (f else_val)
rewrite_values_in_kind (phi ty incoming) f = phi ty (map (λ p. (f p.0, p.1)) incoming)
rewrite_values_in_kind (extract_value aggregate indices) f = extract_value (f aggregate) indices
rewrite_values_in_kind (insert_value aggregate val indices) f =
    insert_value (f aggregate) (f val) indices
rewrite_values_in_kind (extract_element vec idx) f = extract_element (f vec) (f idx)
rewrite_values_in_kind (insert_element vec val idx) f = insert_element (f vec) (f val) (f idx)
rewrite_values_in_kind (shuffle_vector v1 v2 mask) f = shuffle_vector (f v1) (f v2) mask
rewrite_values_in_kind (call tail_kind callee_ty callee args) f =
    call tail_kind callee_ty (f callee) (map f args)
rewrite_values_in_kind (invoke callee_ty callee args normal_dest unwind_dest) f =
    invoke callee_ty (f callee) (map f args) normal_dest unwind_dest
rewrite_values_in_kind (landing_pad result_ty personality_fn cleanup clauses) f =
    landing_pad result_ty (Option.map f personality_fn) cleanup (map (rewrite_clause f) clauses)
rewrite_values_in_kind (inline_asm asm_string constraints side_effect align_stack args) f =
    inline_asm asm_string constraints side_effect align_stack (map f args)
rewrite_values_in_kind (fence ordering) f = fence ordering
rewrite_values_in_kind (cmp_xchg ptr cmp new_val success_ord fail_ord weak volatile) f =
    cmp_xchg (f ptr) (f cmp) (f new_val) success_ord fail_ord weak volatile
rewrite_values_in_kind (atomic_rmw op ptr val ordering volatile) f =
    atomic_rmw op (f ptr) (f val) ordering volatile
rewrite_values_in_kind (ret val) f = ret (Option.map f val)
rewrite_values_in_kind (br dest) f = br dest
rewrite_values_in_kind (cond_br cond then_dest else_dest) f = cond_br (f cond) then_dest else_dest
rewrite_values_in_kind (switch val default cases) f =
    switch (f val) default (map (λ p. (f p.0, p.1)) cases)
rewrite_values_in_kind unreachable f = unreachable
rewrite_values_in_kind (resume val) f = resume (f val)
rewrite_values_in_kind (catch_pad pad args) f = catch_pad (f pad) (map f args)
rewrite_values_in_kind (cleanup_pad parent args) f = cleanup_pad (Option.map f parent) (map f args)
rewrite_values_in_kind (catch_switch parent handlers default) f =
    catch_switch (Option.map f parent) handlers default
rewrite_values_in_kind (catch_ret pad successor) f = catch_ret (f pad) successor
rewrite_values_in_kind (cleanup_ret pad unwind_dest) f = cleanup_ret (f pad) unwind_dest
