-- ===== src/Ir/Instr/Opcode.antt =====
-- llvm-ir/src/instruction.rs: `InstrKind::opcode`.
use Prim.Native.String.{String}
use llvm_in_rust.Ir.Instr.{
  InstrKind, add, sub, mul, udiv, sdiv, urem, srem, and, or, xor, shl, lshr, ashr, fadd, fsub, fmul,
  fdiv, frem, fneg, icmp, fcmp, alloca, load, store, get_element_ptr, trunc, zext, sext, fptrunc,
  fpext, fptoui, fptosi, uitofp, sitofp, ptr_to_int, int_to_ptr, bitcast, addr_space_cast, freeze,
  select, phi, extract_value, insert_value, extract_element, insert_element, shuffle_vector, call,
  invoke, landing_pad, inline_asm, fence, cmp_xchg, atomic_rmw, ret, br, cond_br, switch,
  unreachable, resume, catch_pad, cleanup_pad, catch_switch, catch_ret, cleanup_ret,
}

unfoldable pub opcode : InstrKind → String
opcode (add _ _ _) = "add"
opcode (sub _ _ _) = "sub"
opcode (mul _ _ _) = "mul"
opcode (udiv _ _ _) = "udiv"
opcode (sdiv _ _ _) = "sdiv"
opcode (urem _ _) = "urem"
opcode (srem _ _) = "srem"
opcode (and _ _) = "and"
opcode (or _ _) = "or"
opcode (xor _ _) = "xor"
opcode (shl _ _ _) = "shl"
opcode (lshr _ _ _) = "lshr"
opcode (ashr _ _ _) = "ashr"
opcode (fadd _ _ _) = "fadd"
opcode (fsub _ _ _) = "fsub"
opcode (fmul _ _ _) = "fmul"
opcode (fdiv _ _ _) = "fdiv"
opcode (frem _ _ _) = "frem"
opcode (fneg _ _) = "fneg"
opcode (icmp _ _ _) = "icmp"
opcode (fcmp _ _ _ _) = "fcmp"
opcode (alloca _ _ _) = "alloca"
opcode (load _ _ _ _) = "load"
opcode (store _ _ _ _) = "store"
opcode (get_element_ptr _ _ _ _) = "getelementptr"
opcode (trunc _ _) = "trunc"
opcode (zext _ _) = "zext"
opcode (sext _ _) = "sext"
opcode (fptrunc _ _) = "fptrunc"
opcode (fpext _ _) = "fpext"
opcode (fptoui _ _) = "fptoui"
opcode (fptosi _ _) = "fptosi"
opcode (uitofp _ _) = "uitofp"
opcode (sitofp _ _) = "sitofp"
opcode (ptr_to_int _ _) = "ptrtoint"
opcode (int_to_ptr _ _) = "inttoptr"
opcode (bitcast _ _) = "bitcast"
opcode (addr_space_cast _ _) = "addrspacecast"
opcode (freeze _) = "freeze"
opcode (select _ _ _) = "select"
opcode (phi _ _) = "phi"
opcode (extract_value _ _) = "extractvalue"
opcode (insert_value _ _ _) = "insertvalue"
opcode (extract_element _ _) = "extractelement"
opcode (insert_element _ _ _) = "insertelement"
opcode (shuffle_vector _ _ _) = "shufflevector"
opcode (call _ _ _ _) = "call"
opcode (invoke _ _ _ _ _) = "invoke"
opcode (landing_pad _ _ _ _) = "landingpad"
opcode (inline_asm _ _ _ _ _) = "call asm"
opcode (fence _) = "fence"
opcode (cmp_xchg _ _ _ _ _ _ _) = "cmpxchg"
opcode (atomic_rmw _ _ _ _ _) = "atomicrmw"
opcode (ret _) = "ret"
opcode (br _) = "br"
opcode (cond_br _ _ _) = "br"
opcode (switch _ _ _) = "switch"
opcode unreachable = "unreachable"
opcode (resume _) = "resume"
opcode (catch_pad _ _) = "catchpad"
opcode (cleanup_pad _ _) = "cleanuppad"
opcode (catch_switch _ _ _) = "catchswitch"
opcode (catch_ret _ _) = "catchret"
opcode (cleanup_ret _ _) = "cleanupret"
