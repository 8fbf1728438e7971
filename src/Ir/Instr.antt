-- ===== src/Ir/Instr.antt =====
-- llvm-ir/src/instruction.rs: `InstrKind`, one constructor for each variant with its fields in order.
pub mod Operands
pub mod Opcode
pub mod Laws
use Prim.Native.Nat.{ℕ}
use Prim.Native.String.{String}
use mathlib.Core.Bool.{Bool, true, false}
use mathlib.Core.List.{List}
use mathlib.Core.Option.{Option}
use llvm_in_rust.Base.Int.{ℤ}
use llvm_in_rust.Ir.Ids.{TypeId, BlockId, ValueRef}
use llvm_in_rust.Ir.Ops.{
  IntArithFlags, FastMathFlags, IntPredicate, FloatPredicate, TailCallKind, MemOrdering, RmwOp,
  LandingPadClause,
}

pub data InstrKind : Type 0 where
  add : IntArithFlags → ValueRef → ValueRef → InstrKind
  sub : IntArithFlags → ValueRef → ValueRef → InstrKind
  mul : IntArithFlags → ValueRef → ValueRef → InstrKind
  udiv : Bool → ValueRef → ValueRef → InstrKind
  sdiv : Bool → ValueRef → ValueRef → InstrKind
  urem : ValueRef → ValueRef → InstrKind
  srem : ValueRef → ValueRef → InstrKind
  and : ValueRef → ValueRef → InstrKind
  or : ValueRef → ValueRef → InstrKind
  xor : ValueRef → ValueRef → InstrKind
  shl : IntArithFlags → ValueRef → ValueRef → InstrKind
  lshr : Bool → ValueRef → ValueRef → InstrKind
  ashr : Bool → ValueRef → ValueRef → InstrKind
  fadd : FastMathFlags → ValueRef → ValueRef → InstrKind
  fsub : FastMathFlags → ValueRef → ValueRef → InstrKind
  fmul : FastMathFlags → ValueRef → ValueRef → InstrKind
  fdiv : FastMathFlags → ValueRef → ValueRef → InstrKind
  frem : FastMathFlags → ValueRef → ValueRef → InstrKind
  fneg : FastMathFlags → ValueRef → InstrKind
  icmp : IntPredicate → ValueRef → ValueRef → InstrKind
  fcmp : FastMathFlags → FloatPredicate → ValueRef → ValueRef → InstrKind
  alloca : TypeId → Option ValueRef → Option ℕ → InstrKind
  load : TypeId → ValueRef → Option ℕ → Bool → InstrKind
  store : ValueRef → ValueRef → Option ℕ → Bool → InstrKind
  get_element_ptr : Bool → TypeId → ValueRef → List ValueRef → InstrKind
  trunc : ValueRef → TypeId → InstrKind
  zext : ValueRef → TypeId → InstrKind
  sext : ValueRef → TypeId → InstrKind
  fptrunc : ValueRef → TypeId → InstrKind
  fpext : ValueRef → TypeId → InstrKind
  fptoui : ValueRef → TypeId → InstrKind
  fptosi : ValueRef → TypeId → InstrKind
  uitofp : ValueRef → TypeId → InstrKind
  sitofp : ValueRef → TypeId → InstrKind
  ptr_to_int : ValueRef → TypeId → InstrKind
  int_to_ptr : ValueRef → TypeId → InstrKind
  bitcast : ValueRef → TypeId → InstrKind
  addr_space_cast : ValueRef → TypeId → InstrKind
  freeze : ValueRef → InstrKind
  select : ValueRef → ValueRef → ValueRef → InstrKind
  phi : TypeId → List (ValueRef × BlockId) → InstrKind
  extract_value : ValueRef → List ℕ → InstrKind
  insert_value : ValueRef → ValueRef → List ℕ → InstrKind
  extract_element : ValueRef → ValueRef → InstrKind
  insert_element : ValueRef → ValueRef → ValueRef → InstrKind
  shuffle_vector : ValueRef → ValueRef → List ℤ → InstrKind
  call : TailCallKind → TypeId → ValueRef → List ValueRef → InstrKind
  invoke : TypeId → ValueRef → List ValueRef → BlockId → BlockId → InstrKind
  landing_pad : TypeId → Option ValueRef → Bool → List LandingPadClause → InstrKind
  inline_asm : String → String → Bool → Bool → List ValueRef → InstrKind
  fence : MemOrdering → InstrKind
  cmp_xchg : ValueRef → ValueRef → ValueRef → MemOrdering → MemOrdering → Bool → Bool → InstrKind
  atomic_rmw : RmwOp → ValueRef → ValueRef → MemOrdering → Bool → InstrKind
  ret : Option ValueRef → InstrKind
  br : BlockId → InstrKind
  cond_br : ValueRef → BlockId → BlockId → InstrKind
  switch : ValueRef → BlockId → List (ValueRef × BlockId) → InstrKind
  unreachable : InstrKind
  resume : ValueRef → InstrKind
  catch_pad : ValueRef → List ValueRef → InstrKind
  cleanup_pad : Option ValueRef → List ValueRef → InstrKind
  catch_switch : Option ValueRef → List BlockId → Option BlockId → InstrKind
  catch_ret : ValueRef → BlockId → InstrKind
  cleanup_ret : ValueRef → Option BlockId → InstrKind

unfoldable pub is_terminator : InstrKind → Bool
is_terminator (ret _) = true
is_terminator (br _) = true
is_terminator (cond_br _ _ _) = true
is_terminator (invoke _ _ _ _ _) = true
is_terminator (switch _ _ _) = true
is_terminator unreachable = true
is_terminator (resume _) = true
is_terminator (catch_switch _ _ _) = true
is_terminator (catch_ret _ _) = true
is_terminator (cleanup_ret _ _) = true
is_terminator _ = false
