-- ===== src/Ir/Ops.antt =====
-- llvm-ir/src/instruction.rs: flags, predicates and the other enumerations that an instruction
-- carries.
use mathlib.Core.Bool.{Bool}
use llvm_in_rust.Ir.Ids.{TypeId, ValueRef}

pub record IntArithFlags : Type 0 where
  pub nuw : Bool
  pub nsw : Bool

pub record FastMathFlags : Type 0 where
  pub nnan : Bool
  pub ninf : Bool
  pub nsz : Bool
  pub arcp : Bool
  pub contract : Bool
  pub afn : Bool
  pub reassoc : Bool
  pub fast : Bool

pub data IntPredicate : Type 0 where
  eq ne ugt uge ult ule sgt sge slt sle : IntPredicate

pub data FloatPredicate : Type 0 where
  never oeq ogt oge olt ole one ord uno ueq ugt uge ult ule une always : FloatPredicate

pub data TailCallKind : Type 0 where
  plain tail must_tail no_tail : TailCallKind

pub data MemOrdering : Type 0 where
  unordered monotonic acquire release acq_rel seq_cst : MemOrdering

pub data RmwOp : Type 0 where
  xchg add sub and nand or xor max min umax umin fadd fsub : RmwOp

pub data LandingPadClause : Type 0 where
  catch filter : TypeId → ValueRef → LandingPadClause
