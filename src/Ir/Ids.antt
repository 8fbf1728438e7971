-- ===== src/Ir/Ids.antt =====
-- llvm-ir/src/context.rs: the index types, each a newtype over u32, and `ValueRef`.
use Prim.Native.Nat.{ℕ}
use native.Mathlib.Decide.{ℕ_discrete}

abbrev pub TypeId : Type 0
TypeId = ℕ

abbrev pub FunctionId : Type 0
FunctionId = ℕ

abbrev pub BlockId : Type 0
BlockId = ℕ

abbrev pub InstrId : Type 0
InstrId = ℕ

abbrev pub ArgId : Type 0
ArgId = ℕ

abbrev pub ConstId : Type 0
ConstId = ℕ

abbrev pub GlobalId : Type 0
GlobalId = ℕ

pub data ValueRef : Type 0 where
  instruction : InstrId → ValueRef
  argument : ArgId → ValueRef
  constant : ConstId → ValueRef
  global : GlobalId → ValueRef

unfoldable pub ValueRef-discrete : Discrete ValueRef
ValueRef-discrete = hlevel ℕ_discrete
