-- ===== src/Ir/Types.antt =====
-- llvm-ir/src/types.rs: the types of the IR.
use Prim.Native.Nat.{ℕ}
use Prim.Native.String.{String}
use native.Mathlib.Decide.{ℕ_discrete}
use mathlib.Core.Bool.{Bool}
use mathlib.Core.List.{List}
use mathlib.Core.Option.{Option}
use llvm_in_rust.Base.Text.{String-discrete}
use llvm_in_rust.Ir.Ids.{TypeId}

pub data FloatKind : Type 0 where
  half bfloat single double fp128 x86_fp80 : FloatKind

-- `StructType` and `FunctionType` are the fields of `struct` and `function`.
pub data TypeData : Type 0 where
  void : TypeData
  integer : ℕ → TypeData
  float : FloatKind → TypeData
  pointer : TypeData
  array : TypeId → ℕ → TypeData
  vector : TypeId → ℕ → Bool → TypeData
  struct : Option String → List TypeId → Bool → TypeData
  function : TypeId → List TypeId → Bool → TypeData
  label metadata : TypeData

unfoldable pub TypeData-discrete : Discrete TypeData
TypeData-discrete = hlevel (ℕ_discrete, String-discrete)
