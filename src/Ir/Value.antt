-- ===== src/Ir/Value.antt =====
-- llvm-ir/src/value.rs: constants, arguments, global variables and linkage.
use Prim.Native.Nat.{ℕ}
use Prim.Native.String.{String}
use mathlib.Core.Bool.{Bool, true, false}
use mathlib.Core.List.{List}
use mathlib.Core.Option.{Option}
use llvm_in_rust.Ir.Ids.{TypeId, ConstId, GlobalId}

pub data ConstExprOp : Type 0 where
  get_element_ptr : Bool → TypeId → ConstExprOp
  bit_cast int_to_ptr ptr_to_int addr_space_cast trunc zext sext : ConstExprOp

unfoldable pub is_cast : ConstExprOp → Bool
is_cast (get_element_ptr _ _) = false
is_cast _ = true

pub data ConstantData : Type 0 where
  int : TypeId → ℕ → ConstantData
  int_wide : TypeId → List ℕ → ConstantData
  float : TypeId → ℕ → ConstantData
  null undef poison zero_initializer : TypeId → ConstantData
  array struct vector : TypeId → List ConstId → ConstantData
  global_ref : TypeId → GlobalId → String → ConstantData
  expr : TypeId → ConstExprOp → List ConstId → ConstantData

pub record Argument : Type 0 where
  pub name : String
  pub ty : TypeId
  pub index : ℕ

pub data Linkage : Type 0 where
  private internal external weak weak_odr link_once link_once_odr common : Linkage
  available_externally : Linkage

pub record GlobalVariable : Type 0 where
  pub name : String
  pub ty : TypeId
  pub initializer : Option ConstId
  pub is_constant : Bool
  pub linkage : Linkage
