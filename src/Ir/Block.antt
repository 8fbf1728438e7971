-- ===== src/Ir/Block.antt =====
-- llvm-ir/src/basic_block.rs: a block's body and its optional terminator.
use Prim.Native.Nat.{ℕ, ◌+◌}
use Prim.Native.String.{String}
use mathlib.Core.Bool.{Bool, true, false}
use mathlib.Core.List.{List, [], ◌∷◌, ◌++◌}
use mathlib.Core.Option.{Option, none, some}
use llvm_in_rust.Base.{length, ◌==◌, if◌then◌else◌}
use llvm_in_rust.Ir.Ids.{InstrId}
use llvm_in_rust.Ir.Instr.Operands.{option_list}

pub record BasicBlock : Type 0 where
  pub name : String
  pub body : List InstrId
  pub terminator : Option InstrId

unfoldable pub new_block : String → BasicBlock
new_block name = record { name = name; body = []; terminator = none }

unfoldable pub append_instr : BasicBlock → InstrId → BasicBlock
append_instr bb id = record bb { body = bb.body ++ id ∷ [] }

unfoldable pub set_terminator : BasicBlock → InstrId → BasicBlock
set_terminator bb id = record bb { terminator = some id }

unfoldable pub is_complete : BasicBlock → Bool
is_complete bb = elim bb.terminator [ some _ ↦ true | none ↦ false ]

unfoldable pub instrs : BasicBlock → List InstrId
instrs bb = bb.body ++ option_list bb.terminator

unfoldable pub len : BasicBlock → ℕ
unfolding is_complete
len bb = length bb.body + (if is_complete bb then 1 else 0)

unfoldable pub is_empty : BasicBlock → Bool
unfolding len
is_empty bb = len bb == 0
