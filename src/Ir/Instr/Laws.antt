-- ===== src/Ir/Instr/Laws.antt =====
-- What the classifications of an instruction say of each other.
use mathlib.Core.Path.{◌≡◌, refl}
use mathlib.Core.Logic.{◌≢◌}
use mathlib.Core.Bool.{true}
use mathlib.Core.List.{[]}
use native.Mathlib.Omega.{arith}
use llvm_in_rust.Ir.Instr.{InstrKind, is_terminator, br}
use llvm_in_rust.Ir.Instr.Operands.{successors}

-- Only a terminator has a successor block.
pub successors-is_terminator : (k : InstrKind) → successors k ≢ [] → is_terminator k ≡ true
unfolding successors is_terminator
successors-is_terminator (br dest) h = refl
successors-is_terminator _ h = ground arith
