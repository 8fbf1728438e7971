-- ===== src/Transforms/Dce.antt =====
-- llvm-transforms/src/dce.rs: dead-code elimination. The set of dead instructions is a list.
pub mod Dead
pub mod Laws
pub mod Kept
use Prim.Native.Nat.{ℕ, ◌+◌}
use native.Mathlib.Decide.{ℕ_discrete}
use mathlib.Core.Bool.{Bool, true, false, not, ◌&&◌}
use mathlib.Core.List.{List, [], ◌∷◌, map}
use mathlib.Core.Option.{Option, none, some}
use llvm_in_rust.Base.{retain, if◌then◌else◌}
use llvm_in_rust.Base.Any.{any, eq_test}
use llvm_in_rust.Base.Machine.{as_u32}
use llvm_in_rust.Ir.Ids.{InstrId, instruction}
use llvm_in_rust.Ir.Instr.{
  InstrKind, alloca, load, store, call, fence, cmp_xchg, atomic_rmw, ret, br, cond_br, switch,
  unreachable,
}
use llvm_in_rust.Ir.Block.{BasicBlock}
use llvm_in_rust.Ir.Function.{Function, Instruction}
use llvm_in_rust.Analysis.UseDef.{UseDefInfo, compute, is_dead}

unfoldable pub is_dce_safe : InstrKind → Bool
is_dce_safe (alloca _ _ _) = false
is_dce_safe (load _ _ _ _) = false
is_dce_safe (store _ _ _ _) = false
is_dce_safe (call _ _ _ _) = false
is_dce_safe (fence _) = false
is_dce_safe (cmp_xchg _ _ _ _ _ _ _) = false
is_dce_safe (atomic_rmw _ _ _ _ _) = false
is_dce_safe (ret _) = false
is_dce_safe (br _) = false
is_dce_safe (cond_br _ _ _) = false
is_dce_safe (switch _ _ _) = false
is_dce_safe unreachable = false
is_dce_safe _ = true

-- The indices of the pool, from `i` on, whose instruction is safe to delete and dead.
unfoldable pub dead_from : UseDefInfo → ℕ → List Instruction → List InstrId
dead_from info i [] = []
dead_from info i (ins ∷ rest) =
    let more = dead_from info (i + 1) rest in
    if is_dce_safe ins.kind && is_dead info (instruction (as_u32 i)) then as_u32 i ∷ more else more

unfoldable pub contains : List InstrId → InstrId → Bool
contains ids id = any (eq_test ℕ_discrete id) ids

abbrev pub retain_live : List InstrId → BasicBlock → BasicBlock
retain_live dead bb = record bb { body = retain (λ id. not (contains dead id)) bb.body }

-- The rest of the pass once the set is known: the function after it, and whether it changed.
unfoldable pub sweep : Function → List InstrId → Function × Bool
sweep f [] = (f, false)
sweep f (d ∷ ds) = (record f { blocks = map (retain_live (d ∷ ds)) f.blocks }, true)

-- `run_on_function`.
unfoldable pub run_dce : Function → Option (Function × Bool)
run_dce f = elim (compute f) [
  | none ↦ none
  | some info ↦ some (sweep f (dead_from info 0 f.instructions))
]
