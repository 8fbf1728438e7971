-- ===== src/Examples/Cfg.antt =====
-- The control-flow graph of three blocks, of which the second is reached by no jump.
use mathlib.Core.List.{Memᴰ}
use mathlib.Core.List.Memᴰ
use llvm_in_rust.Base.{
  zero, suc, inl, inr, sym, ap, ◌<◌, ◌≡◌, refl, ◌↔◌, [], ◌∷◌, none, some, true, false, arith,
}
use llvm_in_rust.Base.Maps.{some_injective}
use llvm_in_rust.Ir.Ids.{BlockId, InstrId}
use llvm_in_rust.Ir.Instr.{br, ret, InstrKind}
use llvm_in_rust.Ir.Instr.Operands.{successors}
use llvm_in_rust.Ir.Block.{BasicBlock}
use llvm_in_rust.Ir.Function.{Function, Instruction, instr}
use llvm_in_rust.Analysis.Cfg.{
  Cfg, push_at, filled, add_edges, targets, add_blocks, compute_cfg, is_reachable, mark_reachable,
  push_all, edges, entry_stack,
}
use llvm_in_rust.Analysis.Cfg.Loop.{tally}
use llvm_in_rust.Analysis.Cfg.Reach.{Edge}
use llvm_in_rust.Analysis.Cfg.Correct.{Jumps, FlowsTo, compute_cfg_edges, compute_cfg_reachable}
use llvm_in_rust.Analysis.Cfg.Total.{JumpsInRange, compute_cfg_total}
use llvm_in_rust.Examples.Ir.{dead_add}

abbrev plain : InstrKind → Instruction
plain k = record { name = none; ty = 0; kind = k }

abbrev ending : InstrId → BasicBlock
ending tid = record { name = "b"; body = []; terminator = some tid }

abbrev skipping : Function
skipping = record dead_add {
  blocks = ending 0 ∷ ending 0 ∷ ending 1 ∷ [];
  instructions = plain (br 2) ∷ plain (ret none) ∷ [];
}

abbrev skipping_cfg : Cfg
skipping_cfg = record {
  num_blocks = 3;
  succs = (2 ∷ []) ∷ (2 ∷ []) ∷ [] ∷ [];
  preds = [] ∷ [] ∷ (0 ∷ 1 ∷ []) ∷ [];
  reachable = true ∷ false ∷ true ∷ [];
  reachable_count = 2;
}

compute_cfg-skipping : compute_cfg skipping ≡ some skipping_cfg
unfolding compute_cfg add_blocks add_edges targets push_at filled mark_reachable push_all edges
    entry_stack instr successors
compute_cfg-skipping = refl

compute_cfg_edges_example :
    (Edge skipping_cfg.succs 1 2 ↔ Jumps skipping 1 2)
    × (Edge skipping_cfg.preds 2 1 ↔ Jumps skipping 1 2)
compute_cfg_edges_example =
    compute_cfg_edges skipping (omega arith) (omega arith) compute_cfg-skipping 1 2

compute_cfg_reachable_example :
    ((b : BlockId) → (is_reachable skipping_cfg b ≡ some true) ↔ FlowsTo skipping b)
    × (2 ≡ tally (true ∷ false ∷ true ∷ []))
compute_cfg_reachable_example =
    compute_cfg_reachable skipping (omega arith) (omega arith) compute_cfg-skipping

only_two : (b : BlockId) → Memᴰ b (2 ∷ []) → b < 3
only_two b m = elim (Memᴰ.cases_cons m) [
  | inl e ↦ rw e (omega arith)
  | inr nothing ↦ elim nothing [ ]
]

skipping-JumpsInRange : JumpsInRange skipping skipping.blocks
unfolding targets instr successors
skipping-JumpsInRange zero bb e = (2 ∷ [], ap (targets skipping) (sym (some_injective e)), only_two)
skipping-JumpsInRange (suc zero) bb e =
    (2 ∷ [], ap (targets skipping) (sym (some_injective e)), only_two)
skipping-JumpsInRange (suc (suc zero)) bb e =
    ([], ap (targets skipping) (sym (some_injective e)), λ b m. elim m [ ])
skipping-JumpsInRange (suc (suc (suc j))) bb e = absurd (cc e)

compute_cfg_total_example : (cfg : Cfg) × (compute_cfg skipping ≡ some cfg)
compute_cfg_total_example =
    compute_cfg_total skipping (omega arith) (omega arith) skipping-JumpsInRange
