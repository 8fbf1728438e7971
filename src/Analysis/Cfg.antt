-- ===== src/Analysis/Cfg.antt =====
-- llvm-analysis/src/cfg.rs: the control-flow graph. An index out of range, where the source panics,
-- is `none`.
pub mod Loop
pub mod Reach
pub mod Edges
pub mod Jumps
pub mod Correct
pub mod Total
use Prim.Native.Nat.{ℕ, zero, suc, ◌+◌}
use mathlib.Core.Bool.{Bool, true, false}
use mathlib.Core.List.{List, [], ◌∷◌, ◌++◌, map}
use mathlib.Core.Option.{Option, none, some}
use llvm_in_rust.Base.{length, get_elem?, set}
use llvm_in_rust.Base.Machine.{as_u32}
use llvm_in_rust.Ir.Ids.{BlockId, InstrId}
use llvm_in_rust.Ir.Instr.Operands.{successors}
use llvm_in_rust.Ir.Block.{BasicBlock}
use llvm_in_rust.Ir.Function.{Function, instr, num_blocks}

pub record Cfg : Type 0 where
  pub num_blocks : ℕ
  pub succs : List (List BlockId)
  pub preds : List (List BlockId)
  pub reachable : List Bool
  pub reachable_count : ℕ

-- `v[i].push(x)`
unfoldable pub push_at : List (List BlockId) → ℕ → BlockId → Option (List (List BlockId))
push_at v i x = elim (get_elem? v i) [ none ↦ none | some xs ↦ some (set v i (xs ++ x ∷ [])) ]

-- `vec![x; n]`
unfoldable pub filled {ℓ} : {A : Type ℓ} → ℕ → A → List A
filled zero x = []
filled (suc n) x = x ∷ filled n x

-- The edges of one terminator.
unfoldable pub add_edges :
    ℕ
    → List BlockId
    → List (List BlockId)
    → List (List BlockId)
    → Option (List (List BlockId) × List (List BlockId))
add_edges bi [] succs preds = some (succs, preds)
add_edges bi (dst ∷ dsts) succs preds = elim (push_at succs bi dst) [
  | none ↦ none
  | some succs' ↦ elim (push_at preds dst (as_u32 bi)) [
    | none ↦ none
    | some preds' ↦ add_edges bi dsts succs' preds'
  ]
]

-- The successors of a block's terminator.
unfoldable pub targets : Function → BasicBlock → Option (List BlockId)
targets f bb = elim bb.terminator [
  | none ↦ some []
  | some tid ↦ elim (instr f tid) [ none ↦ none | some i ↦ some (successors i.kind) ]
]

unfoldable pub add_blocks :
    Function
    → ℕ
    → List BasicBlock
    → List (List BlockId)
    → List (List BlockId)
    → Option (List (List BlockId) × List (List BlockId))
add_blocks f bi [] succs preds = some (succs, preds)
add_blocks f bi (bb ∷ bbs) succs preds = elim (targets f bb) [
  | none ↦ none
  | some dsts ↦ elim (add_edges bi dsts succs preds) [
    | none ↦ none
    | some (succs', preds') ↦ add_blocks f (bi + 1) bbs succs' preds'
  ]
]

-- Pushing one after the other: the last one is on top.
unfoldable pub push_all : List BlockId → List BlockId → List BlockId
push_all [] stack = stack
push_all (s ∷ ss) stack = push_all ss (s ∷ stack)

-- The loop that marks what the stack leads to, on fuel.
unfoldable pub mark_reachable :
    ℕ → List (List BlockId) → List Bool → ℕ → List BlockId → Option (List Bool × ℕ)
mark_reachable fuel succs reachable count [] = some (reachable, count)
mark_reachable zero succs reachable count (b ∷ stack) = none
mark_reachable (suc fuel) succs reachable count (b ∷ stack) = elim (get_elem? reachable b) [
  | none ↦ none
  | some true ↦ mark_reachable fuel succs reachable count stack
  | some false ↦ elim (get_elem? succs b) [
    | none ↦ none
    | some ss ↦ mark_reachable fuel succs (set reachable b true) (count + 1) (push_all ss stack)
  ]
]

-- One more than the number of edges: every block on the stack is the entry or the end of an edge.
unfoldable pub edges : List (List BlockId) → ℕ
edges [] = 0
edges (ss ∷ more) = length ss + edges more

-- A function without blocks has no entry.
unfoldable pub entry_stack : ℕ → List BlockId
entry_stack zero = []
entry_stack (suc n) = 0 ∷ []

-- `Cfg::compute`.
unfoldable pub compute_cfg : Function → Option Cfg
compute_cfg f =
    let n = length f.blocks in
    elim (add_blocks f 0 f.blocks (filled n []) (filled n [])) [
      | none ↦ none
      | some (succs, preds) ↦
          elim (mark_reachable (1 + edges succs) succs (filled n false) 0 (entry_stack n)) [
            | none ↦ none
            | some (reachable, count) ↦ some (record {
              num_blocks = n;
              succs = succs;
              preds = preds;
              reachable = reachable;
              reachable_count = count;
            })
          ]
    ]

unfoldable pub is_reachable : Cfg → BlockId → Option Bool
is_reachable cfg bid = get_elem? cfg.reachable bid

unfoldable pub predecessors : Cfg → BlockId → Option (List BlockId)
predecessors cfg bid = get_elem? cfg.preds bid
