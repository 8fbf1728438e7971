-- ===== src/Analysis/Cfg/Total.antt =====
-- llvm-analysis/src/cfg.rs: the graph of a function whose terminators are in range is computed.
use mathlib.Core.List.{Memᴰ}
use llvm_in_rust.Base.{
  ℕ, suc, ◌+◌, ◌-◌, ◌<◌, ◌≤◌, ◌^◌, ◌≡◌, refl, sym, ◌∙◌, List, [], ◌∷◌, ◌++◌, some, arith, length,
  length-set, get_elem?, get_elem?_of_lt, set,
}
use llvm_in_rust.Base.Machine.{as_u32}
use llvm_in_rust.Ir.Ids.{BlockId}
use llvm_in_rust.Ir.Block.{BasicBlock}
use llvm_in_rust.Ir.Function.{Function}
use llvm_in_rust.Analysis.Cfg.{Cfg, push_at, filled, add_edges, targets, add_blocks, compute_cfg}
use llvm_in_rust.Analysis.Cfg.Loop.{length-filled}
use llvm_in_rust.Analysis.Cfg.Correct.{IsGraph-of_tables}

push_at_total :
    (v : List (List BlockId)) (i : ℕ) (x : BlockId)
    → i < length v
    → (w : List (List BlockId)) × (push_at v i x ≡ some w) × (length w ≡ length v)
unfolding push_at
push_at_total v i x h =
    let (xs, e) = get_elem?_of_lt v i h in
    (set v i (xs ++ x ∷ []), rw (e, push_at) refl, length-set v i (xs ++ x ∷ []))

add_edges_total :
    (n bi : ℕ) (dsts : List BlockId) (succs preds : List (List BlockId))
    → length succs ≡ n
    → length preds ≡ n
    → bi < n
    → ((b : BlockId) → Memᴰ b dsts → b < n)
    → (s : List (List BlockId)) × (p : List (List BlockId)) × (add_edges bi dsts succs preds
        ≡ some (s, p))
      × (length s ≡ n)
      × (length p ≡ n)
unfolding add_edges
add_edges_total n bi [] succs preds hs hp lt fits = (succs, preds, refl, hs, hp)
add_edges_total n bi (dst ∷ dsts) succs preds hs hp lt fits =
    let (s, es, ls) = push_at_total succs bi dst (rw hs lt) in
    let (p, ep, lp) = push_at_total preds dst (as_u32 bi) (rw hp (fits dst (Memᴰ.head refl))) in
    rw (es, ep, add_edges)
      (add_edges_total n bi dsts s p (ls ∙ hs) (lp ∙ hp) lt (λ b m. fits b (Memᴰ.tail m)))

-- The terminators of the blocks are in the pool and jump to blocks.
abbrev pub JumpsInRange : Function → List BasicBlock → Type 0
JumpsInRange f bbs =
    (j : ℕ) (bb : BasicBlock)
    → get_elem? bbs j ≡ some bb
    → (dsts : List BlockId) × (targets f bb ≡ some dsts)
      × ((b : BlockId) → Memᴰ b dsts → b < length f.blocks)

add_blocks_total :
    (f : Function) (bi : ℕ) (bbs : List BasicBlock) (succs preds : List (List BlockId))
    → length succs ≡ length f.blocks
    → length preds ≡ length f.blocks
    → bi + length bbs ≤ length f.blocks
    → JumpsInRange f bbs
    → (s : List (List BlockId)) × (p : List (List BlockId)) × (add_blocks f bi bbs succs preds
        ≡ some (s, p))
unfolding add_blocks
add_blocks_total f bi [] succs preds hs hp fits good = (succs, preds, refl)
add_blocks_total f bi (bb ∷ bbs) succs preds hs hp fits good =
    let (dsts, et, inside) = good 0 bb refl in
    let (s, p, ee, ls, lp) =
      add_edges_total (length f.blocks) bi dsts succs preds hs hp (omega arith) inside in
    rw (et, ee, add_blocks)
      (add_blocks_total f (bi + 1) bbs s p ls lp (omega arith) (λ j c e. good (suc j) c e))

-- The graph of a function with 1 to 2^32 blocks is computed when each block's terminator is in the
-- pool and jumps to blocks of the function: the loop that marks blocks ends.
pub compute_cfg_total :
    (f : Function)
    → 0 < length f.blocks
    → length f.blocks ≤ 2 ^ 32
    → JumpsInRange f f.blocks
    → (cfg : Cfg) × (compute_cfg f ≡ some cfg)
compute_cfg_total f some_block room good =
    let n = length f.blocks - 1 in
    let count : length f.blocks ≡ suc n = omega arith in
    let (s, p, e) =
      add_blocks_total f 0 f.blocks (filled (suc n) []) (filled (suc n) [])
        (length-filled (suc n) [] ∙ sym count) (length-filled (suc n) [] ∙ sym count) (omega arith)
        good in
    let (cfg, run, _) = IsGraph-of_tables f {succs = s} {preds = p} count (omega arith) e in
    (cfg, run)
