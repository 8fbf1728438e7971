-- ===== src/Analysis/Cfg/Correct.antt =====
-- llvm-analysis/src/cfg.rs: the graph of a function.
use mathlib.Core.List.{Memᴰ}
use mathlib.Core.List.Memᴰ
use mathlib.Core.Path.{subst}
use llvm_in_rust.Base.{
  ℕ, suc, ◌+◌, ◌-◌, ◌<◌, ◌≤◌, ◌^◌, ◌≡◌, refl, sym, ap, ◌∙◌, ◌↔◌, inl, inr, List, [], ◌∷◌, some,
  Bool, true, false, arith, length, Option-cases,
}
use llvm_in_rust.Base.Maps.{some_injective}
use llvm_in_rust.Ir.Ids.{BlockId}
use llvm_in_rust.Ir.Function.{Function}
use llvm_in_rust.Analysis.Cfg.{
  Cfg, filled, add_blocks, compute_cfg, is_reachable, mark_reachable, edges, entry_stack,
}
use llvm_in_rust.Analysis.Cfg.Loop.{
  get_elem?-filled, length-filled, tally, tally-filled, weight, weight-filled,
}
use llvm_in_rust.Analysis.Cfg.Reach.{
  Edge, Reachable, entry, step, IsMarking, Marked-iff, mark_reachable_lem,
}
use llvm_in_rust.Analysis.Cfg.Edges.{IsMirrored}
use llvm_in_rust.Analysis.Cfg.Jumps.{JumpsFrom, add_blocks_lem}

-- A block of the function ends in a jump to another.
abbrev pub Jumps : Function → BlockId → BlockId → Type 0
Jumps f a b = JumpsFrom f 0 f.blocks a b

-- The blocks that jumps lead to from the entry.
pub data FlowsTo (f : Function) : BlockId → Type 0 where
  begin : FlowsTo f 0
  jump : {a b : BlockId} → FlowsTo f a → Jumps f a b → FlowsTo f b

no_edges : (n : ℕ) (a b : BlockId) → Edge (filled n []) a b → ⊥
no_edges n a b (ss, here, m) = elim (rw (get_elem?-filled n [] a here) at m) [ ]

filled-IsMirrored : (n : ℕ) → IsMirrored n (filled n []) (filled n [])
filled-IsMirrored n = record {
  succs_size = length-filled n [];
  preds_size = length-filled n [];
  bounded = λ a b e. absurd (no_edges n a b e);
  mirror = λ a b. (λ e. absurd (no_edges n a b e), λ e. absurd (no_edges n b a e));
}

-- What `compute` gives.
pub record IsGraph (f : Function) (cfg : Cfg) : Type 0 where
  pub mirrored : IsMirrored (length f.blocks) cfg.succs cfg.preds
  pub jumps : (a b : BlockId) → Edge cfg.succs a b ↔ Jumps f a b
  pub marks : IsMarking cfg.succs cfg.reachable cfg.reachable_count []

-- The loop starts with nothing marked and the entry on the stack.
start-IsMarking :
    (n : ℕ) (succs : List (List BlockId))
    → length succs ≡ suc n
    → IsMarking succs (filled (suc n) false) 0 (0 ∷ [])
start-IsMarking n succs size = record {
  size = length-filled (suc n) false ∙ sym size;
  counted = sym (tally-filled (suc n));
  sound = λ b h. absurd (cc (get_elem?-filled (suc n) false b h));
  pending = λ b m. elim (Memᴰ.cases_cons m) [ inl e ↦ rw e entry | inr nothing ↦ elim nothing [ ] ];
  closed = λ a b h e. absurd (cc (get_elem?-filled (suc n) false a h));
  start = inr (Memᴰ.head refl);
}

reachable_bounded :
    {n : ℕ} {succs preds : List (List BlockId)}
    → IsMirrored n succs preds
    → 0 < n
    → (b : BlockId) → Reachable succs b
    → b < length succs
reachable_bounded g some_block b entry = rw g.succs_size some_block
reachable_bounded g some_block b (step {a} r e) = rw g.succs_size (g.bounded a b e)

abbrev graph : ℕ → List (List BlockId) → List (List BlockId) → List Bool → ℕ → Cfg
graph n succs preds marks total = record {
  num_blocks = n;
  succs = succs;
  preds = preds;
  reachable = marks;
  reachable_count = total;
}

compute_cfg_run :
    (f : Function) {n : ℕ} {succs preds : List (List BlockId)} {marks : List Bool} {total : ℕ}
    → length f.blocks ≡ suc n
    → add_blocks f 0 f.blocks (filled (suc n) []) (filled (suc n) []) ≡ some (succs, preds)
    → mark_reachable (1 + edges succs) succs (filled (suc n) false) 0 (0 ∷ []) ≡ some (marks, total)
    → compute_cfg f ≡ some (graph (suc n) succs preds marks total)
unfolding compute_cfg entry_stack
compute_cfg_run f {n} {succs} {preds} {marks} {total} count tables marking =
    subst
      (λ (m : ℕ).
        add_blocks f 0 f.blocks (filled m []) (filled m []) ≡ some (succs, preds)
        → mark_reachable (1 + edges succs) succs (filled m false) 0 (entry_stack m)
          ≡ some (marks, total)
        → compute_cfg f ≡ some (graph m succs preds marks total))
      count (λ t k. rw (t, k, compute_cfg) refl) tables marking

-- Once the tables are filled, the loop ends within its fuel.
pub IsGraph-of_tables :
    (f : Function) {n : ℕ} {succs preds : List (List BlockId)}
    → length f.blocks ≡ suc n
    → suc n ≤ 2 ^ 32
    → add_blocks f 0 f.blocks (filled (suc n) []) (filled (suc n) []) ≡ some (succs, preds)
    → (cfg : Cfg) × (compute_cfg f ≡ some cfg) × IsGraph f cfg
IsGraph-of_tables f {n} {succs} {preds} count room h =
    let (g, joined) =
      add_blocks_lem f 0 f.blocks (filled (suc n) []) (filled (suc n) []) h room
        (filled-IsMirrored (suc n)) in
    let (marks, total, run, marked) =
      mark_reachable_lem (reachable_bounded g (omega arith)) (1 + edges succs)
        (filled (suc n) false) 0 (0 ∷ []) (enough g.succs_size)
        (start-IsMarking n succs g.succs_size) in
    (
      graph (suc n) succs preds marks total,
      compute_cfg_run f count h run,
      record {
        mirrored = rw count g;
        jumps = λ a b. (
          λ e. elim ((joined a b).0 e) [ inl old ↦ absurd (no_edges (suc n) a b old) | inr j ↦ j ],
          λ j. (joined a b).1 (inr j),
        );
        marks = marked;
      },
    )
  where
    enough : length succs ≡ suc n → 1 + weight succs (filled (suc n) false) ≤ 1 + edges succs
    enough size =
        let e = ap (λ (t : ℕ). weight succs (filled t false)) (sym size) ∙ weight-filled succs in
        omega arith

compute_cfg-IsGraph :
    (f : Function) {cfg : Cfg}
    → 0 < length f.blocks
    → length f.blocks ≤ 2 ^ 32
    → compute_cfg f ≡ some cfg
    → IsGraph f cfg
unfolding compute_cfg
compute_cfg-IsGraph f {cfg} some_block room h =
    elim (Option-cases (add_blocks f 0 f.blocks (filled n []) (filled n []))) [
      | inl e ↦ absurd (cc (rw (e, compute_cfg) at h))
      | inr ((succs, preds), e) ↦
          let (cfg', run, good) =
            IsGraph-of_tables f {succs = succs} {preds = preds} count (rw (← count) room) (
              subst
                (λ (t : ℕ).
                  add_blocks f 0 f.blocks (filled t []) (filled t []) ≡ some (succs, preds))
                count e) in
          subst (IsGraph f) (some_injective (sym run ∙ h)) good
    ]
  where
    n : ℕ
    n = length f.blocks

    count : length f.blocks ≡ suc (length f.blocks - 1)
    count = omega arith

-- In the graph of a function with 1 to 2^32 blocks, a block is among the successors of another, and
-- this one among the predecessors of the first, exactly when its terminator jumps to it.
pub compute_cfg_edges :
    (f : Function) {cfg : Cfg}
    → 0 < length f.blocks
    → length f.blocks ≤ 2 ^ 32
    → compute_cfg f ≡ some cfg
    → (a b : BlockId) → (Edge cfg.succs a b ↔ Jumps f a b) × (Edge cfg.preds b a ↔ Jumps f a b)
compute_cfg_edges f some_block room h a b =
    let g = compute_cfg-IsGraph f some_block room h in
    let e = g.jumps a b in
    let m = g.mirrored.mirror a b in (e, (λ x. e.0 (m.1 x), λ j. m.0 (e.1 j)))

-- In the graph of a function with 1 to 2^32 blocks, the blocks marked as reachable are exactly those
-- that a path of jumps leads to from the entry, and their number is the count that is kept.
pub compute_cfg_reachable :
    (f : Function) {cfg : Cfg}
    → 0 < length f.blocks
    → length f.blocks ≤ 2 ^ 32
    → compute_cfg f ≡ some cfg
    → ((b : BlockId) → (is_reachable cfg b ≡ some true) ↔ FlowsTo f b)
      × (cfg.reachable_count ≡ tally cfg.reachable)
unfolding is_reachable
compute_cfg_reachable f {cfg} some_block room h =
    let g = compute_cfg-IsGraph f some_block room h in
    (
      λ b. let e = Marked-iff g.marks b in (λ x. flows g b (e.0 x), λ x. e.1 (reach g b x)),
      g.marks.counted,
    )
  where
    flows : IsGraph f cfg → (b : BlockId) → Reachable cfg.succs b → FlowsTo f b
    flows g b entry = begin
    flows g b (step {a} r e) = jump (flows g a r) ((g.jumps a b).0 e)

    reach : IsGraph f cfg → (b : BlockId) → FlowsTo f b → Reachable cfg.succs b
    reach g b begin = entry
    reach g b (jump {a} r e) = step (reach g a r) ((g.jumps a b).1 e)
