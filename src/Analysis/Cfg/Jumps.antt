-- ===== src/Analysis/Cfg/Jumps.antt =====
-- llvm-analysis/src/cfg.rs: the edges of the graph are the jumps of the function.
use mathlib.Core.List.{Memᴰ}
use mathlib.Core.List.Memᴰ
use mathlib.Core.Path.{subst}
use llvm_in_rust.Base.{
  ℕ, zero, suc, ◌+◌, ◌≤◌, ◌^◌, ◌≡◌, refl, sym, ap, ◌∙◌, ◌⊎◌, ◌↔◌, inl, inr, List, [], ◌∷◌, some,
  arith, get_elem?, Option-cases,
}
use llvm_in_rust.Base.Maps.{some_injective}
use llvm_in_rust.Base.Machine.{as_u32}
use llvm_in_rust.Ir.Ids.{BlockId}
use llvm_in_rust.Ir.Block.{BasicBlock}
use llvm_in_rust.Ir.Function.{Function}
use llvm_in_rust.Analysis.Cfg.{push_at, add_edges, targets, add_blocks}
use llvm_in_rust.Analysis.Cfg.Reach.{Edge}
use llvm_in_rust.Analysis.Cfg.Edges.{
  IsMirrored, add_edge-IsMirrored, Edge-of_push_at, push_at_new, push_at_old,
}

-- An edge of the tables after the edges of one terminator.
add_edges_lem :
    {n : ℕ} (bi : ℕ) (dsts : List BlockId) (succs preds : List (List BlockId))
    {succs' preds' : List (List BlockId)}
    → add_edges bi dsts succs preds ≡ some (succs', preds')
    → n ≤ 2 ^ 32
    → IsMirrored n succs preds
    → IsMirrored n succs' preds'
      × ((a b : BlockId) → Edge succs' a b ↔ (Edge succs a b ⊎ ((a ≡ bi) × Memᴰ b dsts)))
unfolding add_edges
add_edges_lem {n} bi [] succs preds h room g =
    subst
      (λ t.
        IsMirrored n t.0 t.1
        × ((a b : BlockId) → Edge t.0 a b ↔ (Edge succs a b ⊎ ((a ≡ bi) × Memᴰ b []))))
      (some_injective h) (g, λ a b. (inl, drop a b))
  where
    drop : (a b : BlockId) → Edge succs a b ⊎ ((a ≡ bi) × Memᴰ b []) → Edge succs a b
    drop a b (inl old) = old
    drop a b (inr (_, m)) = elim m [ ]
add_edges_lem {n} bi (dst ∷ dsts) succs preds {succs'} {preds'} h room g =
    elim (Option-cases (push_at succs bi dst)) [
      | inl e ↦ absurd (cc (rw (e, add_edges) at h))
      | inr (s, es) ↦ elim (Option-cases (push_at preds dst (as_u32 bi))) [
        | inl e ↦ absurd (cc (rw (es, e, add_edges) at h))
        | inr (p, ep) ↦
            let (g', more) =
              add_edges_lem bi dsts s p (rw (es, ep, add_edges) at h) room
                (add_edge-IsMirrored bi dst es ep room g) in
            (g', λ a b. (there s es a b (more a b).0, back s es a b (more a b).1))
      ]
    ]
  where
    there :
        (s : List (List BlockId)) (es : push_at succs bi dst ≡ some s) (a b : BlockId)
        → (Edge succs' a b → Edge s a b ⊎ ((a ≡ bi) × Memᴰ b dsts))
        → Edge succs' a b
        → Edge succs a b ⊎ ((a ≡ bi) × Memᴰ b (dst ∷ dsts))
    there s es a b f e = elim (f e) [
      | inr (same, m) ↦ inr (same, Memᴰ.tail m)
      | inl x ↦ elim (Edge-of_push_at succs bi dst es a b x) [
        | inl old ↦ inl old
        | inr (first, last) ↦ inr (first, Memᴰ.head last)
      ]
    ]

    back :
        (s : List (List BlockId)) (es : push_at succs bi dst ≡ some s) (a b : BlockId)
        → (Edge s a b ⊎ ((a ≡ bi) × Memᴰ b dsts) → Edge succs' a b)
        → Edge succs a b ⊎ ((a ≡ bi) × Memᴰ b (dst ∷ dsts))
        → Edge succs' a b
    back s es a b f (inl old) = f (inl (push_at_old succs bi dst es a b old))
    back s es a b f (inr (first, m)) = elim (Memᴰ.cases_cons m) [
      | inl last ↦ f (inl (rw (first, last) (push_at_new succs bi dst es)))
      | inr later ↦ f (inr (first, later))
    ]

-- A block of the list, counted from `bi`, ends in a jump to another.
abbrev pub JumpsFrom : Function → ℕ → List BasicBlock → BlockId → BlockId → Type 0
JumpsFrom f bi bbs a b =
    (j : ℕ) × (bb : BasicBlock) × (dsts : List BlockId) × (a ≡ bi + j)
    × (get_elem? bbs j ≡ some bb)
    × (targets f bb ≡ some dsts)
    × Memᴰ b dsts

jumps_cons :
    (f : Function) (bi : ℕ) (bb : BasicBlock) (bbs : List BasicBlock) {dsts : List BlockId}
    (a b : BlockId)
    → targets f bb ≡ some dsts
    → JumpsFrom f bi (bb ∷ bbs) a b ↔ (((a ≡ bi) × Memᴰ b dsts) ⊎ JumpsFrom f (bi + 1) bbs a b)
jumps_cons f bi bb bbs {dsts} a b e = (there, back)
  where
    there : JumpsFrom f bi (bb ∷ bbs) a b → ((a ≡ bi) × Memᴰ b dsts) ⊎ JumpsFrom f (bi + 1) bbs a b
    there (zero, c, ds, at, here, ts, m) = inl (
      omega arith,
      subst (λ t. Memᴰ b t)
          (some_injective (sym ts ∙ ap (targets f) (sym (some_injective here)) ∙ e)) m,
    )
    there (suc j, c, ds, at, here, ts, m) = inr (j, c, ds, omega arith, here, ts, m)

    back : ((a ≡ bi) × Memᴰ b dsts) ⊎ JumpsFrom f (bi + 1) bbs a b → JumpsFrom f bi (bb ∷ bbs) a b
    back (inl (at, m)) = (zero, bb, dsts, omega arith, refl, e, m)
    back (inr (j, c, ds, at, here, ts, m)) = (suc j, c, ds, omega arith, here, ts, m)

pub add_blocks_lem :
    {n : ℕ} (f : Function) (bi : ℕ) (bbs : List BasicBlock) (succs preds : List (List BlockId))
    {succs' preds' : List (List BlockId)}
    → add_blocks f bi bbs succs preds ≡ some (succs', preds')
    → n ≤ 2 ^ 32
    → IsMirrored n succs preds
    → IsMirrored n succs' preds'
      × ((a b : BlockId) → Edge succs' a b ↔ (Edge succs a b ⊎ JumpsFrom f bi bbs a b))
unfolding add_blocks
add_blocks_lem {n} f bi [] succs preds h room g =
    subst
      (λ t.
        IsMirrored n t.0 t.1
        × ((a b : BlockId) → Edge t.0 a b ↔ (Edge succs a b ⊎ JumpsFrom f bi [] a b)))
      (some_injective h) (g, λ a b. (inl, drop a b))
  where
    drop : (a b : BlockId) → Edge succs a b ⊎ JumpsFrom f bi [] a b → Edge succs a b
    drop a b (inl old) = old
    drop a b (inr (j, bb, ds, at, here, _, _)) = absurd (cc here)
add_blocks_lem {n} f bi (bb ∷ bbs) succs preds {succs'} {preds'} h room g =
    elim (Option-cases (targets f bb)) [
      | inl e ↦ absurd (cc (rw (e, add_blocks) at h))
      | inr (dsts, et) ↦ elim (Option-cases (add_edges bi dsts succs preds)) [
        | inl e ↦ absurd (cc (rw (et, e, add_blocks) at h))
        | inr ((s, p), ee) ↦
            let (g1, near) = add_edges_lem bi dsts succs preds ee room g in
            let (g2, far) =
              add_blocks_lem f (bi + 1) bbs s p (rw (et, ee, add_blocks) at h) room g1 in
            (g2, λ a b. combine (near a b) (far a b) (jumps_cons f bi bb bbs a b et))
      ]
    ]
  where
    combine : {E E1 E2 N F J : Type 0} → E1 ↔ (E ⊎ N) → E2 ↔ (E1 ⊎ F) → J ↔ (N ⊎ F) → E2 ↔ (E ⊎ J)
    combine near far jump = (
      λ x. elim (far.0 x) [
        | inl y ↦ elim (near.0 y) [ inl z ↦ inl z | inr z ↦ inr (jump.1 (inl z)) ]
        | inr y ↦ inr (jump.1 (inr y))
      ],
      λ x. elim x [
        | inl y ↦ far.1 (inl (near.1 (inl y)))
        | inr y ↦ elim (jump.0 y) [ inl z ↦ far.1 (inl (near.1 (inr z))) | inr z ↦ far.1 (inr z) ]
      ],
    )
