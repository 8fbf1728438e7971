-- ===== src/Analysis/UseDef/Laws.antt =====
-- llvm-analysis/src/use_def.rs: a value is dead exactly when no instruction of a block has it among
-- its operands.
use mathlib.Core.List.{Memᴰ}
use mathlib.Core.List.Memᴰ
use native.Mathlib.Decide.{ℕ_discrete}
use llvm_in_rust.Base.{
  ℕ, ◌+◌, ◌≡◌, refl, sym, ◌∙◌, ◌↔◌, inl, inr, List, [], ◌∷◌, ◌++◌, map, none, some, Bool, true,
  false, not, ◌&&◌, arith, Bool-cases, Option-cases,
}
use llvm_in_rust.Base.Any.{any, eq_test, eq_test_iff, any_witness, any_intro}
use llvm_in_rust.Base.Machine.{as_u32}
use llvm_in_rust.Base.Maps.{get, insert, get-insert_self, get-insert_ne}
use llvm_in_rust.Ir.Ids.{InstrId, BlockId, ValueRef, ValueRef-discrete}
use llvm_in_rust.Ir.Instr.{InstrKind, phi}
use llvm_in_rust.Ir.Instr.Operands.{operands}
use llvm_in_rust.Ir.Block.{BasicBlock, instrs}
use llvm_in_rust.Ir.Function.{Function, Instruction, instr}
use llvm_in_rust.Analysis.UseDef.{
  Sites, UseDefInfo, sites_of, push_site, push_operands, record_incoming, record_kind,
  record_instrs, record_blocks, compute, no_sites, uses_of, is_dead,
}

-- Whether a table of uses has no site for a value.
abbrev unused : Sites → ValueRef → Bool
unused m v = no_sites (sites_of m v)

abbrev mentions : ValueRef → List ValueRef → Bool
mentions v = any (eq_test ValueRef-discrete v)

and-false : (b : Bool) → false ≡ b && false
and-false true = refl
and-false false = refl

and-true : (b : Bool) → b ≡ b && true
and-true true = refl
and-true false = refl

eq_test_ne : (u v : ValueRef) → ¬ (u ≡ v) → eq_test ValueRef-discrete u v ≡ false
eq_test_ne u v ne = elim (Bool-cases (eq_test ValueRef-discrete u v)) [
  | inl e ↦ absurd (ne ((eq_test_iff ValueRef-discrete u v).0 e))
  | inr e ↦ e
]

snoc-not-nil :
    (l : List (BlockId × InstrId)) (s : BlockId × InstrId) → no_sites (l ++ s ∷ []) ≡ false
unfolding no_sites
snoc-not-nil [] s = refl
snoc-not-nil (x ∷ l) s = refl

sites_of-push_site_self :
    (m : Sites) (v : ValueRef) (s : BlockId × InstrId)
    → sites_of (push_site m v s) v ≡ sites_of m v ++ s ∷ []
unfolding push_site
sites_of-push_site_self m v s =
    unfold sites_of in rw (get-insert_self ValueRef-discrete v (sites_of m v ++ s ∷ []) m)

sites_of-push_site_ne :
    (m : Sites) (u v : ValueRef) (s : BlockId × InstrId)
    → ¬ (u ≡ v)
    → sites_of (push_site m u s) v ≡ sites_of m v
unfolding push_site
sites_of-push_site_ne m u v s ne =
    unfold sites_of in rw (get-insert_ne ValueRef-discrete u v (sites_of m u ++ s ∷ []) m ne)

unused-push_site :
    (m : Sites) (u : ValueRef) (s : BlockId × InstrId) (v : ValueRef)
    → unused (push_site m u s) v ≡ unused m v && not (eq_test ValueRef-discrete v u)
unused-push_site m u s v = elim (ValueRef-discrete v u) [
  | yes e ↦
      rw
        (
          e,
          sites_of-push_site_self m u s,
          snoc-not-nil (sites_of m u) s,
          (eq_test_iff ValueRef-discrete u u).1 refl,
        )
        (and-false (unused m u))
  | no ne ↦
      rw (sites_of-push_site_ne m u v s (λ e. ne (sym e)), eq_test_ne v u ne)
        (and-true (unused m v))
]

unused-push_operands :
    (vs : List ValueRef) (m : Sites) (s : BlockId × InstrId) (v : ValueRef)
    → unused (push_operands m s vs) v ≡ unused m v && not (mentions v vs)
unfolding push_operands
unused-push_operands [] m s v = and-true (unused m v)
unused-push_operands (u ∷ us) m s v =
    ground (arith, unused-push_operands us (push_site m u s) s v, unused-push_site m u s v)

unused-record_incoming :
    (ps : List (ValueRef × BlockId)) (info : UseDefInfo) (bid : BlockId) (iid : InstrId)
    (v : ValueRef)
    → unused (record_incoming info bid iid ps).uses v
      ≡ unused info.uses v && not (mentions v (map (λ (p : ValueRef × BlockId). p.0) ps))
unfolding record_incoming
unused-record_incoming [] info bid iid v = and-true (unused info.uses v)
unused-record_incoming ((u, pred) ∷ ps) info bid iid v = ground (
  arith,
  unused-record_incoming ps
      (record info {
        uses = push_site info.uses u (bid, iid);
        phi_uses = push_site info.phi_uses u (pred, iid);
      })
      bid iid v,
  unused-push_site info.uses u (bid, iid) v,
)

-- Both branches of `compute` record the operands, a phi's incoming values included.
unused-record_kind :
    (k : InstrKind) (info : UseDefInfo) (bid : BlockId) (iid : InstrId) (v : ValueRef)
    → unused (record_kind info bid iid k).uses v
      ≡ unused info.uses v && not (mentions v (operands k))
unfolding record_kind
unused-record_kind (phi _ ps) info bid iid v =
    unfold operands in unused-record_incoming ps info bid iid v
unused-record_kind k info bid iid v = unused-push_operands (operands k) info.uses (bid, iid) v

-- The operands of the instruction at an index of the pool.
unfoldable pub operands_at : Function → InstrId → List ValueRef
operands_at f iid = elim (instr f iid) [ none ↦ [] | some i ↦ operands i.kind ]

pub operands_at_lem :
    (f : Function) (iid : InstrId) {i : Instruction}
    → instr f iid ≡ some i
    → operands_at f iid ≡ operands i.kind
unfolding operands_at
operands_at_lem f iid e = rw (e, operands_at)

-- Whether one of the listed instructions has `v` among its operands.
abbrev pub any_mentions : Function → ValueRef → List InstrId → Bool
any_mentions f v = any (λ iid. mentions v (operands_at f iid))

unused-record_instrs :
    (f : Function) (iids : List InstrId) (info info' : UseDefInfo) (bid : BlockId) (v : ValueRef)
    → record_instrs f info bid iids ≡ some info'
    → unused info'.uses v ≡ unused info.uses v && not (any_mentions f v iids)
unfolding record_instrs operands_at
unused-record_instrs f [] info info' bid v h = ground (arith, and-true (unused info.uses v))
unused-record_instrs f (iid ∷ iids) info info' bid v h = elim (Option-cases (instr f iid)) [
  | inl e ↦ absurd (cc (rw (e, record_instrs) at h))
  | inr (i, e) ↦
      let info1 = record info { instr_block = insert ℕ_discrete iid bid info.instr_block } in
      ground (
        arith,
        unused-record_kind i.kind info1 bid iid v,
        unused-record_instrs f iids (record_kind info1 bid iid i.kind) info' bid v
            (rw (e, record_instrs) at h),
      )
]

-- Whether an instruction of one of the blocks has `v` among its operands.
abbrev pub block_mentions : Function → ValueRef → List BasicBlock → Bool
block_mentions f v = any (λ bb. any_mentions f v (instrs bb))

unused-record_blocks :
    (f : Function) (bbs : List BasicBlock) (info info' : UseDefInfo) (bi : ℕ) (v : ValueRef)
    → record_blocks f info bi bbs ≡ some info'
    → unused info'.uses v ≡ unused info.uses v && not (block_mentions f v bbs)
unfolding record_blocks
unused-record_blocks f [] info info' bi v h = ground (arith, and-true (unused info.uses v))
unused-record_blocks f (bb ∷ bbs) info info' bi v h =
    elim (Option-cases (record_instrs f info (as_u32 bi) (instrs bb))) [
      | inl e ↦ absurd (cc (rw (e, record_blocks) at h))
      | inr (mid, e) ↦ ground (
        arith,
        unused-record_instrs f (instrs bb) info mid (as_u32 bi) v e,
        unused-record_blocks f bbs mid info' (bi + 1) v (rw (e, record_blocks) at h),
      )
    ]

pub is_dead_lem :
    (f : Function) (info : UseDefInfo) (v : ValueRef)
    → compute f ≡ some info
    → is_dead info v ≡ not (block_mentions f v f.blocks)
unfolding compute is_dead uses_of
is_dead_lem f info v h =
    unused-record_blocks f f.blocks (record { instr_block = []; uses = []; phi_uses = [] }) info 0 v
      h
    ∙ unfold sites_of get no_sites in refl

-- An instruction of a block that has `v` as an operand.
pub record IsUser (f : Function) (v : ValueRef) (bb : BasicBlock) (iid : InstrId) (i : Instruction)
    : Type 0 where
  pub in_blocks : Memᴰ bb f.blocks
  pub in_block : Memᴰ iid (instrs bb)
  pub at : instr f iid ≡ some i
  pub operand : Memᴰ v (operands i.kind)

mentions-mem : (v : ValueRef) (vs : List ValueRef) → mentions v vs ≡ true → Memᴰ v vs
mentions-mem v vs h =
    let (u, m, e) = any_witness (eq_test ValueRef-discrete v) vs h in
    Memᴰ.cast ((eq_test_iff ValueRef-discrete v u).0 e) m

operands_at-user :
    (f : Function) (v : ValueRef) (iid : InstrId)
    → mentions v (operands_at f iid) ≡ true
    → (i : Instruction) × (instr f iid ≡ some i) × Memᴰ v (operands i.kind)
unfolding operands_at
operands_at-user f v iid h = elim (Option-cases (instr f iid)) [
  | inl e ↦ absurd (cc (rw (e, operands_at) at h))
  | inr (i, e) ↦ (i, e, mentions-mem v (operands i.kind) (rw (e, operands_at) at h))
]

pub block_mentions_of_user :
    (f : Function) (v : ValueRef) {bb : BasicBlock} {iid : InstrId} {i : Instruction}
    → IsUser f v bb iid i
    → block_mentions f v f.blocks ≡ true
block_mentions_of_user f v {bb} {iid} {i} u =
    any_intro (λ b. any_mentions f v (instrs b)) f.blocks u.in_blocks
      (any_intro (λ j. mentions v (operands_at f j)) (instrs bb) u.in_block
        (rw (operands_at_lem f iid u.at) (
          any_intro (eq_test ValueRef-discrete v) (operands i.kind) u.operand
            ((eq_test_iff ValueRef-discrete v v).1 refl))))

-- A value is not dead exactly when an instruction of a block has it as an operand, a phi's incoming
-- values included.
pub is_dead_iff :
    (f : Function) (info : UseDefInfo) (v : ValueRef)
    → compute f ≡ some info
    → (is_dead info v ≡ false)
      ↔ ((bb : BasicBlock) × (iid : InstrId) × (i : Instruction) × IsUser f v bb iid i)
is_dead_iff f info v h = (
  λ alive.
      let (bb, mb, hb) =
        any_witness (λ b. any_mentions f v (instrs b)) f.blocks
          (ground (arith, is_dead_lem f info v h)) in
      let (iid, mi, hi) = any_witness (λ j. mentions v (operands_at f j)) (instrs bb) hb in
      let (i, at, op) = operands_at-user f v iid hi in
      (bb, iid, i, record { in_blocks = mb; in_block = mi; at = at; operand = op }),
  λ (bb, iid, i, u). ground (arith, is_dead_lem f info v h, block_mentions_of_user f v u),
)
