-- ===== src/Transforms/Dce/Laws.antt =====
-- llvm-transforms/src/dce.rs: what the pass deletes, and that nothing kept uses what is gone.
use mathlib.Core.Path.{ap₂}
use mathlib.Core.List.{Memᴰ}
use mathlib.Core.List.Memᴰ
use native.Mathlib.Decide.{ℕ_discrete}
use llvm_in_rust.Base.{
  ℕ, zero, suc, ◌+◌, ◌<◌, ◌^◌, ◌≡◌, refl, sym, ap, ◌∙◌, ◌↔◌, inl, inr, List, [], ◌∷◌, map, some,
  Bool, true, not, arith, Bool-cases, Option-cases, length, get_elem?, retain,
}
use llvm_in_rust.Base.Any.{
  eq_test, eq_test_iff, any_witness, any_intro, mem_of_retain, retain_of_mem,
}
use llvm_in_rust.Ir.Ids.{InstrId, BlockId, instruction}
use llvm_in_rust.Ir.Block.{BasicBlock}
use llvm_in_rust.Ir.Function.{Function, Instruction, instr}
use llvm_in_rust.Analysis.UseDef.{UseDefInfo, compute, is_dead}
use llvm_in_rust.Analysis.UseDef.Laws.{IsUser, is_dead_iff}
use llvm_in_rust.Transforms.Dce.{is_dce_safe, dead_from, contains, retain_live, sweep, run_dce}
use llvm_in_rust.Transforms.Dce.Dead.{dead_from_sound, dead_from_complete}

-- An instruction that the pass deletes: it may be, and no instruction of a block has it as an operand.
pub record IsRemovable (f : Function) (iid : InstrId) : Type 0 where
  pub ins : Instruction
  pub at : instr f iid ≡ some ins
  pub safe : is_dce_safe ins.kind ≡ true
  pub unused :
      (bb : BasicBlock) (j : InstrId) (u : Instruction) → ¬ IsUser f (instruction iid) bb j u

is_dead_of_unused :
    (f : Function) (info : UseDefInfo) (iid : InstrId)
    → compute f ≡ some info
    → IsRemovable f iid
    → is_dead info (instruction iid) ≡ true
is_dead_of_unused f info iid e r = elim (Bool-cases (is_dead info (instruction iid))) [
  | inl dead ↦ dead
  | inr alive ↦
      let (bb, j, u, user) = (is_dead_iff f info (instruction iid) e).0 alive in
      absurd (r.unused bb j u user)
]

some_injective : {A : Type 0} {a b : A} → some a ≡ some b → a ≡ b
some_injective h = cc

retain_all : (xs : List InstrId) → retain (λ _. true) xs ≡ xs
retain_all [] = refl
retain_all (x ∷ xs) = ap (λ r. x ∷ r) (retain_all xs)

retain_none : (bbs : List BasicBlock) → map (retain_live []) bbs ≡ bbs
unfolding contains
retain_none [] = refl
retain_none (bb ∷ bbs) =
    ap₂ ◌∷◌ (ap (λ b. record bb { body = b }) (retain_all bb.body)) (retain_none bbs)

abbrev pub dead_of : Function → UseDefInfo → List InstrId
dead_of f info = dead_from info 0 f.instructions

-- On both branches the blocks are those of the source with the dead instructions left out.
sweep_lem :
    (f : Function) (dead : List InstrId)
    → (sweep f dead).0 ≡ record f { blocks = map (retain_live dead) f.blocks }
unfolding sweep
sweep_lem f [] = ap (λ b. record f { blocks = b }) (sym (retain_none f.blocks))
sweep_lem f (d ∷ ds) = refl

pub run_dce_shape :
    (f f' : Function) (c : Bool)
    → run_dce f ≡ some (f', c)
    → (info : UseDefInfo) × (compute f ≡ some info)
      × (f' ≡ record f { blocks = map (retain_live (dead_of f info)) f.blocks })
unfolding run_dce
run_dce_shape f f' c h = elim (Option-cases (compute f)) [
  | inl e ↦ absurd (cc (rw (e, run_dce) at h))
  | inr (info, e) ↦
      let same : some (sweep f (dead_of f info)) ≡ some (f', c) = rw (e, run_dce) at h in
      (
        info,
        e,
        sym (ap (λ (p : Function × Bool). p.0) (some_injective same))
            ∙ sweep_lem f (dead_of f info),
      )
]

get_elem?-map :
    (g : BasicBlock → BasicBlock) (bbs : List BasicBlock) (b : ℕ) {bb : BasicBlock}
    → get_elem? bbs b ≡ some bb
    → get_elem? (map g bbs) b ≡ some (g bb)
get_elem?-map g [] b h = absurd (cc)
get_elem?-map g (x ∷ bbs) zero h = cc
get_elem?-map g (x ∷ bbs) (suc b) h = get_elem?-map g bbs b h

dead_of_sound :
    (f : Function) (info : UseDefInfo) (iid : InstrId)
    → compute f ≡ some info
    → length f.instructions < 2 ^ 32
    → Memᴰ iid (dead_of f info)
    → IsRemovable f iid
dead_of_sound f info iid e room m =
    let d = dead_from_sound info f.instructions 0 {id = iid} (omega arith) m in
    let same : iid ≡ d.offset = omega (arith, d.sum) in
    record {
      ins = d.ins;
      at = unfold instr in rw same d.at;
      safe = d.safe;
      unused = λ bb j u user.
          absurd (cc (d.dead, (is_dead_iff f info (instruction iid) e).1 (bb, j, u, user)));
    }

dead_of_complete :
    (f : Function) (info : UseDefInfo) (iid : InstrId)
    → compute f ≡ some info
    → length f.instructions < 2 ^ 32
    → IsRemovable f iid
    → Memᴰ iid (dead_of f info)
dead_of_complete f info iid e room r =
    let z : 0 + iid ≡ iid = omega arith in
    rw z at (
      dead_from_complete info f.instructions 0 iid {ins = r.ins} (omega arith)
        (unfold instr in r.at) r.safe (rw z (is_dead_of_unused f info iid e r)))

-- The body of a block after the pass holds exactly the instructions that are not removable.
live_iff :
    (f : Function) (info : UseDefInfo) (iid : InstrId) (body : List InstrId)
    → compute f ≡ some info
    → length f.instructions < 2 ^ 32
    → Memᴰ iid (retain (λ id. not (contains (dead_of f info) id)) body)
      ↔ (Memᴰ iid body × ¬ IsRemovable f iid)
unfolding contains
live_iff f info iid body e room = (
  λ m.
      let (old, kept) = mem_of_retain (λ id. not (contains (dead_of f info) id)) body m in
      (
        old,
        λ r.
            let gone : contains (dead_of f info) iid ≡ true =
              any_intro (eq_test ℕ_discrete iid) (dead_of f info)
                (dead_of_complete f info iid e room r) ((eq_test_iff ℕ_discrete iid iid).1 refl) in
            absurd (cc (gone, kept)),
      ),
  λ (old, stays).
      retain_of_mem (λ id. not (contains (dead_of f info) id)) body old
        (elim (Bool-cases (contains (dead_of f info) iid)) [
          | inl gone ↦
              let (d, m, same) = any_witness (eq_test ℕ_discrete iid) (dead_of f info) gone in
              absurd (
                stays (
                  dead_of_sound f info iid e room
                    (Memᴰ.cast ((eq_test_iff ℕ_discrete iid d).0 same) m)))
          | inr live ↦ rw live
        ]),
)

-- Each block keeps its name and its terminator, and of its body the pass deletes exactly the
-- instructions whose kind is safe to delete and which no instruction of a block has as an operand.
pub dce_removes_exactly :
    (f f' : Function) (c : Bool) (b : BlockId) (bb : BasicBlock)
    → run_dce f ≡ some (f', c)
    → length f.instructions < 2 ^ 32
    → get_elem? f.blocks b ≡ some bb
    → (bb' : BasicBlock) × (get_elem? f'.blocks b ≡ some bb')
      × (bb'.name ≡ bb.name)
      × (bb'.terminator ≡ bb.terminator)
      × ((iid : InstrId) → Memᴰ iid bb'.body ↔ (Memᴰ iid bb.body × ¬ IsRemovable f iid))
dce_removes_exactly f f' c b bb h room at =
    let (info, e, same) = run_dce_shape f f' c h in
    (
      retain_live (dead_of f info) bb,
      rw same (get_elem?-map (retain_live (dead_of f info)) f.blocks b at),
      refl,
      refl,
      λ iid. live_iff f info iid bb.body e room,
    )
