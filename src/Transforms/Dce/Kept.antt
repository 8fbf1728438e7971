-- ===== src/Transforms/Dce/Kept.antt =====
-- llvm-transforms/src/dce.rs: what an instruction that is kept may still rely on.
use mathlib.Core.Path.{subst}
use mathlib.Core.List.{Memᴰ}
use mathlib.Core.List.Memᴰ
use Prim.Native.String.{String}
use llvm_in_rust.Base.{
  ◌<◌, ◌^◌, ◌≡◌, refl, sym, inl, inr, List, map, some, Bool, true, not, length, get_elem?,
}
use llvm_in_rust.Base.Any.{mem_of_retain}
use llvm_in_rust.Ir.Ids.{InstrId, BlockId, ValueRef, instruction}
use llvm_in_rust.Ir.Instr.{inline_asm}
use llvm_in_rust.Ir.Instr.Operands.{option_list}
use llvm_in_rust.Ir.Block.{BasicBlock, instrs}
use llvm_in_rust.Ir.Function.{Function, Instruction, instr}
use llvm_in_rust.Analysis.UseDef.{UseDefInfo}
use llvm_in_rust.Analysis.UseDef.Laws.{IsUser}
use llvm_in_rust.Transforms.Dce.{contains, is_dce_safe, retain_live, run_dce}
use llvm_in_rust.Transforms.Dce.Laws.{dead_of, run_dce_shape, IsRemovable, dce_removes_exactly}

instrs-retain_live :
    (dead : List InstrId) (bb : BasicBlock) {j : InstrId}
    → Memᴰ j (instrs (retain_live dead bb))
    → Memᴰ j (instrs bb)
unfolding instrs
instrs-retain_live dead bb {j} m = elim (Memᴰ.append_cases (retain_live dead bb).body m) [
  | inl body ↦
      Memᴰ.append_left (option_list bb.terminator)
        (mem_of_retain (λ id. not (contains dead id)) bb.body body).0
  | inr last ↦ Memᴰ.append_right bb.body last
]

-- A user in the function after the pass is a user before it.
IsUser-before :
    (f : Function) (info : UseDefInfo) (v : ValueRef) {bb : BasicBlock} {j : InstrId}
    {u : Instruction}
    → IsUser (record f { blocks = map (retain_live (dead_of f info)) f.blocks }) v bb j u
    → (bb' : BasicBlock) × IsUser f v bb' j u
unfolding instr
IsUser-before f info v {bb} {j} user =
    let (old, m, same) = Memᴰ.of_map (retain_live (dead_of f info)) f.blocks user.in_blocks in
    (
      old,
      record {
        in_blocks = m;
        in_block =
            instrs-retain_live (dead_of f info) old
              (subst (λ b. Memᴰ j (instrs b)) (sym same) user.in_block);
        at = user.at;
        operand = user.operand;
      },
    )

-- Whatever instruction of the function after the pass has a result as an operand, the instruction
-- that gives this result stands in its block still.
pub dce_keeps_operands :
    (f f' : Function) (c : Bool) (b : BlockId) (bb bu : BasicBlock) (iid j : InstrId)
    (u : Instruction)
    → run_dce f ≡ some (f', c)
    → length f.instructions < 2 ^ 32
    → get_elem? f.blocks b ≡ some bb
    → Memᴰ iid bb.body
    → IsUser f' (instruction iid) bu j u
    → (bb' : BasicBlock) × (get_elem? f'.blocks b ≡ some bb') × Memᴰ iid bb'.body
dce_keeps_operands f f' c b bb bu iid j u h room at m user =
    let (info, e, same) = run_dce_shape f f' c h in
    let (old, before) =
      IsUser-before f info (instruction iid)
        (subst (λ g. IsUser g (instruction iid) bu j u) same user) in
    let (bb', at', _, _, exactly) = dce_removes_exactly f f' c b bb h room at in
    (bb', at', (exactly iid).1 (m, λ r. r.unused old j u before))

-- Inline assembly that is marked as having side effects is deleted when no instruction has its
-- result as an operand.
pub dce_drops_side_effects :
    (f f' : Function) (c : Bool) (b : BlockId) (bb bb' : BasicBlock) (iid : InstrId)
    (ins : Instruction) (asm constraints : String) (align_stack : Bool) (args : List ValueRef)
    → run_dce f ≡ some (f', c)
    → length f.instructions < 2 ^ 32
    → get_elem? f.blocks b ≡ some bb
    → instr f iid ≡ some ins
    → ins.kind ≡ inline_asm asm constraints true align_stack args
    → ((bu : BasicBlock) (j : InstrId) (u : Instruction) → ¬ IsUser f (instruction iid) bu j u)
    → get_elem? f'.blocks b ≡ some bb'
    → ¬ Memᴰ iid bb'.body
dce_drops_side_effects f f' c b bb bb' iid ins asm constraints align args h room at ati kind unused
      at' m =
    let (bb'', at'', _, _, exactly) = dce_removes_exactly f f' c b bb h room at in
    let same : bb' ≡ bb'' = cc in
    let r : IsRemovable f iid = record {
      ins = ins;
      at = ati;
      safe = rw kind (unfold is_dce_safe in refl);
      unused = unused;
    } in
    ((exactly iid).0 (subst (λ x. Memᴰ iid x.body) same m)).1 r
