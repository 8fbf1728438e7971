-- ===== src/Examples/Dce.antt =====
-- Uses and dead-code elimination at a concrete function: a dead sum and a return.
use mathlib.Core.List.{Memᴰ}
use native.Mathlib.Decide.{ℕ_discrete}
use llvm_in_rust.Base.{ℕ, ◌≡◌, refl, ◌↔◌, List, [], ◌∷◌, none, some, true, false, arith, get_elem?}
use llvm_in_rust.Base.Any.{eq_test}
use llvm_in_rust.Base.Maps.{get, insert}
use llvm_in_rust.Ir.Ids.{InstrId, ValueRef-discrete, instruction, argument}
use llvm_in_rust.Ir.Instr.{ret, inline_asm}
use llvm_in_rust.Ir.Instr.Operands.{operands}
use llvm_in_rust.Ir.Block.{BasicBlock, instrs}
use llvm_in_rust.Ir.Function.{Function, Instruction, instr}
use llvm_in_rust.Analysis.UseDef.{
  UseDefInfo, compute, is_dead, sites_of, no_sites, push_site, push_operands, record_kind,
  record_instrs, record_blocks,
}
use llvm_in_rust.Analysis.UseDef.Laws.{IsUser, is_dead_iff}
use llvm_in_rust.Transforms.Dce.{run_dce, sweep, dead_from, contains, is_dce_safe}
use llvm_in_rust.Transforms.Dce.Laws.{IsRemovable, dce_removes_exactly}
use llvm_in_rust.Transforms.Dce.Kept.{dce_keeps_operands, dce_drops_side_effects}
use llvm_in_rust.Examples.Ir.{add_self, unnamed, one_block, dead_add}

abbrev dead_add_uses : UseDefInfo
dead_add_uses = record {
  instr_block = (1, 0) ∷ (0, 0) ∷ [];
  uses =
      (argument 0, (0, 0) ∷ (0, 0) ∷ (0, 1) ∷ [])
      ∷ (argument 0, (0, 0) ∷ (0, 0) ∷ [])
      ∷ (argument 0, (0, 0) ∷ [])
      ∷ [];
  phi_uses = [];
}

compute-dead_add : compute dead_add ≡ some dead_add_uses
unfolding compute record_blocks record_instrs record_kind push_operands push_site sites_of get
    insert instr instrs operands ValueRef-discrete ℕ_discrete
compute-dead_add = refl

is_dead_iff_example : (is_dead dead_add_uses (argument 0) ≡ false) ↔ (
    (bb : BasicBlock) × (iid : InstrId) × (i : Instruction) × IsUser dead_add (argument 0) bb iid i)
is_dead_iff_example = is_dead_iff dead_add dead_add_uses (argument 0) compute-dead_add

abbrev entry : List InstrId → BasicBlock
entry body = record { name = "entry"; body = body; terminator = some 1 }

abbrev swept : Function
swept = record dead_add { blocks = entry [] ∷ [] }

run_dce-dead_add : run_dce dead_add ≡ some (swept, true)
unfolding run_dce sweep dead_from contains is_dce_safe is_dead compute record_blocks record_instrs
    record_kind push_operands push_site sites_of get insert instr instrs operands ValueRef-discrete
    ℕ_discrete eq_test no_sites
run_dce-dead_add = refl

dce_removes_exactly_example :
    (bb' : BasicBlock) × (get_elem? swept.blocks 0 ≡ some bb')
    × (bb'.name ≡ "entry")
    × (bb'.terminator ≡ some 1)
    × ((iid : InstrId) → Memᴰ iid bb'.body ↔ (Memᴰ iid (0 ∷ []) × ¬ IsRemovable dead_add iid))
dce_removes_exactly_example =
    dce_removes_exactly dead_add swept true 0 (entry (0 ∷ [])) run_dce-dead_add (omega arith) refl

-- A sum that is returned.
abbrev used_add : Function
used_add = one_block (unnamed add_self ∷ unnamed (ret (some (instruction 0))) ∷ []) (0 ∷ []) 1

run_dce-used_add : run_dce used_add ≡ some (used_add, false)
unfolding run_dce sweep dead_from contains is_dce_safe is_dead compute record_blocks record_instrs
    record_kind push_operands push_site sites_of get insert instr instrs operands ValueRef-discrete
    ℕ_discrete eq_test no_sites
run_dce-used_add = refl

used_add-user :
    IsUser used_add (instruction 0) (entry (0 ∷ [])) 1 (unnamed (ret (some (instruction 0))))
unfolding instr instrs operands
used_add-user = record {
  in_blocks = Memᴰ.head refl;
  in_block = Memᴰ.tail (Memᴰ.head refl);
  at = refl;
  operand = Memᴰ.head refl;
}

dce_keeps_operands_example :
    (bb' : BasicBlock) × (get_elem? used_add.blocks 0 ≡ some bb') × Memᴰ {A = ℕ} 0 bb'.body
dce_keeps_operands_example =
    dce_keeps_operands used_add used_add false 0 (entry (0 ∷ [])) (entry (0 ∷ [])) 0 1
      (unnamed (ret (some (instruction 0)))) run_dce-used_add (omega arith) refl (Memᴰ.head refl)
      used_add-user

-- `call void asm sideeffect "cpuid", ""()`, then a return.
abbrev cpuid : Function
cpuid =
    one_block (unnamed (inline_asm "cpuid" "" true false []) ∷ unnamed (ret none) ∷ []) (0 ∷ []) 1

run_dce-cpuid : run_dce cpuid ≡ some (record cpuid { blocks = entry [] ∷ [] }, true)
unfolding run_dce sweep dead_from contains is_dce_safe is_dead compute record_blocks record_instrs
    record_kind push_operands push_site sites_of get insert instr instrs operands ValueRef-discrete
    ℕ_discrete eq_test no_sites
run_dce-cpuid = refl

abbrev cpuid_uses : UseDefInfo
cpuid_uses = record { instr_block = (1, 0) ∷ (0, 0) ∷ []; uses = []; phi_uses = [] }

compute-cpuid : compute cpuid ≡ some cpuid_uses
unfolding compute record_blocks record_instrs record_kind push_operands push_site sites_of get
    insert instr instrs operands ValueRef-discrete ℕ_discrete
compute-cpuid = refl

cpuid-dead : is_dead cpuid_uses (instruction 0) ≡ true
unfolding is_dead sites_of get no_sites
cpuid-dead = refl

cpuid-unused :
    (bu : BasicBlock) (j : InstrId) (u : Instruction) → ¬ IsUser cpuid (instruction 0) bu j u
cpuid-unused bu j u user =
    cc (cpuid-dead, (is_dead_iff cpuid cpuid_uses (instruction 0) compute-cpuid).1 (bu, j, u, user))

dce_drops_side_effects_example : ¬ Memᴰ {A = ℕ} 0 []
dce_drops_side_effects_example =
    dce_drops_side_effects cpuid (record cpuid { blocks = entry [] ∷ [] }) true 0 (entry (0 ∷ []))
      (entry []) 0 (unnamed (inline_asm "cpuid" "" true false [])) "cpuid" "" false [] run_dce-cpuid
      (omega arith) refl (unfold instr in refl) refl cpuid-unused refl
