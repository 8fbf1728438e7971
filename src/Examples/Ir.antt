-- ===== src/Examples/Ir.antt =====
-- Instructions and functions at concrete inputs.
use llvm_in_rust.Base.{
  ℕ, ◌<◌, ◌^◌, ◌≡◌, refl, ◌≢◌, ◌⊎◌, List, [], ◌∷◌, map, none, some, true, false, arith, length,
}
use llvm_in_rust.Base.Maps.{HashMap}
use llvm_in_rust.Ir.Ids.{InstrId, ValueRef, instruction, argument, constant}
use llvm_in_rust.Ir.Value.{external}
use llvm_in_rust.Ir.Ops.{IntArithFlags}
use llvm_in_rust.Ir.Instr.{InstrKind, add, ret, phi, cond_br, is_terminator}
use llvm_in_rust.Ir.Instr.Operands.{operands, successors}
use llvm_in_rust.Ir.Instr.Opcode.{opcode}
use llvm_in_rust.Ir.Instr.Laws.{successors-is_terminator}
use llvm_in_rust.Ir.Function.{
  Function, Instruction, fresh_name, number_instr, push_instr, alloc_instr, instr,
}
use llvm_in_rust.Base.Text.{format_v}
use llvm_in_rust.Ir.Function.Names.{
  NamesResolve, Exhausted, instr-alloc_instr, alloc_instr-NamesResolve,
}
use llvm_in_rust.Transforms.Rewrite.{rewrite_values_in_kind}
use llvm_in_rust.Transforms.Rewrite.Laws.{
  operands-rewrite_values_in_kind, rewrite_values_in_kind_shape, rewrite_values_in_kind_id,
}
use llvm_in_rust.Transforms.Subst.{subst_kind, subst_value}
use llvm_in_rust.Transforms.Subst.Laws.{subst_kind-eq-rewrite_values_in_kind}

abbrev pub no_flags : IntArithFlags
no_flags = record { nuw = false; nsw = false }

abbrev pub add_self : InstrKind
add_self = add no_flags (argument 0) (argument 0)

abbrev pub unnamed : InstrKind → Instruction
unnamed k = record { name = none; ty = 0; kind = k }

-- One block, whose body is what is listed and whose terminator is the last instruction.
abbrev pub one_block : List Instruction → List InstrId → InstrId → Function
one_block pool body last = record {
  name = "f";
  ty = 0;
  args = [];
  blocks = record { name = "entry"; body = body; terminator = some last } ∷ [];
  instructions = pool;
  instr_dbg_locs = [];
  instr_metadata = [];
  value_names = [];
  arg_names = [];
  is_declaration = false;
  linkage = external;
  strictfp = false;
  next_name_id = 0;
}

abbrev pub dead_add : Function
dead_add = one_block (unnamed add_self ∷ unnamed (ret (some (argument 0))) ∷ []) (0 ∷ []) 1

abbrev merge : InstrKind
merge = phi 4 ((instruction 2, 0) ∷ (constant 1, 3) ∷ [])

branches : successors (cond_br (argument 0) 1 2) ≢ []
unfolding successors
branches = cc

successors-is_terminator_example : is_terminator (cond_br (argument 0) 1 2) ≡ true
successors-is_terminator_example = successors-is_terminator (cond_br (argument 0) 1 2) branches

operands-rewrite_values_in_kind_example :
    operands (rewrite_values_in_kind merge (λ _. argument 7))
    ≡ map (λ _. argument 7) (operands merge)
operands-rewrite_values_in_kind_example = operands-rewrite_values_in_kind merge (λ _. argument 7)

rewrite_values_in_kind_shape_example :
    (successors (rewrite_values_in_kind merge (λ _. argument 7)) ≡ successors merge)
    × (opcode (rewrite_values_in_kind merge (λ _. argument 7)) ≡ opcode merge)
    × (is_terminator (rewrite_values_in_kind merge (λ _. argument 7)) ≡ is_terminator merge)
rewrite_values_in_kind_shape_example = rewrite_values_in_kind_shape merge (λ _. argument 7)

rewrite_values_in_kind_id_example : rewrite_values_in_kind merge (λ v. v) ≡ merge
rewrite_values_in_kind_id_example = rewrite_values_in_kind_id merge

abbrev folded : HashMap InstrId ValueRef
folded = (2, constant 9) ∷ []

subst_kind-eq-rewrite_values_in_kind_example :
    subst_kind merge folded ≡ rewrite_values_in_kind merge (subst_value folded)
subst_kind-eq-rewrite_values_in_kind_example = subst_kind-eq-rewrite_values_in_kind merge folded

abbrev named : Instruction
named = record { name = some "sum"; ty = 4; kind = add_self }

-- A value whose name is empty, and the function in which it is numbered.
abbrev unnumbered : Instruction
unnumbered = record named { name = some "" }

abbrev counted : Function
counted = (push_instr (record dead_add { next_name_id = 1 }, record named { name = some "v0" })).0

instr-alloc_instr_example :
    (Exhausted dead_add unnumbered × (alloc_instr dead_add unnumbered ≡ none))
    ⊎ ((g : Function) × (id : InstrId) × (j : Instruction) × (alloc_instr dead_add unnumbered
          ≡ some (g, id))
        × (instr g id ≡ some j)
        × (j.kind ≡ unnumbered.kind)
        × (j.ty ≡ unnumbered.ty)
        × ((k : InstrId) → k < 2 → instr g k ≡ instr dead_add k))
instr-alloc_instr_example = instr-alloc_instr dead_add unnumbered (omega arith)

dead_add-NamesResolve : NamesResolve dead_add
unfolding llvm_in_rust.Base.Maps.get
dead_add-NamesResolve = record { resolves = λ n id h. absurd (cc) }

alloc_instr-NamesResolve_example : NamesResolve counted
unfolding alloc_instr number_instr fresh_name format_v push_instr
alloc_instr-NamesResolve_example =
    alloc_instr-NamesResolve dead_add unnumbered counted 2 (omega arith) dead_add-NamesResolve refl
