-- ===== src/Ir/Function.antt =====
-- llvm-ir/src/function.rs: a function with its blocks and its pool of instructions. An index out
-- of range, where the source panics, is `none`.
pub mod Names
pub mod Build
use Prim.Native.Nat.{ℕ, ◌+◌, ◌^◌}
use Prim.Native.String.{String}
use native.Mathlib.Decide.{ℕ_discrete}
use mathlib.Core.Bool.{Bool, true, false, ◌&&◌}
use mathlib.Core.List.{List, [], ◌∷◌, ◌++◌}
use mathlib.Core.Option
use mathlib.Core.Option.{Option, none, some}
use text.Mathlib.Text.{◌==◌ as str_eq}
use llvm_in_rust.Base.{length, ltb, get_elem?, if◌then◌else◌}
use llvm_in_rust.Base.Machine.{as_u32}
use llvm_in_rust.Base.Maps.{HashMap, get, insert}
use llvm_in_rust.Base.Text.{String-discrete, format_v}
use llvm_in_rust.Ir.Ids.{TypeId, InstrId, ArgId, BlockId, ValueRef, instruction, argument}
use llvm_in_rust.Ir.Value.{Argument, Linkage}
use llvm_in_rust.Ir.Instr.{InstrKind}
use llvm_in_rust.Ir.Block.{BasicBlock}

pub record Instruction : Type 0 where
  pub name : Option String
  pub ty : TypeId
  pub kind : InstrKind

pub record Function : Type 0 where
  pub name : String
  pub ty : TypeId
  pub args : List Argument
  pub blocks : List BasicBlock
  pub instructions : List Instruction
  pub instr_dbg_locs : HashMap InstrId ℕ
  pub instr_metadata : HashMap InstrId (List (String × String))
  pub value_names : HashMap String InstrId
  pub arg_names : HashMap String ArgId
  pub is_declaration : Bool
  pub linkage : Linkage
  pub strictfp : Bool
  pub next_name_id : ℕ

push_arg : Function → Argument → Function
push_arg f arg =
    let idx = as_u32 (length f.args) in
    let names =
      if str_eq arg.name "" then f.arg_names else insert String-discrete arg.name idx f.arg_names in
    record f { args = f.args ++ arg ∷ []; arg_names = names }

push_args : Function → List Argument → Function
push_args f [] = f
push_args f (arg ∷ args) = push_args (push_arg f arg) args

unfoldable pub new_function : String → TypeId → List Argument → Linkage → Function
unfolding push_args push_arg
new_function name ty args linkage =
    let f : Function = record {
      name = name;
      ty = ty;
      args = [];
      blocks = [];
      instructions = [];
      instr_dbg_locs = [];
      instr_metadata = [];
      value_names = [];
      arg_names = [];
      is_declaration = false;
      linkage = linkage;
      strictfp = false;
      next_name_id = 0;
    } in
    push_args f args

unfoldable pub new_declaration : String → TypeId → List Argument → Linkage → Function
unfolding new_function
new_declaration name ty args linkage = record (new_function name ty args linkage) {
  is_declaration = true;
}

unfoldable pub add_block : Function → BasicBlock → Function × BlockId
add_block f bb = (record f { blocks = f.blocks ++ bb ∷ [] }, as_u32 (length f.blocks))

unfoldable pub block : Function → BlockId → Option BasicBlock
block f id = get_elem? f.blocks id

unfoldable pub num_blocks : Function → ℕ
num_blocks f = length f.blocks

-- The counter is a u32, and counting past its largest number panics: `none`.
unfoldable pub fresh_name : Function → Option (Function × String)
fresh_name f =
    let next = f.next_name_id + 1 in
    if ltb next (2 ^ 32)
    then some (record f { next_name_id = next }, format_v f.next_name_id)
    else none

-- The first step of `alloc_instr`: a value whose name is empty is numbered.
unfoldable pub number_instr : Function → Instruction → Option (Function × Instruction)
unfolding fresh_name
number_instr f instr = elim instr.name [
  | none ↦ some (f, instr)
  | some n ↦
      if str_eq n ""
      then Option.map (λ (f', fresh). (f', record instr { name = some fresh })) (fresh_name f)
      else some (f, instr)
]

unfoldable pub register_name :
    Option String → InstrId → HashMap String InstrId → HashMap String InstrId
register_name none id names = names
register_name (some n) id names = if str_eq n "" then names else insert String-discrete n id names

-- The other steps of `alloc_instr`.
unfoldable pub push_instr : Function × Instruction → Function × InstrId
unfolding register_name
push_instr (f, instr) =
    let id = as_u32 (length f.instructions) in
    (
      record f {
        value_names = register_name instr.name id f.value_names;
        instructions = f.instructions ++ instr ∷ [];
      },
      id,
    )

unfoldable pub alloc_instr : Function → Instruction → Option (Function × InstrId)
unfolding number_instr push_instr
alloc_instr f instr = Option.map push_instr (number_instr f instr)

unfoldable pub instr : Function → InstrId → Option Instruction
instr f id = get_elem? f.instructions id

unfoldable pub num_instrs : Function → ℕ
num_instrs f = length f.instructions

unfoldable pub set_instr_dbg_loc : Function → InstrId → ℕ → Function
set_instr_dbg_loc f id loc = record f { instr_dbg_locs = insert ℕ_discrete id loc f.instr_dbg_locs }

unfoldable pub instr_dbg_loc : Function → InstrId → Option ℕ
instr_dbg_loc f id = get ℕ_discrete id f.instr_dbg_locs

unfoldable pub add_instr_metadata : Function → InstrId → String → String → Function
add_instr_metadata f id key value =
    let old = Option.get_or (get ℕ_discrete id f.instr_metadata) [] in
    record f { instr_metadata = insert ℕ_discrete id (old ++ (key, value) ∷ []) f.instr_metadata }

unfoldable pub instr_metadata : Function → InstrId → Option (List (String × String))
instr_metadata f id = get ℕ_discrete id f.instr_metadata

unfoldable pub arg : Function → ArgId → Option Argument
arg f id = get_elem? f.args id

unfoldable pub num_args : Function → ℕ
num_args f = length f.args

unfoldable pub lookup_value : Function → String → Option ValueRef
lookup_value f name = elim (get String-discrete name f.value_names) [
  | some iid ↦ some (instruction iid)
  | none ↦ Option.map argument (get String-discrete name f.arg_names)
]

-- The index of the first block of that name, counted from `i`.
find_block : ℕ → String → List BasicBlock → Option BlockId
find_block i name [] = none
find_block i name (bb ∷ bbs) =
    if str_eq bb.name name then some (as_u32 i) else find_block (i + 1) name bbs

unfoldable pub lookup_block : Function → String → Option BlockId
unfolding find_block
lookup_block f name = find_block 0 name f.blocks

-- The outer `Option` is the index out of range, the inner one is the source's.
unfoldable pub type_of_value : Function → ValueRef → Option (Option TypeId)
type_of_value f (instruction id) = Option.map (λ i. some i.ty) (get_elem? f.instructions id)
type_of_value f (argument id) = Option.map (λ a. some a.ty) (get_elem? f.args id)
type_of_value f _ = some none
