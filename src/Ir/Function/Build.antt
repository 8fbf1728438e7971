-- ===== src/Ir/Function/Build.antt =====
-- llvm-ir/src/function.rs: what `new`, `new_declaration` and `alloc_instr` leave in the fields of a function.
use Prim.Native.String.{String}
use mathlib.Core.Option
use mathlib.Core.List.{append_assoc, append-nil}
use text.Mathlib.Text.{◌==◌ as str_eq}
use text.Mathlib.TextEquality.{eq_iff}
use llvm_in_rust.Base.{
  ◌≡◌, ◌≢◌, refl, sym, ap, ◌∙◌, List, [], ◌∷◌, ◌++◌, some, Bool, false, Bool-cases, inl, inr,
  Option-cases,
}
use llvm_in_rust.Ir.Ids.{TypeId}
use llvm_in_rust.Ir.Value.{Argument, Linkage}
use llvm_in_rust.Ir.Block.{BasicBlock}
use llvm_in_rust.Ir.Function.{
  Function, Instruction, push_arg, push_args, new_function, number_instr, push_instr, alloc_instr,
}

-- What the instructions of a function do not touch.
abbrev pub Head : Type 0
Head = String × TypeId × List Argument × List BasicBlock × Linkage × Bool × Bool

abbrev pub head : Function → Head
head f = (f.name, f.ty, f.args, f.blocks, f.linkage, f.is_declaration, f.strictfp)

-- What the arguments of a function do not touch.
abbrev without_args : Function → Function
without_args f = record f { args = []; arg_names = [] }

push_args_lem :
    (f : Function) (args : List Argument)
    → ((push_args f args).args ≡ f.args ++ args)
      × (without_args (push_args f args) ≡ without_args f)
unfolding push_args push_arg
push_args_lem f [] = (sym (append-nil f.args), refl)
push_args_lem f (arg ∷ args) =
    let (h, k) = push_args_lem (push_arg f arg) args in (h ∙ append_assoc f.args (arg ∷ []) args, k)

-- A function of no arguments.
abbrev no_args : String → TypeId → Linkage → Function
no_args name ty linkage = record {
  name = name;
  ty = ty;
  args = [];
  blocks = [];
  instructions = [];
  instr_dbg_locs = [];
  instr_metadata = [];
  value_names = [];
  arg_names = [];
  is_declaration = false;
  linkage = linkage;
  strictfp = false;
  next_name_id = 0;
}

-- A new function has its arguments and nothing else yet.
pub new_function_lem :
    (name : String) (ty : TypeId) (args : List Argument) (linkage : Linkage)
    → (head (new_function name ty args linkage) ≡ (name, ty, args, [], linkage, false, false))
      × ((new_function name ty args linkage).instructions ≡ [])
      × ((new_function name ty args linkage).value_names ≡ [])
unfolding new_function
new_function_lem name ty args linkage =
    let (h, k) = push_args_lem (no_args name ty linkage) args in
    (cc (h, k), ap (λ f. f.instructions) k, ap (λ f. f.value_names) k)

number_instr-named :
    (f : Function) (i : Instruction) → i.name ≢ some "" → number_instr f i ≡ some (f, i)
unfolding number_instr
number_instr-named f i full = elim (Option-cases i.name) [
  | inl e ↦ simp (e, number_instr)
  | inr (n, e) ↦ elim (Bool-cases (str_eq n "")) [
    | inl same ↦ absurd (full (e ∙ ap some ((eq_iff n "").0 same)))
    | inr ne ↦ simp (e, number_instr, ne)
  ]
]

-- An instruction that bears a name, or none, is pushed as it is.
pub alloc_instr-pushes :
    (f : Function) (i : Instruction) → i.name ≢ some "" → alloc_instr f i ≡ some (push_instr (f, i))
unfolding alloc_instr
alloc_instr-pushes f i full = ap (Option.map push_instr) (number_instr-named f i full)

pub push_instr_lem :
    (f : Function) (i : Instruction)
    → (head (push_instr (f, i)).0 ≡ head f)
      × ((push_instr (f, i)).0.instructions ≡ f.instructions ++ i ∷ [])
unfolding push_instr
push_instr_lem f i = (refl, refl)
