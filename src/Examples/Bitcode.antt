-- ===== src/Examples/Bitcode.antt =====
-- The bitcode at concrete inputs.
use llvm_in_rust.Base.{◌<◌, ◌^◌, ◌≡◌, refl, [], ◌∷◌, some, false, arith, length}
use llvm_in_rust.Base.Maps.{get, insert}
use native.Mathlib.Decide.{ℕ_discrete}
use llvm_in_rust.Base.Utf8.{as_bytes}
use llvm_in_rust.Ir.Ids.{argument, constant}
use llvm_in_rust.Ir.Types.{function, TypeData-discrete}
use llvm_in_rust.Ir.Value.{ConstantData, GlobalVariable, internal}
use llvm_in_rust.Ir.Instr.{InstrKind, switch}
use llvm_in_rust.Ir.Context.{Context, new_context, intern_anon, get_type}
use llvm_in_rust.Ir.Context.Laws.{intern_anon_lem}
use llvm_in_rust.Ir.Context.Fresh.{IsInterned-singletons, new_context-IsInterned}
use llvm_in_rust.Ir.Function.{Function}
use llvm_in_rust.Ir.Module.{Module, new_module, add_function, get_function}
use llvm_in_rust.Ir.Module.Laws.{NamesResolve, new_module-NamesResolve, add_function-NamesResolve}
use llvm_in_rust.Ir.Module.View.{view, update, add_function-refines}
use llvm_in_rust.Bitcode.Reads.{Reads}
use llvm_in_rust.Bitcode.Consts.{encode_const, decode_const}
use llvm_in_rust.Bitcode.Consts.Laws.{decode_const-encode_const}
use llvm_in_rust.Bitcode.Instrs.{encode_kind}
use llvm_in_rust.Bitcode.Instrs.Decode.{decode_kind}
use llvm_in_rust.Bitcode.Instrs.Fits.{without_fast_math}
use llvm_in_rust.Bitcode.Instrs.Laws.{decode_kind-encode_kind}
use llvm_in_rust.Bitcode.Functions.{encode_function, decode_function}
use llvm_in_rust.Bitcode.Functions.Laws.{IsReread, FitsFunction, decode_function-encode_function}
use llvm_in_rust.Bitcode.Module.{write_bitcode, read_bitcode}
use llvm_in_rust.Bitcode.Module.Laws.{
  FitsContext, FitsModule, IsRereadContext, IsRereadModule, read_bitcode-write_bitcode,
}
use llvm_in_rust.Examples.Ir.{dead_add}

abbrev jump_table : InstrKind
jump_table = switch (argument 0) 1 ((constant 0, 2) ∷ (constant 1, 3) ∷ [])

decode_kind-encode_kind_example :
    Reads (decode_kind []) (encode_kind jump_table) (without_fast_math jump_table)
decode_kind-encode_kind_example = decode_kind-encode_kind [] jump_table (
  omega arith,
  omega arith,
  (omega arith, ((omega arith, omega arith), ((omega arith, omega arith), tt))),
)

abbrev pair : ConstantData
pair = ConstantData.array 1 (0 ∷ 0 ∷ [])

decode_const-encode_const_example :
    Reads (decode_const (0 ∷ 1 ∷ []) (0 ∷ [])) (encode_const pair) pair
decode_const-encode_const_example =
    decode_const-encode_const (0 ∷ 1 ∷ []) (0 ∷ []) pair
      ((omega arith, refl), (omega arith, ((omega arith, refl), ((omega arith, refl), tt))))

-- An argument that is added to itself, and then returned.
dead_add_fits : FitsFunction (0 ∷ []) dead_add
unfolding as_bytes
dead_add_fits = (
  omega arith,
  (omega arith, refl),
  (omega arith, tt),
  (omega arith, ((omega arith, (omega arith, (omega arith, tt)), omega arith), tt)),
  (
    omega arith,
    (
      (tt, (omega arith, refl), (omega arith, omega arith)),
      ((tt, (omega arith, refl), omega arith), tt),
    ),
  ),
)

decode_function-encode_function_example :
    (g : Function) × Reads (decode_function (0 ∷ [])) (encode_function dead_add) g
    × IsReread dead_add g
decode_function-encode_function_example =
    decode_function-encode_function (0 ∷ []) dead_add dead_add_fits

no_functions : length (new_module "m").functions < 2 ^ 32
unfolding new_module
no_functions = omega arith

add_function-NamesResolve_example :
    NamesResolve (add_function (new_module "m") dead_add).0
    × (get_function (add_function (new_module "m") dead_add).0 "f"
        ≡ some (some ((add_function (new_module "m") dead_add).1, dead_add)))
add_function-NamesResolve_example =
    add_function-NamesResolve (new_module "m") dead_add no_functions (new_module-NamesResolve "m")

-- A new context with a function type and two constants, the second one an array of the first.
abbrev pub typed : Context
typed = (intern_anon new_context (function 4 (4 ∷ 4 ∷ []) false)).0

abbrev pub stocked : Context
stocked = record typed { constants = ConstantData.int 4 7 ∷ ConstantData.array 4 (0 ∷ 0 ∷ []) ∷ [] }

pub stocked-FitsContext : FitsContext stocked
unfolding new_context intern_anon get insert TypeData-discrete ℕ_discrete get_type
stocked-FitsContext = record {
  interned =
      IsInterned-singletons typed stocked refl refl refl
        (intern_anon_lem new_context (function 4 (4 ∷ 4 ∷ []) false) (omega arith) tt
          new_context-IsInterned).0;
  starts =
      (intern_anon_lem new_context (function 4 (4 ∷ 4 ∷ []) false) (omega arith) tt
        new_context-IsInterned).2;
  type_room = omega arith;
  types_fit = (
    tt,
    (
      omega arith,
      (
        omega arith,
        (
          omega arith,
          (
            omega arith,
            (
              omega arith,
              (
                tt,
                (
                  tt,
                  (
                    tt,
                    (
                      tt,
                      (
                        (
                          (omega arith, refl),
                          (omega arith, ((omega arith, refl), ((omega arith, refl), tt))),
                        ),
                        tt,
                      ),
                    ),
                  ),
                ),
              ),
            ),
          ),
        ),
      ),
    ),
  );
  const_room = omega arith;
  consts_fit = (
    ((omega arith, refl), omega arith),
    (((omega arith, refl), (omega arith, ((omega arith, refl), ((omega arith, refl), tt)))), tt),
  );
}

abbrev pub counter : GlobalVariable
counter = record {
  name = "n";
  ty = 4;
  initializer = some 0;
  is_constant = false;
  linkage = internal;
}

abbrev pub program : Module
program = record (new_module "m") { globals = counter ∷ []; functions = dead_add ∷ [] }

pub program-FitsModule : FitsModule stocked program
unfolding new_context intern_anon get insert TypeData-discrete ℕ_discrete as_bytes new_module
program-FitsModule = record {
  name_fits = omega arith;
  globals_fit = (omega arith, (((omega arith, refl), (omega arith, refl), omega arith), tt));
  functions_fit = (
    omega arith,
    (
      (
        omega arith,
        (omega arith, refl),
        (omega arith, tt),
        (omega arith, ((omega arith, (omega arith, (omega arith, tt)), omega arith), tt)),
        (
          omega arith,
          (
            (tt, (omega arith, refl), (omega arith, omega arith)),
            ((tt, (omega arith, refl), omega arith), tt),
          ),
        ),
      ),
      tt,
    ),
  );
}

read_bitcode-write_bitcode_example :
    (ctx' : Context) × (m' : Module) × Reads read_bitcode (write_bitcode stocked program) (ctx', m')
    × IsRereadContext stocked ctx'
    × IsRereadModule program m'
read_bitcode-write_bitcode_example =
    read_bitcode-write_bitcode stocked program stocked-FitsContext program-FitsModule

-- A module that has a function of that name already.
abbrev one_function : Module
one_function = (add_function (new_module "m") dead_add).0

few_functions : length one_function.functions < 2 ^ 32
unfolding new_module add_function
few_functions = omega arith

one_function-NamesResolve : NamesResolve one_function
one_function-NamesResolve =
    (add_function-NamesResolve (new_module "m") dead_add no_functions
      (new_module-NamesResolve "m")).0

add_function-refines_example :
    view (add_function one_function dead_add).0 "g" ≡ update (view one_function) "f" dead_add "g"
add_function-refines_example =
    add_function-refines one_function dead_add "g" few_functions one_function-NamesResolve
