-- ===== src/Ir/Module.antt =====
-- llvm-ir/src/module.rs: the top-level module with its globals, functions and metadata. An index out
-- of range, where the source panics, is `none`.
pub mod Laws
pub mod View
use Prim.Native.Nat.{ℕ}
use Prim.Native.String.{String}
use native.Mathlib.Decide.{ℕ_discrete}
use mathlib.Core.Bool.{Bool, true, false}
use mathlib.Core.List.{List, [], ◌∷◌, ◌++◌}
use mathlib.Core.Option
use mathlib.Core.Option.{Option, none, some}
use text.Mathlib.Text.{◌==◌ as str_eq}
use llvm_in_rust.Base.{length, get_elem?, if◌then◌else◌}
use llvm_in_rust.Base.Machine.{as_u32}
use llvm_in_rust.Base.Maps.{HashMap, get, insert}
use llvm_in_rust.Base.Text.{String-discrete}
use llvm_in_rust.Ir.Ids.{TypeId, FunctionId, GlobalId}
use llvm_in_rust.Ir.Value.{GlobalVariable}
use llvm_in_rust.Ir.Function.{Function}

pub record DebugLocation : Type 0 where
  pub line : ℕ
  pub column : ℕ

pub record Module : Type 0 where
  pub name : String
  pub source_filename : Option String
  pub target_triple : Option String
  pub data_layout : Option String
  pub globals : List GlobalVariable
  pub functions : List Function
  pub function_names : HashMap String FunctionId
  pub global_names : HashMap String GlobalId
  pub named_types : List (String × TypeId)
  pub debug_locations : HashMap ℕ DebugLocation
  pub metadata_nodes : HashMap ℕ String
  pub named_metadata : List (String × String)

unfoldable pub new_module : String → Module
new_module name = record {
  name = name;
  source_filename = none;
  target_triple = none;
  data_layout = none;
  globals = [];
  functions = [];
  function_names = [];
  global_names = [];
  named_types = [];
  debug_locations = [];
  metadata_nodes = [];
  named_metadata = [];
}

unfoldable pub add_function : Module → Function → Module × FunctionId
add_function m f =
    let id = as_u32 (length m.functions) in
    (
      record m {
        function_names = insert String-discrete f.name id m.function_names;
        functions = m.functions ++ f ∷ [];
      },
      id,
    )

unfoldable pub get_function_id : Module → String → Option FunctionId
get_function_id m name = get String-discrete name m.function_names

-- The outer `Option` is the index out of range, the inner one is the source's.
unfoldable pub get_function : Module → String → Option (Option (FunctionId × Function))
get_function m name = elim (get String-discrete name m.function_names) [
  | none ↦ some none
  | some id ↦ Option.map (λ f. some (id, f)) (get_elem? m.functions id)
]

unfoldable pub add_global : Module → GlobalVariable → Module × GlobalId
add_global m gv =
    let id = as_u32 (length m.globals) in
    (
      record m {
        global_names = insert String-discrete gv.name id m.global_names;
        globals = m.globals ++ gv ∷ [];
      },
      id,
    )

unfoldable pub get_global_id : Module → String → Option GlobalId
get_global_id m name = get String-discrete name m.global_names

-- The outer `Option` is the index out of range, the inner one is the source's.
unfoldable pub get_global : Module → String → Option (Option (GlobalId × GlobalVariable))
get_global m name = elim (get String-discrete name m.global_names) [
  | none ↦ some none
  | some id ↦ Option.map (λ gv. some (id, gv)) (get_elem? m.globals id)
]

unfoldable pub is_named : String → List (String × TypeId) → Bool
is_named name [] = false
is_named name ((n, _) ∷ types) = if str_eq n name then true else is_named name types

unfoldable pub register_named_type : Module → String → TypeId → Module
unfolding is_named
register_named_type m name ty =
    if is_named name m.named_types
    then m
    else record m { named_types = m.named_types ++ (name, ty) ∷ [] }

unfoldable pub set_debug_location : Module → ℕ → DebugLocation → Module
set_debug_location m id loc = record m {
  debug_locations = insert ℕ_discrete id loc m.debug_locations;
}

unfoldable pub set_metadata_node : Module → ℕ → String → Module
set_metadata_node m id value = record m {
  metadata_nodes = insert ℕ_discrete id value m.metadata_nodes;
}

-- The first entry of that name gets the value; without one, an entry is pushed.
unfoldable pub set_entry : String → String → List (String × String) → List (String × String)
set_entry name value [] = (name, value) ∷ []
set_entry name value ((n, v) ∷ more) =
    let rest = set_entry name value more in
    if str_eq n name then (n, value) ∷ more else (n, v) ∷ rest

unfoldable pub set_named_metadata : Module → String → String → Module
unfolding set_entry
set_named_metadata m name value = record m {
  named_metadata = set_entry name value m.named_metadata;
}
