-- ===== src/Ir/Module/Laws.antt =====
-- llvm-ir/src/module.rs: the tables of names of a module lead to what bears the name.
use Prim.Native.String.{String}
use llvm_in_rust.Base.{
  ℕ, ◌<◌, ◌^◌, ◌≡◌, refl, sym, ap, ◌∙◌, inl, inr, List, [], ◌∷◌, ◌++◌, some, length, get_elem?,
  get_elem?-append_last, get_elem?-append_left,
}
use llvm_in_rust.Base.Machine.{as_u32_lem}
use llvm_in_rust.Base.Maps.{HashMap, get, insert, get-insert_self, get-insert_cases}
use llvm_in_rust.Base.Text.{String-discrete}
use llvm_in_rust.Ir.Ids.{FunctionId, GlobalId}
use llvm_in_rust.Ir.Value.{GlobalVariable}
use llvm_in_rust.Ir.Function.{Function}
use llvm_in_rust.Ir.Module.{Module, new_module, add_function, get_function, add_global, get_global}

-- Every name of a table leads to an element of the list that bears it.
module _ {A : Type 0} (name_of : A → String) where
  abbrev Resolves : HashMap String ℕ → List A → Type 0
  Resolves names xs =
      (n : String) (id : ℕ)
      → get String-discrete n names ≡ some id
      → (x : A) × (get_elem? xs id ≡ some x) × (name_of x ≡ n)

  Resolves-push :
      (names : HashMap String ℕ) (xs : List A) (x : A)
      → Resolves names xs
      → Resolves (insert String-discrete (name_of x) (length xs) names) (xs ++ x ∷ [])
  Resolves-push names xs x h n id e =
      elim (get-insert_cases String-discrete (name_of x) n (length xs) names e) [
        | inl (same, last) ↦
            (x, ap (get_elem? (xs ++ x ∷ [])) (sym last) ∙ get_elem?-append_last xs x, same)
        | inr (_, old) ↦
            let (y, at, named) = h n id old in (y, get_elem?-append_left xs (x ∷ []) id at, named)
      ]

function_name : Function → String
function_name f = f.name

global_name : GlobalVariable → String
global_name gv = gv.name

-- Both tables of names are right.
pub record NamesResolve (m : Module) : Type 0 where
  pub functions_resolve :
      (n : String) (id : FunctionId)
      → get String-discrete n m.function_names ≡ some id
      → (f : Function) × (get_elem? m.functions id ≡ some f) × (f.name ≡ n)
  pub globals_resolve :
      (n : String) (id : GlobalId)
      → get String-discrete n m.global_names ≡ some id
      → (gv : GlobalVariable) × (get_elem? m.globals id ≡ some gv) × (gv.name ≡ n)

pub new_module-NamesResolve : (name : String) → NamesResolve (new_module name)
unfolding new_module get
new_module-NamesResolve name = record {
  functions_resolve = λ n id e. absurd (cc);
  globals_resolve = λ n id e. absurd (cc);
}

-- Adding a function keeps the tables of names right, and its name finds it, while there is room for
-- a u32 index.
pub add_function-NamesResolve :
    (m : Module) (f : Function)
    → length m.functions < 2 ^ 32
    → NamesResolve m
    → NamesResolve (add_function m f).0
      × (get_function (add_function m f).0 f.name ≡ some (some ((add_function m f).1, f)))
unfolding add_function get_function function_name
add_function-NamesResolve m f room h = rw (as_u32_lem (length m.functions) room) (
  record {
    functions_resolve =
        Resolves-push function_name m.function_names m.functions f h.functions_resolve;
    globals_resolve = h.globals_resolve;
  },
  rw
      (
        get-insert_self String-discrete f.name (length m.functions) m.function_names,
        get_function,
        get_elem?-append_last m.functions f,
      )
      refl,
)

-- Adding a global variable keeps the tables of names right, and its name finds it, while there is
-- room for a u32 index.
pub add_global-NamesResolve :
    (m : Module) (gv : GlobalVariable)
    → length m.globals < 2 ^ 32
    → NamesResolve m
    → NamesResolve (add_global m gv).0
      × (get_global (add_global m gv).0 gv.name ≡ some (some ((add_global m gv).1, gv)))
unfolding add_global get_global global_name
add_global-NamesResolve m gv room h = rw (as_u32_lem (length m.globals) room) (
  record {
    functions_resolve = h.functions_resolve;
    globals_resolve = Resolves-push global_name m.global_names m.globals gv h.globals_resolve;
  },
  rw
      (
        get-insert_self String-discrete gv.name (length m.globals) m.global_names,
        get_global,
        get_elem?-append_last m.globals gv,
      )
      refl,
)
