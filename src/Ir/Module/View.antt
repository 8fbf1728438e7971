-- ===== src/Ir/Module/View.antt =====
-- llvm-ir/src/module.rs: a module as a partial map from names to functions.
use Prim.Native.String.{String}
use llvm_in_rust.Base.{
  ◌<◌, ◌^◌, ◌≡◌, ◌≢◌, refl, sym, ap, ◌∙◌, inl, inr, [], ◌∷◌, Option, none, some, length, get_elem?,
  get_elem?-append_last, get_elem?-append_left, Option-cases,
}
use llvm_in_rust.Base.Machine.{as_u32, as_u32_lem}
use llvm_in_rust.Base.Maps.{get, insert, get-insert_self, get-insert_ne}
use llvm_in_rust.Base.Text.{String-discrete}
use llvm_in_rust.Ir.Ids.{FunctionId}
use llvm_in_rust.Ir.Function.{Function}
use llvm_in_rust.Ir.Module.{Module, add_function, get_function}
use llvm_in_rust.Ir.Module.Laws.{NamesResolve}

-- The abstract view: what a name stands for, without the indices.
abbrev pub PartialMap : Type 0
PartialMap = String → Option Function

unfoldable pub view_of : Option (Option (FunctionId × Function)) → Option Function
view_of (some (some (_, f))) = some f
view_of _ = none

unfoldable pub view : Module → PartialMap
unfolding view_of
view m n = view_of (get_function m n)

-- The map with the function of a name replaced.
unfoldable pub update : PartialMap → String → Function → PartialMap
update v name f n = elim (String-discrete name n) [ yes _ ↦ some f | no _ ↦ v n ]

view-some :
    (m : Module) (n : String) (id : FunctionId) (f : Function)
    → get String-discrete n m.function_names ≡ some id
    → get_elem? m.functions id ≡ some f
    → view m n ≡ some f
unfolding view view_of get_function
view-some m n id f e at = rw (view, get_function, e, at, view_of) refl

view-none :
    (m : Module) (n : String) → get String-discrete n m.function_names ≡ none → view m n ≡ none
unfolding view view_of get_function
view-none m n e = rw (view, get_function, e, view_of) refl

update_other :
    (v : PartialMap) (name : String) (f : Function) (n : String)
    → name ≢ n
    → update v name f n ≡ v n
unfolding update
update_other v name f n ne =
    elim (String-discrete name n)
      as (λ d. elim d as (λ _. Option Function) [ yes _ ↦ some f | no _ ↦ v n ] ≡ v n) [
        | yes e ↦ absurd (ne e)
        | no _ ↦ refl
      ]

update_same :
    (v : PartialMap) (name : String) (f : Function) (n : String)
    → name ≡ n
    → update v name f n ≡ some f
unfolding update
update_same v name f n e =
    elim (String-discrete name n)
      as (λ d. elim d as (λ _. Option Function) [ yes _ ↦ some f | no _ ↦ v n ] ≡ some f) [
        | yes _ ↦ refl
        | no ne ↦ absurd (ne e)
      ]

module _ (m : Module) (f : Function) (n : String) (room : length m.functions < 2 ^ 32)
    (h : NamesResolve m) where
  view_added : f.name ≡ n → view (add_function m f).0 n ≡ some f
  unfolding add_function
  view_added e =
      view-some (add_function m f).0 n (length m.functions) f
        (rw (as_u32_lem (length m.functions) room) (
          ap
            (λ (x : String).
              get String-discrete x
                (insert String-discrete f.name (length m.functions) m.function_names))
            (sym e)
          ∙ get-insert_self String-discrete f.name (length m.functions) m.function_names))
        (get_elem?-append_last m.functions f)

  view_kept : f.name ≢ n → view (add_function m f).0 n ≡ view m n
  unfolding add_function
  view_kept ne =
      let same =
        get-insert_ne String-discrete f.name n (as_u32 (length m.functions)) m.function_names ne in
      elim (Option-cases (get String-discrete n m.function_names)) [
        | inl e ↦ view-none (add_function m f).0 n (same ∙ e) ∙ sym (view-none m n e)
        | inr (id, e) ↦
            let (g, at, _) = h.functions_resolve n id e in
            view-some (add_function m f).0 n id g (same ∙ e)
              (get_elem?-append_left m.functions (f ∷ []) id at)
            ∙ sym (view-some m n id g e at)
      ]

-- A module refines a partial map from names to functions: adding a function to a module whose
-- tables of names are right replaces what its name stands for and nothing else, while there is room
-- for a u32 index.
pub add_function-refines :
    (m : Module) (f : Function) (n : String)
    → length m.functions < 2 ^ 32
    → NamesResolve m
    → view (add_function m f).0 n ≡ update (view m) f.name f n
add_function-refines m f n room h = elim (String-discrete f.name n) [
  | yes e ↦ view_added m f n room h e ∙ sym (update_same (view m) f.name f n e)
  | no ne ↦ view_kept m f n room h ne ∙ sym (update_other (view m) f.name f n ne)
]
