-- ===== src/Bitcode/Module/Types.antt =====
-- llvm-bitcode/src/reader.rs: interning the type table gives every type its index again.
use llvm_in_rust.Base.{ℕ, suc, ◌<◌, ◌^◌, ◌≡◌, ap, none, some, length}
use llvm_in_rust.Ir.Types.{
  TypeData, void, integer, float, pointer, array, vector, struct, function, label, metadata,
}
use llvm_in_rust.Ir.Context.{
  Context, mk_int, mk_float, mk_ptr, mk_label, mk_metadata, mk_array, mk_vector, mk_fn_type,
  mk_struct_anon, get_type,
}
use llvm_in_rust.Ir.Context.Laws.{IsInterned}
use llvm_in_rust.Bitcode.Module.{intern_type}
use llvm_in_rust.Bitcode.Module.Reached.{Reached, anon_step, singleton_step}
use llvm_in_rust.Bitcode.Module.Structs.{named_step}

module _ (ctx : Context) (wf : IsInterned ctx) (room : length ctx.types < 2 ^ 32) where
  -- Interning the next type of the table gives it the index that it has.
  pub intern_type-Reached :
      (c : Context) (k : ℕ) (td : TypeData)
      → get_type ctx k ≡ some td
      → Reached ctx k c
      → (c' : Context) × (intern_type c td ≡ some (c', k)) × Reached ctx (suc k) c'
  unfolding intern_type mk_int mk_float mk_ptr mk_label mk_metadata mk_array mk_vector mk_fn_type
      mk_struct_anon
  intern_type-Reached c k void at r =
      let (e, s) = singleton_step ctx wf room c k void c.void_ty at r (r.singletons.0) in
      (c, ap (λ i. some (c, i)) e, s)
  intern_type-Reached c k pointer at r =
      let (e, s) = singleton_step ctx wf room c k pointer c.ptr_ty at r (r.singletons.1) in
      (c, ap (λ i. some (c, i)) e, s)
  intern_type-Reached c k label at r =
      let (e, s) = singleton_step ctx wf room c k label c.label_ty at r (r.singletons.2) in
      (c, ap (λ i. some (c, i)) e, s)
  intern_type-Reached c k (struct (some name) fields packed) at r =
      named_step ctx wf room c k name fields packed at r
  intern_type-Reached c k (struct none fields packed) at r =
      let (c', e, s) = anon_step ctx wf room c k (struct none fields packed) tt at r in
      (c', ap some e, s)
  intern_type-Reached c k (integer bits) at r =
      let (c', e, s) = anon_step ctx wf room c k (integer bits) tt at r in (c', ap some e, s)
  intern_type-Reached c k (float kind) at r =
      let (c', e, s) = anon_step ctx wf room c k (float kind) tt at r in (c', ap some e, s)
  intern_type-Reached c k (array element len) at r =
      let (c', e, s) = anon_step ctx wf room c k (array element len) tt at r in (c', ap some e, s)
  intern_type-Reached c k (vector element len scalable) at r =
      let (c', e, s) = anon_step ctx wf room c k (vector element len scalable) tt at r in
      (c', ap some e, s)
  intern_type-Reached c k (function result params variadic) at r =
      let (c', e, s) = anon_step ctx wf room c k (function result params variadic) tt at r in
      (c', ap some e, s)
  intern_type-Reached c k metadata at r =
      let (c', e, s) = anon_step ctx wf room c k metadata tt at r in (c', ap some e, s)
