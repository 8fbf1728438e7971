-- ===== src/Ir/Context.antt =====
-- llvm-ir/src/context.rs: the tables of the context, and its operations on types. An operation returns the new context
-- and its result. An index out of range, where the source panics, is `none`.
pub mod Laws
pub mod Named
pub mod Fresh
use Prim.Native.Nat.{ℕ}
use Prim.Native.String.{String}
use native.Mathlib.Decide.{ℕ_discrete}
use mathlib.Core.Bool.{Bool, true, false}
use mathlib.Core.List.{List, [], ◌∷◌, ◌++◌}
use mathlib.Core.Option
use mathlib.Core.Option.{Option, none, some}
use llvm_in_rust.Base.{length, get_elem?, set}
use llvm_in_rust.Base.Machine.{as_u32}
use llvm_in_rust.Base.Maps.{HashMap, get, insert}
use llvm_in_rust.Base.Text.{String-discrete}
use llvm_in_rust.Ir.Ids.{TypeId, ConstId}
use llvm_in_rust.Ir.Types.{FloatKind, TypeData, TypeData-discrete}
use llvm_in_rust.Ir.Value.{ConstantData}

pub data ConstantKey : Type 0 where
  int float : TypeId → ℕ → ConstantKey
  null undef poison zero_initializer : TypeId → ConstantKey

unfoldable pub ConstantKey-discrete : Discrete ConstantKey
ConstantKey-discrete = hlevel ℕ_discrete

pub record Context : Type 0 where
  pub types : List TypeData
  pub type_map : HashMap TypeData TypeId
  pub named_struct_map : HashMap String TypeId
  pub constants : List ConstantData
  pub const_map : HashMap ConstantKey ConstId
  pub void_ty : TypeId
  pub i1_ty : TypeId
  pub i8_ty : TypeId
  pub i16_ty : TypeId
  pub i32_ty : TypeId
  pub i64_ty : TypeId
  pub f32_ty : TypeId
  pub f64_ty : TypeId
  pub ptr_ty : TypeId
  pub label_ty : TypeId

unfoldable pub intern_anon : Context → TypeData → Context × TypeId
intern_anon ctx td = elim (get TypeData-discrete td ctx.type_map) [
  | some id ↦ (ctx, id)
  | none ↦
      let id = as_u32 (length ctx.types) in
      (
        record ctx {
          types = ctx.types ++ td ∷ [];
          type_map = insert TypeData-discrete td id ctx.type_map;
        },
        id,
      )
]

-- Before the singletons are interned.
abbrev pub empty_context : Context
empty_context = record {
  types = [];
  type_map = [];
  named_struct_map = [];
  constants = [];
  const_map = [];
  void_ty = 0;
  i1_ty = 0;
  i8_ty = 0;
  i16_ty = 0;
  i32_ty = 0;
  i64_ty = 0;
  f32_ty = 0;
  f64_ty = 0;
  ptr_ty = 0;
  label_ty = 0;
}

unfoldable pub new_context : Context
new_context =
    let (c1, void_ty) = intern_anon empty_context TypeData.void in
    let (c2, i1_ty) = intern_anon c1 (TypeData.integer 1) in
    let (c3, i8_ty) = intern_anon c2 (TypeData.integer 8) in
    let (c4, i16_ty) = intern_anon c3 (TypeData.integer 16) in
    let (c5, i32_ty) = intern_anon c4 (TypeData.integer 32) in
    let (c6, i64_ty) = intern_anon c5 (TypeData.integer 64) in
    let (c7, f32_ty) = intern_anon c6 (TypeData.float FloatKind.single) in
    let (c8, f64_ty) = intern_anon c7 (TypeData.float FloatKind.double) in
    let (c9, ptr_ty) = intern_anon c8 TypeData.pointer in
    let (c10, label_ty) = intern_anon c9 TypeData.label in
    record c10 {
      void_ty = void_ty;
      i1_ty = i1_ty;
      i8_ty = i8_ty;
      i16_ty = i16_ty;
      i32_ty = i32_ty;
      i64_ty = i64_ty;
      f32_ty = f32_ty;
      f64_ty = f64_ty;
      ptr_ty = ptr_ty;
      label_ty = label_ty;
    }

unfoldable pub mk_int : Context → ℕ → Context × TypeId
mk_int ctx bits = intern_anon ctx (TypeData.integer bits)

unfoldable pub mk_float : Context → FloatKind → Context × TypeId
mk_float ctx kind = intern_anon ctx (TypeData.float kind)

unfoldable pub mk_ptr : Context → Context × TypeId
mk_ptr ctx = (ctx, ctx.ptr_ty)

unfoldable pub mk_label : Context → Context × TypeId
mk_label ctx = (ctx, ctx.label_ty)

unfoldable pub mk_metadata : Context → Context × TypeId
mk_metadata ctx = intern_anon ctx TypeData.metadata

unfoldable pub mk_array : Context → TypeId → ℕ → Context × TypeId
mk_array ctx element len = intern_anon ctx (TypeData.array element len)

unfoldable pub mk_vector : Context → TypeId → ℕ → Bool → Context × TypeId
mk_vector ctx element len scalable = intern_anon ctx (TypeData.vector element len scalable)

unfoldable pub mk_fn_type : Context → TypeId → List TypeId → Bool → Context × TypeId
mk_fn_type ctx ret params variadic = intern_anon ctx (TypeData.function ret params variadic)

unfoldable pub mk_struct_anon : Context → List TypeId → Bool → Context × TypeId
mk_struct_anon ctx fields packed = intern_anon ctx (TypeData.struct none fields packed)

unfoldable pub mk_struct_named : Context → String → Context × TypeId
mk_struct_named ctx name = elim (get String-discrete name ctx.named_struct_map) [
  | some id ↦ (ctx, id)
  | none ↦
      let id = as_u32 (length ctx.types) in
      (
        record ctx {
          types = ctx.types ++ TypeData.struct (some name) [] false ∷ [];
          named_struct_map = insert String-discrete name id ctx.named_struct_map;
        },
        id,
      )
]

-- A type that is no struct is left as it is.
unfoldable pub with_body : TypeData → List TypeId → Bool → TypeData
with_body (TypeData.struct name _ _) fields packed = TypeData.struct name fields packed
with_body td fields packed = td

unfoldable pub define_struct_body : Context → TypeId → List TypeId → Bool → Option Context
define_struct_body ctx id fields packed = elim (get_elem? ctx.types id) [
  | none ↦ none
  | some td ↦ some (record ctx { types = set ctx.types id (with_body td fields packed) })
]

unfoldable pub get_named_struct : Context → String → Option TypeId
get_named_struct ctx name = get String-discrete name ctx.named_struct_map

unfoldable pub get_type : Context → TypeId → Option TypeData
get_type ctx id = get_elem? ctx.types id

unfoldable pub num_types : Context → ℕ
num_types ctx = length ctx.types
