-- ===== src/Ir/Constants.antt =====
-- llvm-ir/src/context.rs: the constants of the context. An index out of range, where the source
-- panics, is `none`.
pub mod Laws
use Prim.Native.Nat.{ℕ}
use mathlib.Core.List.{[], ◌∷◌, ◌++◌}
use mathlib.Core.Option
use mathlib.Core.Option.{Option, none, some}
use llvm_in_rust.Base.{length, get_elem?}
use llvm_in_rust.Base.Machine.{as_u32}
use llvm_in_rust.Base.Maps.{get, insert}
use llvm_in_rust.Ir.Ids.{TypeId, ConstId}
use llvm_in_rust.Ir.Value.{ConstantData}
use llvm_in_rust.Ir.Context.{
  Context, ConstantKey, ConstantKey-discrete, int, float, null, undef, poison, zero_initializer,
}

-- The entry of the pool for a key. `const_int`, `const_float`, `const_null`, `const_undef`,
-- `const_poison` and `const_zero` share their body, at a key of their own.
unfoldable pub key_data : ConstantKey → ConstantData
key_data (int ty val) = ConstantData.int ty val
key_data (float ty bits) = ConstantData.float ty bits
key_data (null ty) = ConstantData.null ty
key_data (undef ty) = ConstantData.undef ty
key_data (poison ty) = ConstantData.poison ty
key_data (zero_initializer ty) = ConstantData.zero_initializer ty

unfoldable pub intern_const : Context → ConstantKey → Context × ConstId
intern_const ctx key = elim (get ConstantKey-discrete key ctx.const_map) [
  | some id ↦ (ctx, id)
  | none ↦
      let id = as_u32 (length ctx.constants) in
      (
        record ctx {
          constants = ctx.constants ++ key_data key ∷ [];
          const_map = insert ConstantKey-discrete key id ctx.const_map;
        },
        id,
      )
]

unfoldable pub const_int : Context → TypeId → ℕ → Context × ConstId
const_int ctx ty val = intern_const ctx (int ty val)

unfoldable pub const_float : Context → TypeId → ℕ → Context × ConstId
const_float ctx ty bits = intern_const ctx (float ty bits)

unfoldable pub const_null : Context → TypeId → Context × ConstId
const_null ctx ty = intern_const ctx (null ty)

unfoldable pub const_undef : Context → TypeId → Context × ConstId
const_undef ctx ty = intern_const ctx (undef ty)

unfoldable pub const_poison : Context → TypeId → Context × ConstId
const_poison ctx ty = intern_const ctx (poison ty)

unfoldable pub const_zero : Context → TypeId → Context × ConstId
const_zero ctx ty = intern_const ctx (zero_initializer ty)

unfoldable pub push_const : Context → ConstantData → Context × ConstId
push_const ctx c =
    (record ctx { constants = ctx.constants ++ c ∷ [] }, as_u32 (length ctx.constants))

unfoldable pub get_const : Context → ConstId → Option ConstantData
get_const ctx id = get_elem? ctx.constants id

unfoldable pub type_of_data : ConstantData → TypeId
type_of_data (ConstantData.int ty _) = ty
type_of_data (ConstantData.int_wide ty _) = ty
type_of_data (ConstantData.float ty _) = ty
type_of_data (ConstantData.null ty) = ty
type_of_data (ConstantData.undef ty) = ty
type_of_data (ConstantData.poison ty) = ty
type_of_data (ConstantData.zero_initializer ty) = ty
type_of_data (ConstantData.array ty _) = ty
type_of_data (ConstantData.struct ty _) = ty
type_of_data (ConstantData.vector ty _) = ty
type_of_data (ConstantData.global_ref ty _ _) = ty
type_of_data (ConstantData.expr ty _ _) = ty

unfoldable pub type_of_const : Context → ConstId → Option TypeId
type_of_const ctx id = Option.map type_of_data (get_elem? ctx.constants id)
