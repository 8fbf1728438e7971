-- ===== src/Ir/Constants/Laws.antt =====
-- llvm-ir/src/context.rs: the table of constants stays consistent, and a scalar constant has one
-- index.
use llvm_in_rust.Base.{
  ◌<◌, ◌^◌, ◌≡◌, refl, sym, ap, ◌∙◌, inl, inr, [], ◌∷◌, ◌++◌, Option, none, some, Option-cases,
  length, get_elem?, get_elem?-append_last, get_elem?-append_left, get_elem?-snoc,
}
use llvm_in_rust.Base.Machine.{as_u32_lem}
use llvm_in_rust.Base.Maps.{
  get, insert, get-insert_self, get-insert_ne, get-insert_cases, some_injective,
}
use llvm_in_rust.Ir.Ids.{ConstId}
use llvm_in_rust.Ir.Value.{ConstantData}
use llvm_in_rust.Ir.Context.{
  Context, ConstantKey, ConstantKey-discrete, int, float, null, undef, poison, zero_initializer,
}
use llvm_in_rust.Ir.Constants.{key_data, intern_const, push_const, get_const}

-- The key of a scalar constant.
abbrev pub key_of : ConstantData → Option ConstantKey
key_of (ConstantData.int ty val) = some (int ty val)
key_of (ConstantData.float ty bits) = some (float ty bits)
key_of (ConstantData.null ty) = some (null ty)
key_of (ConstantData.undef ty) = some (undef ty)
key_of (ConstantData.poison ty) = some (poison ty)
key_of (ConstantData.zero_initializer ty) = some (zero_initializer ty)
key_of _ = none

pub key_of-key_data : (key : ConstantKey) → key_of (key_data key) ≡ some key
unfolding key_data
key_of-key_data (int ty val) = refl
key_of-key_data _ = refl

-- The map and the table of constants say the same.
pub record IsPooled (ctx : Context) : Type 0 where
  pub sound :
      (key : ConstantKey) (id : ConstId)
      → get ConstantKey-discrete key ctx.const_map ≡ some id
      → get_elem? ctx.constants id ≡ some (key_data key)
  pub complete :
      (key : ConstantKey) (c : ConstantData) (id : ConstId)
      → get_elem? ctx.constants id ≡ some c
      → key_of c ≡ some key
      → get ConstantKey-discrete key ctx.const_map ≡ some id

-- Every index that was in use keeps its constant.
abbrev pub KeepsConstants : Context → Context → Type 0
KeepsConstants ctx ctx' =
    (id : ConstId) (c : ConstantData) → get_const ctx id ≡ some c → get_const ctx' id ≡ some c

-- In a consistent table two indices with the same scalar constant are the same index.
pub get_const_injective :
    (ctx : Context) (i j : ConstId) (key : ConstantKey)
    → IsPooled ctx
    → get_const ctx i ≡ some (key_data key)
    → get_const ctx j ≡ some (key_data key)
    → i ≡ j
unfolding get_const
get_const_injective ctx i j key h p q = some_injective (
    sym (h.complete key (key_data key) i p (key_of-key_data key))
    ∙ h.complete key (key_data key) j q (key_of-key_data key))

abbrev with_const : Context → ConstantKey → Context
with_const ctx key = record ctx {
  constants = ctx.constants ++ key_data key ∷ [];
  const_map = insert ConstantKey-discrete key (length ctx.constants) ctx.const_map;
}

with_const-IsPooled :
    (ctx : Context) (key : ConstantKey)
    → get ConstantKey-discrete key ctx.const_map ≡ none
    → IsPooled ctx
    → IsPooled (with_const ctx key)
with_const-IsPooled ctx key fresh h =
    let n = length ctx.constants in
    record {
      sound = λ k id e. elim (get-insert_cases ConstantKey-discrete key k n ctx.const_map e) [
        | inl (same, last) ↦
            rw (← last, ← same) (get_elem?-append_last ctx.constants (key_data key))
        | inr (_, old) ↦
            get_elem?-append_left ctx.constants (key_data key ∷ []) id (h.sound k id old)
      ];
      complete = λ k c id e keyed. elim (get_elem?-snoc ctx.constants (key_data key) id e) [
        | inl old ↦
            let known = h.complete k c id old keyed in
            get-insert_ne ConstantKey-discrete key k n ctx.const_map
              (λ same. cc (known, fresh, ap (λ x. get ConstantKey-discrete x ctx.const_map) same))
            ∙ known
        | inr (last, same) ↦
            rw (last, some_injective (sym keyed ∙ ap key_of same ∙ key_of-key_data key))
              (get-insert_self ConstantKey-discrete key n ctx.const_map)
      ];
    }

pub intern_const_known :
    (ctx : Context) (key : ConstantKey) (id : ConstId)
    → get ConstantKey-discrete key ctx.const_map ≡ some id
    → intern_const ctx key ≡ (ctx, id)
unfolding intern_const
intern_const_known ctx key id e = rw (e, intern_const)

intern_const_new :
    (ctx : Context) (key : ConstantKey)
    → length ctx.constants < 2 ^ 32
    → get ConstantKey-discrete key ctx.const_map ≡ none
    → intern_const ctx key ≡ (with_const ctx key, length ctx.constants)
unfolding intern_const
intern_const_new ctx key room e = rw (e, intern_const, as_u32_lem (length ctx.constants) room)

-- `const_int` and the other scalar constructors: the table stays consistent, the index leads to the
-- constant, a second call gives the same index, and every other index keeps its constant, while the
-- table has room for a u32 index.
pub intern_const_lem :
    (ctx : Context) (key : ConstantKey)
    → length ctx.constants < 2 ^ 32
    → IsPooled ctx
    → IsPooled (intern_const ctx key).0
      × (get_const (intern_const ctx key).0 (intern_const ctx key).1 ≡ some (key_data key))
      × (intern_const (intern_const ctx key).0 key ≡ intern_const ctx key)
      × KeepsConstants ctx (intern_const ctx key).0
unfolding get_const
intern_const_lem ctx key room h = elim (Option-cases (get ConstantKey-discrete key ctx.const_map)) [
  | inr (id, e) ↦
      rw (intern_const_known ctx key id e)
        (h, h.sound key id e, intern_const_known ctx key id e, λ k c at. at)
  | inl e ↦
      let n = length ctx.constants in
      rw (intern_const_new ctx key room e) (
        with_const-IsPooled ctx key e h,
        get_elem?-append_last ctx.constants (key_data key),
        intern_const_known (with_const ctx key) key n
            (get-insert_self ConstantKey-discrete key n ctx.const_map),
        λ k c at. get_elem?-append_left ctx.constants (key_data key ∷ []) k at,
      )
]

-- Pushing a constant that is no scalar keeps the table consistent and leads to the constant.
pub push_const_lem :
    (ctx : Context) (c : ConstantData)
    → length ctx.constants < 2 ^ 32
    → key_of c ≡ none
    → IsPooled ctx
    → IsPooled (push_const ctx c).0
      × (get_const (push_const ctx c).0 (push_const ctx c).1 ≡ some c)
      × KeepsConstants ctx (push_const ctx c).0
unfolding push_const get_const
push_const_lem ctx c room scalar h = (
  record {
    sound = λ k id e. get_elem?-append_left ctx.constants (c ∷ []) id (h.sound k id e);
    complete = λ k d id e keyed. elim (get_elem?-snoc ctx.constants c id e) [
      | inl old ↦ h.complete k d id old keyed
      | inr (_, same) ↦ cc (keyed, scalar, ap key_of same)
    ];
  },
  rw (as_u32_lem (length ctx.constants) room) (get_elem?-append_last ctx.constants c),
  λ k d at. get_elem?-append_left ctx.constants (c ∷ []) k at,
)
