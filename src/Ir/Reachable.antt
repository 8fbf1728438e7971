-- ===== src/Ir/Reachable.antt =====
-- llvm-ir/src/context.rs: the contexts that `new` and the operations on types and constants reach.
-- What `get_type_mut` does to a type, a body given to a type that is no named struct, and a scalar
-- that is pushed past the map of constants, are no steps.
use Prim.Native.String.{String}
use mathlib.Core.Path.{subst}
use llvm_in_rust.Base.{
  ◌<◌, ◌^◌, ◌≡◌, refl, sym, ◌∙◌, inl, inr, List, none, some, Bool, Option-cases, length, get_elem?,
}
use native.Mathlib.Decide.{ℕ_discrete}
use llvm_in_rust.Base.Maps.{get, insert, some_injective}
use llvm_in_rust.Base.Text.{String-discrete}
use llvm_in_rust.Ir.Ids.{TypeId, ConstId}
use llvm_in_rust.Ir.Types.{TypeData, TypeData-discrete}
use llvm_in_rust.Ir.Value.{ConstantData}
use llvm_in_rust.Ir.Context.{
  Context, ConstantKey, ConstantKey-discrete, empty_context, new_context, intern_anon,
  mk_struct_named, define_struct_body, get_type, get_named_struct,
}
use llvm_in_rust.Ir.Context.Laws.{IsAnon, IsInterned, intern_anon_lem, get_type_injective}
use llvm_in_rust.Ir.Context.Named.{mk_struct_named_lem, define_struct_body_lem}
use llvm_in_rust.Ir.Context.Fresh.{IsInterned-singletons, new_context-IsInterned}
use llvm_in_rust.Ir.Constants.{key_data, intern_const, push_const, get_const}
use llvm_in_rust.Ir.Constants.Laws.{
  IsPooled, key_of, intern_const_lem, push_const_lem, get_const_injective, key_of-key_data,
  intern_const_known,
}

-- One call on a context, while the tables have room for a u32 index.
pub data ContextStep (ctx : Context) : Context → Type 0 where
  -- `mk_int`, `mk_array` and the other types but named structs
  anon :
      (td : TypeData)
      → length ctx.types < 2 ^ 32
      → IsAnon td
      → ContextStep ctx (intern_anon ctx td).0
  named : (name : String) → length ctx.types < 2 ^ 32 → ContextStep ctx (mk_struct_named ctx name).0
  body :
      (name : String) (id : TypeId) (fields : List TypeId) (packed : Bool) {ctx' : Context}
      → get_named_struct ctx name ≡ some id
      → define_struct_body ctx id fields packed ≡ some ctx'
      → ContextStep ctx ctx'
  -- `const_int` and the other scalar constants
  scalar :
      (key : ConstantKey) → length ctx.constants < 2 ^ 32 → ContextStep ctx (intern_const ctx key).0
  other :
      (c : ConstantData)
      → length ctx.constants < 2 ^ 32
      → key_of c ≡ none
      → ContextStep ctx (push_const ctx c).0

pub data ReachableContext : Context → Type 0 where
  start : ReachableContext new_context
  later : {c d : Context} → ReachableContext c → ContextStep c d → ReachableContext d

-- Both pairs of tables are consistent.
abbrev IsConsistent : Context → Type 0
IsConsistent ctx = IsInterned ctx × IsPooled ctx

-- The table of constants looks only at its own fields.
abbrev SameConstants : Context → Context → Type 0
SameConstants c d = (d.constants ≡ c.constants) × (d.const_map ≡ c.const_map)

SameConstants-IsPooled : (c d : Context) → SameConstants c d → IsPooled c → IsPooled d
SameConstants-IsPooled c d (p, q) h = record {
  sound = rw (p, q) h.sound;
  complete = rw (p, q) h.complete;
}

intern_anon-SameConstants :
    (ctx : Context) (td : TypeData) → SameConstants ctx (intern_anon ctx td).0
unfolding intern_anon
intern_anon-SameConstants ctx td = elim (Option-cases (get TypeData-discrete td ctx.type_map)) [
  | inl e ↦ rw (e, intern_anon) (refl, refl)
  | inr (id, e) ↦ rw (e, intern_anon) (refl, refl)
]

mk_struct_named-SameConstants :
    (ctx : Context) (name : String) → SameConstants ctx (mk_struct_named ctx name).0
unfolding mk_struct_named
mk_struct_named-SameConstants ctx name =
    elim (Option-cases (get String-discrete name ctx.named_struct_map)) [
      | inl e ↦ rw (e, mk_struct_named) (refl, refl)
      | inr (id, e) ↦ rw (e, mk_struct_named) (refl, refl)
    ]

empty-IsPooled : IsPooled empty_context
unfolding get
empty-IsPooled = record {
  sound = λ key id e. absurd (cc);
  complete = λ key c id e keyed. absurd (cc);
}

-- A new context has no constants.
new_context-SameConstants : SameConstants empty_context new_context
unfolding new_context intern_anon get insert TypeData-discrete ℕ_discrete
new_context-SameConstants = (refl, refl)

define_struct_body-SameConstants :
    (ctx : Context) (id : TypeId) (fields : List TypeId) (packed : Bool) (ctx' : Context)
    → define_struct_body ctx id fields packed ≡ some ctx'
    → SameConstants ctx ctx'
unfolding define_struct_body
define_struct_body-SameConstants ctx id fields packed ctx' e =
    elim (Option-cases (get_elem? ctx.types id)) [
      | inl at ↦ absurd (cc (rw (at, define_struct_body) at e))
      | inr (td, at) ↦ rw (← some_injective (rw (at, define_struct_body) at e)) (refl, refl)
    ]

intern_const_types :
    (ctx : Context) (key : ConstantKey)
    → ((intern_const ctx key).0.types ≡ ctx.types)
      × ((intern_const ctx key).0.type_map ≡ ctx.type_map)
      × ((intern_const ctx key).0.named_struct_map ≡ ctx.named_struct_map)
unfolding intern_const
intern_const_types ctx key = elim (Option-cases (get ConstantKey-discrete key ctx.const_map)) [
  | inl e ↦ rw (e, intern_const) (refl, refl, refl)
  | inr (id, e) ↦ rw (e, intern_const) (refl, refl, refl)
]

step-IsConsistent : {c d : Context} → ContextStep c d → IsConsistent c → IsConsistent d
unfolding get_named_struct get_type push_const
step-IsConsistent {c} (anon td room a) (t, k) = (
  (intern_anon_lem c td room a t).0,
  SameConstants-IsPooled c _ (intern_anon-SameConstants c td) k,
)
step-IsConsistent {c} (named name room) (t, k) = (
  (mk_struct_named_lem c name room t).0,
  SameConstants-IsPooled c _ (mk_struct_named-SameConstants c name) k,
)
step-IsConsistent {c} {d} (body name id fields packed found e) (t, k) =
    let (old, was, at) = t.named_sound name id found in
    let (d', e', t', _, _) = define_struct_body_lem c id name old fields was packed t at in
    (
      subst IsInterned (some_injective (sym e' ∙ e)) t',
      SameConstants-IsPooled c d (define_struct_body-SameConstants c id fields packed d e) k,
    )
step-IsConsistent {c} (scalar key room) (t, k) = (
  (let (p, q, r) = intern_const_types c key in IsInterned-singletons c _ p q r t),
  (intern_const_lem c key room k).0,
)
step-IsConsistent {c} (other x room keyless) (t, k) =
    (IsInterned-singletons c _ refl refl refl t, (push_const_lem c x room keyless k).0)

reachable-IsConsistent : {c : Context} → ReachableContext c → IsConsistent c
reachable-IsConsistent start = (
  new_context-IsInterned,
  SameConstants-IsPooled empty_context new_context new_context-SameConstants empty-IsPooled,
)
reachable-IsConsistent (later r s) = step-IsConsistent s (reachable-IsConsistent r)

-- In a context that `new` and calls of the operations on types and constants reach, each call while
-- the tables have room for a u32 index, `define_struct_body` only on the index that
-- `get_named_struct` gives for a name, and `push_const` only for constants that are no scalars, two
-- indices with the same type are the same index.
pub ReachableContext-types_distinct :
    (ctx : Context)
    → ReachableContext ctx
    → (i j : TypeId) (td : TypeData) → get_type ctx i ≡ some td
    → get_type ctx j ≡ some td
    → i ≡ j
ReachableContext-types_distinct ctx r i j td p q =
    get_type_injective ctx i j td (reachable-IsConsistent r).0 p q

-- In a context that `new` and calls of the operations on types and constants reach, each call while
-- the tables have room for a u32 index, `define_struct_body` only on the index that
-- `get_named_struct` gives for a name, and `push_const` only for constants that are no scalars, two
-- indices with the same scalar constant are the same index, and making the constant again gives
-- that index and leaves the context as it is.
pub ReachableContext-constants_distinct :
    (ctx : Context)
    → ReachableContext ctx
    → (i j : ConstId) (key : ConstantKey) → get_const ctx i ≡ some (key_data key)
    → get_const ctx j ≡ some (key_data key)
    → (i ≡ j) × (intern_const ctx key ≡ (ctx, i))
unfolding get_const
ReachableContext-constants_distinct ctx r i j key p q =
    let (_, k) = reachable-IsConsistent r in
    (
      get_const_injective ctx i j key k p q,
      intern_const_known ctx key i (k.complete key (key_data key) i p (key_of-key_data key)),
    )
