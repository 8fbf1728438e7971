-- ===== src/Ir/Context/Laws.antt =====
-- llvm-ir/src/context.rs: the tables of types stay consistent, and a type has one index.
use Prim.Native.String.{String}
use llvm_in_rust.Base.{
  ◌<◌, ◌^◌, ◌≡◌, ap, ◌∙◌, inl, inr, ◌⊎◌, List, [], ◌∷◌, ◌++◌, none, some, Bool, Option-cases,
  length, get_elem?, get_elem?-append_last, get_elem?-append_left, get_elem?-snoc,
}
use llvm_in_rust.Base.Machine.{as_u32_lem}
use llvm_in_rust.Base.Maps.{get, insert, get-insert_self, get-insert_ne, get-insert_cases}
use llvm_in_rust.Base.Text.{String-discrete}
use llvm_in_rust.Ir.Ids.{TypeId}
use llvm_in_rust.Ir.Types.{TypeData, struct, void, TypeData-discrete}
use llvm_in_rust.Ir.Context.{Context, intern_anon, get_type}

-- Every type but a struct with a name.
abbrev pub IsAnon : TypeData → Type 0
IsAnon (struct (some _) _ _) = ⊥
IsAnon _ = Unit

-- The two maps and the table of types say the same.
pub record IsInterned (ctx : Context) : Type 0 where
  pub map_sound :
      (td : TypeData) (id : TypeId)
      → get TypeData-discrete td ctx.type_map ≡ some id
      → (get_elem? ctx.types id ≡ some td) × IsAnon td
  pub map_complete :
      (td : TypeData) (id : TypeId)
      → get_elem? ctx.types id ≡ some td
      → IsAnon td
      → get TypeData-discrete td ctx.type_map ≡ some id
  pub named_sound :
      (name : String) (id : TypeId)
      → get String-discrete name ctx.named_struct_map ≡ some id
      → (fields : List TypeId) × (packed : Bool) × (get_elem? ctx.types id
          ≡ some (struct (some name) fields packed))
  pub named_complete :
      (name : String) (id : TypeId) (fields : List TypeId) (packed : Bool)
      → get_elem? ctx.types id ≡ some (struct (some name) fields packed)
      → get String-discrete name ctx.named_struct_map ≡ some id

-- Every index that was in use keeps its type.
abbrev pub KeepsTypes : Context → Context → Type 0
KeepsTypes ctx ctx' =
    (id : TypeId) (td : TypeData) → get_type ctx id ≡ some td → get_type ctx' id ≡ some td

-- In consistent tables two indices with the same type are the same index.
pub get_type_injective :
    (ctx : Context) (i j : TypeId) (td : TypeData)
    → IsInterned ctx
    → get_type ctx i ≡ some td
    → get_type ctx j ≡ some td
    → i ≡ j
unfolding get_type
get_type_injective ctx i j (struct (some name) fields packed) h p q =
    cc (h.named_complete name i fields packed p, h.named_complete name j fields packed q)
get_type_injective ctx i j (struct none fields packed) h p q = cc (
  h.map_complete (struct none fields packed) i p tt,
  h.map_complete (struct none fields packed) j q tt,
)
get_type_injective ctx i j void h p q = cc (h.map_complete void i p tt, h.map_complete void j q tt)
get_type_injective ctx i j td h p q = cc (h.map_complete td i p tt, h.map_complete td j q tt)

-- The context after a new anonymous type.
abbrev pub with_type : Context → TypeData → Context
with_type ctx td = record ctx {
  types = ctx.types ++ td ∷ [];
  type_map = insert TypeData-discrete td (length ctx.types) ctx.type_map;
}

pub with_type-IsInterned :
    (ctx : Context) (td : TypeData)
    → IsAnon td
    → get TypeData-discrete td ctx.type_map ≡ none
    → IsInterned ctx
    → IsInterned (with_type ctx td)
with_type-IsInterned ctx td anon fresh h = record {
  map_sound = λ t id e.
      elim (get-insert_cases TypeData-discrete td t (length ctx.types) ctx.type_map e) [
        | inl (same, last) ↦ rw (← last, ← same) (get_elem?-append_last ctx.types td, anon)
        | inr (_, old) ↦
            let (at, a) = h.map_sound t id old in
            (get_elem?-append_left ctx.types (td ∷ []) id at, a)
      ];
  map_complete = λ t id e a. elim (get_elem?-snoc ctx.types td id e) [
    | inl old ↦
        let known = h.map_complete t id old a in
        get-insert_ne TypeData-discrete td t (length ctx.types) ctx.type_map
          (λ same. cc (known, fresh, ap (λ x. get TypeData-discrete x ctx.type_map) same))
        ∙ known
    | inr (last, same) ↦
        rw (same, last) (get-insert_self TypeData-discrete td (length ctx.types) ctx.type_map)
  ];
  named_sound = λ name id e.
      let (fields, packed, at) = h.named_sound name id e in
      (fields, packed, get_elem?-append_left ctx.types (td ∷ []) id at);
  named_complete = λ name id fields packed e. elim (get_elem?-snoc ctx.types td id e) [
    | inl old ↦ h.named_complete name id fields packed old
    | inr (last, same) ↦ absurd (rw (← same) at anon)
  ];
}

-- Interning finds the type or pushes it.
pub intern_anon_cases :
    (ctx : Context) (td : TypeData)
    → length ctx.types < 2 ^ 32
    → ((id : TypeId) × (get TypeData-discrete td ctx.type_map ≡ some id)
        × (intern_anon ctx td ≡ (ctx, id)))
      ⊎ ((get TypeData-discrete td ctx.type_map ≡ none)
          × (intern_anon ctx td ≡ (with_type ctx td, length ctx.types)))
unfolding intern_anon
intern_anon_cases ctx td room = elim (Option-cases (get TypeData-discrete td ctx.type_map)) [
  | inl e ↦ inr (e, rw (e, intern_anon, as_u32_lem (length ctx.types) room))
  | inr (id, e) ↦ inl (id, e, rw (e, intern_anon))
]

-- Interning a type that is no named struct keeps the tables consistent, leads to the type, and
-- leaves every other index alone, while the table has room for a u32 index.
pub intern_anon_lem :
    (ctx : Context) (td : TypeData)
    → length ctx.types < 2 ^ 32
    → IsAnon td
    → IsInterned ctx
    → IsInterned (intern_anon ctx td).0
      × (get_type (intern_anon ctx td).0 (intern_anon ctx td).1 ≡ some td)
      × KeepsTypes ctx (intern_anon ctx td).0
unfolding get_type
intern_anon_lem ctx td room anon h = elim (intern_anon_cases ctx td room) [
  | inl (id, known, e) ↦ rw e (h, (h.map_sound td id known).0, λ k t at. at)
  | inr (fresh, e) ↦ rw e (
    with_type-IsInterned ctx td anon fresh h,
    get_elem?-append_last ctx.types td,
    λ k t at. get_elem?-append_left ctx.types (td ∷ []) k at,
  )
]
