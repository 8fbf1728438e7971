-- ===== src/Ir/Context/Named.antt =====
-- llvm-ir/src/context.rs: named structs, their bodies, and the context that `new` builds.
use Prim.Native.String.{String}
use llvm_in_rust.Base.{
  ◌<◌, ◌^◌, ◌≡◌, refl, sym, ap, ◌∙◌, ◌≢◌, inl, inr, ◌⊎◌, List, [], ◌∷◌, ◌++◌, none, some, Bool,
  false, Option-cases, length, get_elem?, set, get_elem?-lt, get_elem?-append_last,
  get_elem?-append_left, get_elem?-snoc, get_elem?-set_self, get_elem?-set_ne, get_elem?-set_cases,
}
use native.Mathlib.Decide.{ℕ_discrete}
use llvm_in_rust.Base.Machine.{as_u32_lem}
use llvm_in_rust.Base.Maps.{
  get, insert, get-insert_self, get-insert_ne, get-insert_cases, some_injective,
}
use llvm_in_rust.Base.Text.{String-discrete}
use llvm_in_rust.Ir.Ids.{TypeId}
use llvm_in_rust.Ir.Types.{TypeData, struct}
use llvm_in_rust.Ir.Context.{
  Context, mk_struct_named, with_body, define_struct_body, get_type, get_named_struct,
}
use llvm_in_rust.Ir.Context.Laws.{IsAnon, IsInterned, KeepsTypes}

struct_name :
    {n m : String} {fs gs : List TypeId} {p q : Bool}
    → struct (some n) fs p ≡ struct (some m) gs q
    → n ≡ m
struct_name e = cc

not-IsAnon :
    (t : TypeData) {n : String} {fs : List TypeId} {p : Bool}
    → struct (some n) fs p ≡ t
    → ¬ IsAnon t
not-IsAnon t e a = rw (← e) at a

-- The context after a new named struct.
abbrev pub with_named : Context → String → Context
with_named ctx name = record ctx {
  types = ctx.types ++ struct (some name) [] false ∷ [];
  named_struct_map = insert String-discrete name (length ctx.types) ctx.named_struct_map;
}

pub with_named-IsInterned :
    (ctx : Context) (name : String)
    → get String-discrete name ctx.named_struct_map ≡ none
    → IsInterned ctx
    → IsInterned (with_named ctx name)
with_named-IsInterned ctx name fresh h =
    let td : TypeData = struct (some name) [] false in
    record {
      map_sound = λ t id e.
          let (at, a) = h.map_sound t id e in (get_elem?-append_left ctx.types (td ∷ []) id at, a);
      map_complete = λ t id e a. elim (get_elem?-snoc ctx.types td id e) [
        | inl old ↦ h.map_complete t id old a
        | inr (last, same) ↦ absurd (rw same at a)
      ];
      named_sound = λ n id e.
          elim (get-insert_cases String-discrete name n (length ctx.types) ctx.named_struct_map e) [
            | inl (same, last) ↦
                ([], false, rw (← last, ← same) (get_elem?-append_last ctx.types td))
            | inr (_, old) ↦
                let (fields, packed, at) = h.named_sound n id old in
                (fields, packed, get_elem?-append_left ctx.types (td ∷ []) id at)
          ];
      named_complete = λ n id fields packed e. elim (get_elem?-snoc ctx.types td id e) [
        | inl old ↦
            let known = h.named_complete n id fields packed old in
            get-insert_ne String-discrete name n (length ctx.types) ctx.named_struct_map
              (λ same. cc (known, fresh, ap (λ x. get String-discrete x ctx.named_struct_map) same))
            ∙ known
        | inr (last, same) ↦
            rw (last, struct_name same)
              (get-insert_self String-discrete name (length ctx.types) ctx.named_struct_map)
      ];
    }

-- A named struct is found, or pushed with an empty body.
pub mk_struct_named_cases :
    (ctx : Context) (name : String)
    → length ctx.types < 2 ^ 32
    → ((id : TypeId) × (get String-discrete name ctx.named_struct_map ≡ some id)
        × (mk_struct_named ctx name ≡ (ctx, id)))
      ⊎ ((get String-discrete name ctx.named_struct_map ≡ none)
          × (mk_struct_named ctx name ≡ (with_named ctx name, length ctx.types)))
unfolding mk_struct_named
mk_struct_named_cases ctx name room =
    elim (Option-cases (get String-discrete name ctx.named_struct_map)) [
      | inl e ↦ inr (e, rw (e, mk_struct_named, as_u32_lem (length ctx.types) room) refl)
      | inr (id, e) ↦ inl (id, e, rw (e, mk_struct_named) refl)
    ]

-- A named struct is found or made under its name, the tables stay consistent, and every other index
-- keeps its type, while the table has room for a u32 index.
pub mk_struct_named_lem :
    (ctx : Context) (name : String)
    → length ctx.types < 2 ^ 32
    → IsInterned ctx
    → IsInterned (mk_struct_named ctx name).0
      × (get_named_struct (mk_struct_named ctx name).0 name ≡ some (mk_struct_named ctx name).1)
      × ((fields : List TypeId) × (packed : Bool) × (get_type
              (mk_struct_named ctx name).0
              (mk_struct_named ctx name).1
            ≡ some (struct (some name) fields packed)))
      × KeepsTypes ctx (mk_struct_named ctx name).0
unfolding mk_struct_named get_named_struct get_type
mk_struct_named_lem ctx name room h =
    elim (Option-cases (get String-discrete name ctx.named_struct_map)) [
      | inr (id, e) ↦ rw (e, mk_struct_named) (h, e, h.named_sound name id e, λ k t at. at)
      | inl e ↦
          rw (e, mk_struct_named, as_u32_lem (length ctx.types) room)
            (
              with_named-IsInterned ctx name e h,
              get-insert_self String-discrete name (length ctx.types) ctx.named_struct_map,
              ([], false, get_elem?-append_last ctx.types (struct (some name) [] false)),
              λ k t at. get_elem?-append_left ctx.types (struct (some name) [] false ∷ []) k at,
            )
    ]

-- Filling in the body of a named struct succeeds, keeps the tables consistent, gives the struct its
-- new body and leaves every other type alone.
pub define_struct_body_lem :
    (ctx : Context) (id : TypeId) (name : String) (old fields : List TypeId) (was packed : Bool)
    → IsInterned ctx
    → get_type ctx id ≡ some (struct (some name) old was)
    → (ctx' : Context) × (define_struct_body ctx id fields packed ≡ some ctx')
      × IsInterned ctx'
      × (get_type ctx' id ≡ some (struct (some name) fields packed))
      × ((k : TypeId) → k ≢ id → get_type ctx' k ≡ get_type ctx k)
unfolding define_struct_body get_type with_body
define_struct_body_lem ctx id name old fields was packed h at =
    let td : TypeData = struct (some name) fields packed in
    (
      record ctx { types = set ctx.types id td },
      rw (at, define_struct_body) refl,
      record {
        map_sound = λ t k e.
            let (atk, a) = h.map_sound t k e in
            elim (ℕ_discrete id k) [
              | yes same ↦
                  absurd
                    (not-IsAnon t (some_injective (sym at ∙ ap (get_elem? ctx.types) same ∙ atk)) a)
              | no ne ↦ (get_elem?-set_ne ctx.types id k td ne ∙ atk, a)
            ];
        map_complete = λ t k e a. elim (get_elem?-set_cases ctx.types id k td e) [
          | inl (_, same) ↦ absurd (not-IsAnon t (sym same) a)
          | inr (_, old) ↦ h.map_complete t k old a
        ];
        named_sound = λ n k e.
            let (fs, p, atk) = h.named_sound n k e in
            elim (ℕ_discrete id k) [
              | yes same ↦ (
                fields,
                packed,
                rw
                    (
                      ← same,
                      struct_name
                          (some_injective (sym atk ∙ ap (get_elem? ctx.types) (sym same) ∙ at)),
                    )
                    (get_elem?-set_self ctx.types id td (get_elem?-lt ctx.types id at)),
              )
              | no ne ↦ (fs, p, get_elem?-set_ne ctx.types id k td ne ∙ atk)
            ];
        named_complete = λ n k fs p e. elim (get_elem?-set_cases ctx.types id k td e) [
          | inl (same, body) ↦ rw (← same, struct_name body) (h.named_complete name id old was at)
          | inr (_, before) ↦ h.named_complete n k fs p before
        ];
      },
      get_elem?-set_self ctx.types id td (get_elem?-lt ctx.types id at),
      λ k ne. get_elem?-set_ne ctx.types id k td (λ e. ne (sym e)),
    )
