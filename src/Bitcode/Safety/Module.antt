-- ===== src/Bitcode/Safety/Module.antt =====
-- llvm-bitcode/src/reader.rs: `read_bitcode` never panics, and accepts only files of its format.
use Prim.Native.String.{String}
use mathlib.Core.Option
use llvm_in_rust.Base.{
  ℕ, zero, suc, ◌<◌, ◌≡◌, refl, ap, inl, inr, Bool, false, List, [], ◌∷◌, ◌++◌, Option, none, some,
  arith, Option-cases, length, length-append, length-set, set, get_elem?-lt, get_elem?_of_lt,
}
use llvm_in_rust.Base.Machine.{as_u32}
use llvm_in_rust.Base.Maps.{get, get-insert_cases}
use llvm_in_rust.Base.Text.{String-discrete}
use llvm_in_rust.Ir.Ids.{TypeId, ConstId}
use llvm_in_rust.Ir.Types.{
  TypeData, TypeData-discrete, void, integer, float, pointer, array, vector, struct, function,
  label, metadata,
}
use llvm_in_rust.Ir.Context.{
  Context, intern_anon, mk_int, mk_float, mk_ptr, mk_label, mk_metadata, mk_array, mk_vector,
  mk_fn_type, mk_struct_anon, mk_struct_named, with_body, define_struct_body, new_context,
}
use llvm_in_rust.Ir.Context.Fresh.{new_context-IsInterned}
use llvm_in_rust.Bitcode.Stream.{Bytes}
use llvm_in_rust.Bitcode.Safety.{
  Outcome, Answers, Answers-pure, Answers-fail, Answers-bind, Answers-if, Answers-read_u32,
  Answers-read_bytes,
}
use llvm_in_rust.Bitcode.Safety.Records.{
  reading_values, Answers-decode_type, Answers-decode_const, Answers-decode_global,
}
use llvm_in_rust.Bitcode.Safety.Functions.{Answers-or_panic, Answers-decode_function}
use llvm_in_rust.Bitcode.Module.{
  intern_type, read_types, read_consts, check_magic, check_version, read_module, read_bitcode,
}

-- Every named struct stands in the table of types.
abbrev InRange : Context → Type 0
InRange c =
    (name : String) (id : TypeId)
    → get String-discrete name c.named_struct_map ≡ some id
    → id < length c.types

-- A type is interned without a panic.
abbrev Interns : Option (Context × TypeId) → Type 0
Interns o = (r : Context × TypeId) × (o ≡ some r) × InRange r.0

intern_anon-InRange : (c : Context) (td : TypeData) → InRange c → InRange (intern_anon c td).0
unfolding intern_anon
intern_anon-InRange c td h = elim (Option-cases (get TypeData-discrete td c.type_map)) [
  | inl e ↦
      rw (e, intern_anon)
        (λ name id at. omega (arith, h name id at, length-append c.types (td ∷ [])))
  | inr (id, e) ↦ rw (e, intern_anon) h
]

body-InRange :
    (c : Context) (id : TypeId) (fields : List TypeId) (packed : Bool)
    → id < length c.types
    → InRange c
    → (c' : Context) × (define_struct_body c id fields packed ≡ some c') × InRange c'
unfolding define_struct_body
body-InRange c id fields packed room h =
    let (td, e) = get_elem?_of_lt c.types id room in
    (
      record c { types = set c.types id (with_body td fields packed) },
      rw (e, define_struct_body) refl,
      λ name i at. rw (length-set c.types id (with_body td fields packed)) (h name i at),
    )

mk_struct_named-InRange :
    (c : Context) (name : String)
    → InRange c
    → InRange (mk_struct_named c name).0
      × ((mk_struct_named c name).1 < length (mk_struct_named c name).0.types)
unfolding mk_struct_named
mk_struct_named-InRange c name h =
    elim (Option-cases (get String-discrete name c.named_struct_map)) [
      | inr (id, e) ↦ rw (e, mk_struct_named) (h, h name id e)
      | inl e ↦
          let len = length-append c.types (struct (some name) [] false ∷ []) in
          rw (e, mk_struct_named)
            (
              λ n i at.
                  elim (get-insert_cases String-discrete name n (as_u32 (length c.types))
                    c.named_struct_map at) [
                      | inl (_, last) ↦ omega (arith, len, last)
                      | inr (_, old) ↦ omega (arith, len, h n i old)
                    ],
              omega (arith, len),
            )
    ]

named-Interns :
    (c : Context) (name : String) (fields : List TypeId) (packed : Bool)
    → InRange c
    → Interns (intern_type c (struct (some name) fields packed))
unfolding intern_type
named-Interns c name fields packed h =
    let (k, room) = mk_struct_named-InRange c name h in
    let id = (mk_struct_named c name).1 in
    let (c', b, k') = body-InRange (mk_struct_named c name).0 id fields packed room k in
    ((c', id), ap (Option.map (λ d. (d, id))) b, k')

intern_type-Interns : (c : Context) (td : TypeData) → InRange c → Interns (intern_type c td)
unfolding intern_type mk_int mk_float mk_ptr mk_label mk_metadata mk_array mk_vector mk_fn_type
    mk_struct_anon
intern_type-Interns c void h = (_, refl, h)
intern_type-Interns c pointer h = (_, refl, h)
intern_type-Interns c label h = (_, refl, h)
intern_type-Interns c (struct (some name) fields packed) h = named-Interns c name fields packed h
intern_type-Interns c (struct none fields packed) h = (_, refl, intern_anon-InRange c _ h)
intern_type-Interns c (integer bits) h = (_, refl, intern_anon-InRange c _ h)
intern_type-Interns c (float kind) h = (_, refl, intern_anon-InRange c _ h)
intern_type-Interns c (array element len) h = (_, refl, intern_anon-InRange c _ h)
intern_type-Interns c (vector element len scalable) h = (_, refl, intern_anon-InRange c _ h)
intern_type-Interns c (function result params variadic) h = (_, refl, intern_anon-InRange c _ h)
intern_type-Interns c metadata h = (_, refl, intern_anon-InRange c _ h)

Answers-read_types :
    (n : ℕ) (c : Context) (m : List TypeId) → InRange c → Answers (read_types n c m)
unfolding read_types
Answers-read_types zero c m h = Answers-pure _
Answers-read_types (suc n) c m h = Answers-bind (Answers-decode_type m) (λ td.
    let (r, e, k) = intern_type-Interns c td h in
    Answers-or_panic (intern_type c td) _ r e (Answers-read_types n (r.0) (m ++ r.1 ∷ []) k))

Answers-read_consts :
    (n : ℕ) (m : List TypeId) (c : Context) (cm : List ConstId) → Answers (read_consts n m c cm)
unfolding read_consts
Answers-read_consts zero m c cm = Answers-pure _
Answers-read_consts (suc n) m c cm =
    Answers-bind (Answers-decode_const m cm) (λ cd. Answers-read_consts n m _ _)

Answers-read_module : (m : List TypeId) (cm : List ConstId) → Answers (read_module m cm)
unfolding read_module
Answers-read_module m cm =
    search (reading_values, Answers-decode_global, Answers-decode_function) depth 40

new_context-InRange : InRange new_context
new_context-InRange name id at =
    let (_, _, e) = new_context-IsInterned.named_sound name id at in
    get_elem?-lt new_context.types id e

Answers-check_magic : (bytes : Bytes) → Answers (check_magic bytes)
unfolding check_magic
Answers-check_magic bytes = Answers-if _ (Answers-pure _) (Answers-fail _)

Answers-check_version : (version : ℕ) → Answers (check_version version)
unfolding check_version
Answers-check_version version = Answers-if _ (Answers-pure _) (Answers-fail _)

Answers-read_bitcode : Answers read_bitcode
unfolding read_bitcode
Answers-read_bitcode = Answers-bind (Answers-read_bytes 4) (λ b.
    Answers-bind (Answers-check_magic b) (λ _. Answers-bind Answers-read_u32 (λ version.
      Answers-bind (Answers-check_version version) (λ _. Answers-bind Answers-read_u32 (λ n.
        Answers-bind (Answers-read_types n new_context [] new_context-InRange) (λ types.
          Answers-bind Answers-read_u32 (λ k.
            Answers-bind (Answers-read_consts k types.1 types.0 []) (λ consts.
              Answers-bind (Answers-read_module types.1 consts.1) (λ m. Answers-pure _)))))))))

-- On any bytes `read_bitcode` gives an error, or a context and a module with what is left of the
-- bytes behind those that it took; it never panics. That memory runs out is not modelled.
pub read_bitcode_total : (bs : Bytes) → Outcome bs (read_bitcode bs)
read_bitcode_total bs = Answers-read_bitcode.answers bs
