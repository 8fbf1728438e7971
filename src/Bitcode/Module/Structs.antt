-- ===== src/Bitcode/Module/Structs.antt =====
-- llvm-bitcode/src/reader.rs: a named struct of the type table gets its index and its body.
use Prim.Native.String.{String}
use mathlib.Core.Path.{subst}
use llvm_in_rust.Base.{
  ℕ, suc, ◌<◌, ◌^◌, ◌≡◌, ◌≢◌, refl, sym, ap, ◌∙◌, inl, inr, List, [], ◌∷◌, ◌++◌, some, Bool, false,
  arith, length, get_elem?, set, length-set, get_elem?-lt, get_elem?-append_last, get_elem?-snoc,
  get_elem?-set_ne, get_elem?-set_cases,
}
use llvm_in_rust.Base.Maps.{some_injective}
use llvm_in_rust.Ir.Ids.{TypeId}
use llvm_in_rust.Ir.Types.{TypeData, struct}
use llvm_in_rust.Ir.Context.{Context, mk_struct_named, with_body, define_struct_body, get_type}
use llvm_in_rust.Ir.Context.Laws.{IsInterned}
use llvm_in_rust.Ir.Context.Named.{
  with_named, with_named-IsInterned, mk_struct_named_cases, define_struct_body_lem,
}
use llvm_in_rust.Bitcode.Module.{intern_type}
use llvm_in_rust.Bitcode.Module.Reached.{Reached, HasSingletons, singletons-push, at_end, room_of}

module _ (ctx : Context) (wf : IsInterned ctx) (room : length ctx.types < 2 ^ 32) where
  -- The context with the struct's body at `k`.
  abbrev bodied : Context → ℕ → TypeData → Context
  bodied c k td = record c { types = set c.types k td }

  body_step :
      (c : Context) (k : ℕ) (name : String) (old fields : List TypeId) (was packed : Bool)
      → get_type ctx k ≡ some (struct (some name) fields packed)
      → IsInterned c
      → get_type c k ≡ some (struct (some name) old was)
      → ((i : ℕ) (t : TypeData) → i ≢ k → get_type c i ≡ some t → get_type ctx i ≡ some t)
      → HasSingletons c
      → c.constants ≡ []
      → (c' : Context) × (define_struct_body c k fields packed ≡ some c') × Reached ctx (suc k) c'
  unfolding get_type define_struct_body with_body
  body_step c k name old fields was packed at h here others (v, p, l) none_yet =
      let td : TypeData = struct (some name) fields packed in
      let (c', e, int, _, _) = define_struct_body_lem c k name old fields was packed h here in
      let e' : define_struct_body c k fields packed ≡ some (bodied c k td) =
        rw (here, define_struct_body) refl in
      (
        bodied c k td,
        e',
        record {
          interned = subst IsInterned (some_injective (sym e ∙ e')) int;
          keeps = λ id t stands. elim (get_elem?-set_cases c.types k id td stands) [
            | inl (same, is) ↦ rw (← same, is) at
            | inr (ne, old) ↦ others id t (λ x. ne (sym x)) old
          ];
          reached = omega (arith, length-set c.types k td, get_elem?-lt c.types k here);
          singletons = (
            stays c.void_ty v (λ x. cc),
            stays c.ptr_ty p (λ x. cc),
            stays c.label_ty l (λ x. cc),
          );
          no_constants = none_yet;
        },
      )
    where
      stays :
          (i : ℕ) {t : TypeData}
          → get_elem? c.types i ≡ some t
          → ¬ (struct (some name) old was ≡ t)
          → get_elem? (set c.types k (struct (some name) fields packed)) i ≡ some t
      stays i {t} q differs =
          get_elem?-set_ne c.types k i (struct (some name) fields packed)
            (λ same. differs (some_injective (sym here ∙ ap (get_elem? c.types) same ∙ q)))
          ∙ q

  intern_type-named :
      (c c1 c' : Context) (k : TypeId) (name : String) (fields : List TypeId) (packed : Bool)
      → mk_struct_named c name ≡ (c1, k)
      → define_struct_body c1 k fields packed ≡ some c'
      → intern_type c (struct (some name) fields packed) ≡ some (c', k)
  unfolding intern_type
  intern_type-named c c1 c' k name fields packed e b = rw (e, b) refl

  pub named_step :
      (c : Context) (k : ℕ) (name : String) (fields : List TypeId) (packed : Bool)
      → get_type ctx k ≡ some (struct (some name) fields packed)
      → Reached ctx k c
      → (c' : Context) × (intern_type c (struct (some name) fields packed) ≡ some (c', k))
        × Reached ctx (suc k) c'
  unfolding get_type
  named_step c k name fields packed at r =
      elim (mk_struct_named_cases c name (room_of ctx wf room c k r)) [
        | inl (id, known, e) ↦
            let (fs, p, here) = r.interned.named_sound name id known in
            let same = named_at name id k fs fields p packed (r.keeps id _ here) at in
            let (c', b, s) =
              body_step c k name fs fields p packed at r.interned (rw same at here)
                (λ i t ne. r.keeps i t) r.singletons r.no_constants in
            (
              c',
              intern_type-named c c c' k name fields packed (e ∙ ap (λ (n : TypeId). (c, n)) same)
                  b,
              s,
            )
        | inr (fresh, e) ↦
            let len : length c.types ≡ k =
              at_end ctx wf room c k (struct (some name) fields packed) at r
                (λ x. absurd (cc (fresh, r.interned.named_complete name k fields packed x))) in
            let (c', b, s) =
              body_step (with_named c name) k name [] fields false packed at
                (with_named-IsInterned c name fresh r.interned)
                (ap (get_elem? (c.types ++ struct (some name) [] false ∷ [])) (sym len)
                  ∙ get_elem?-append_last c.types (struct (some name) [] false))
                (λ i t ne q. elim (get_elem?-snoc c.types _ i q) [
                  | inl old ↦ r.keeps i t old
                  | inr (end, _) ↦ absurd (ne (end ∙ len))
                ])
                (singletons-push c (struct (some name) [] false) r.singletons) r.no_constants in
            (
              c',
              intern_type-named c (with_named c name) c' k name fields packed
                  (e ∙ ap (λ (n : TypeId). (with_named c name, n)) len) b,
              s,
            )
      ]
    where
      named_at :
          (name : String) (i j : ℕ) (fs gs : List TypeId) (p q : Bool)
          → get_elem? ctx.types i ≡ some (struct (some name) fs p)
          → get_elem? ctx.types j ≡ some (struct (some name) gs q)
          → i ≡ j
      named_at name i j fs gs p q x y =
          cc (wf.named_complete name i fs p x, wf.named_complete name j gs q y)
