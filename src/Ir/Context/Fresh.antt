-- ===== src/Ir/Context/Fresh.antt =====
-- llvm-ir/src/context.rs: the context that `new` builds.
use llvm_in_rust.Base.{
  ℕ, ◌+◌, ◌<◌, ◌≤◌, ◌^◌, ◌≡◌, refl, List, arith, inl, inr, Option-cases, length, length-append, [],
  ◌∷◌,
}
use llvm_in_rust.Base.Maps.{get}
use llvm_in_rust.Ir.Types.{
  TypeData, void, integer, float, single, double, pointer, label, TypeData-discrete,
}
use llvm_in_rust.Ir.Context.{Context, empty_context, intern_anon, new_context}
use llvm_in_rust.Ir.Context.Laws.{IsAnon, IsInterned, intern_anon_lem}

length-intern_anon :
    (ctx : Context) (td : TypeData) → length (intern_anon ctx td).0.types ≤ length ctx.types + 1
unfolding intern_anon
length-intern_anon ctx td = elim (Option-cases (get TypeData-discrete td ctx.type_map)) [
  | inl e ↦ rw (e, intern_anon) (omega (arith, length-append ctx.types (td ∷ [])))
  | inr (id, e) ↦ rw (e, intern_anon) (omega arith)
]

-- Consistent tables with `n` types at most.
abbrev IsSmall : Context → ℕ → Type 0
IsSmall ctx n = IsInterned ctx × (length ctx.types ≤ n)

intern_anon-IsSmall :
    (ctx : Context) (td : TypeData) (n : ℕ)
    → n < 2 ^ 32
    → IsAnon td
    → IsSmall ctx n
    → IsSmall (intern_anon ctx td).0 (n + 1)
intern_anon-IsSmall ctx td n room anon (h, small) =
    ((intern_anon_lem ctx td (omega arith) anon h).0, omega (arith, length-intern_anon ctx td))

-- The singletons are no part of the tables.
pub IsInterned-singletons :
    (c d : Context)
    → d.types ≡ c.types
    → d.type_map ≡ c.type_map
    → d.named_struct_map ≡ c.named_struct_map
    → IsInterned c
    → IsInterned d
IsInterned-singletons c d p q r h = record {
  map_sound = rw (p, q) h.map_sound;
  map_complete = rw (p, q) h.map_complete;
  named_sound = rw (p, r) h.named_sound;
  named_complete = rw (p, r) h.named_complete;
}

empty-IsSmall : IsSmall empty_context 0
unfolding get
empty-IsSmall = (
  record {
    map_sound = λ td id e. absurd (cc);
    map_complete = λ td id e a. absurd (cc);
    named_sound = λ name id e. absurd (cc);
    named_complete = λ name id fields packed e. absurd (cc);
  },
  omega arith,
)

-- Interning a list of types in turn.
abbrev intern_all : Context → List TypeData → Context
intern_all ctx [] = ctx
intern_all ctx (td ∷ tds) = intern_all (intern_anon ctx td).0 tds

abbrev AllAnon : List TypeData → Type 0
AllAnon [] = Unit
AllAnon (td ∷ tds) = IsAnon td × AllAnon tds

intern_all-IsInterned :
    (ctx : Context) (tds : List TypeData) (n : ℕ)
    → n + length tds < 2 ^ 32
    → AllAnon tds
    → IsSmall ctx n
    → IsInterned (intern_all ctx tds)
intern_all-IsInterned ctx [] n room anon h = h.0
intern_all-IsInterned ctx (td ∷ tds) n room (a, more) h =
    intern_all-IsInterned (intern_anon ctx td).0 tds (n + 1) (omega arith) more
      (intern_anon-IsSmall ctx td n (omega arith) a h)

abbrev singletons : List TypeData
singletons =
    void
    ∷ (integer 1)
    ∷ (integer 8)
    ∷ (integer 16)
    ∷ (integer 32)
    ∷ (integer 64)
    ∷ (float single)
    ∷ (float double)
    ∷ pointer
    ∷ label
    ∷ []

-- The tables of a new context are consistent.
pub new_context-IsInterned : IsInterned new_context
unfolding new_context
new_context-IsInterned =
    IsInterned-singletons (intern_all empty_context singletons) new_context refl refl refl (
      intern_all-IsInterned empty_context singletons 0 (omega arith)
        (tt, (tt, (tt, (tt, (tt, (tt, (tt, (tt, (tt, (tt, tt)))))))))) empty-IsSmall)

pub empty_context-IsInterned : IsInterned empty_context
empty_context-IsInterned = empty-IsSmall.0
