-- ===== src/Bitcode/Module/Reached.antt =====
-- llvm-bitcode/src/reader.rs: the context after a part of the type table, and a type without a name.
use llvm_in_rust.Base.{
  ℕ, suc, ◌<◌, ◌≤◌, ◌^◌, ◌≡◌, ◌≢◌, sym, ap, ◌∙◌, inl, inr, [], ◌∷◌, ◌++◌, none, some, arith, ltb,
  ltb→lt, ≤_of_not_ltb, Bool-cases, length, length-append, get_elem?, get_elem?-lt, get_elem?_of_lt,
  get_elem?-append_left, get_elem?-snoc,
}
use llvm_in_rust.Base.Maps.{get}
use llvm_in_rust.Ir.Ids.{TypeId}
use llvm_in_rust.Ir.Types.{TypeData, void, pointer, label, TypeData-discrete}
use llvm_in_rust.Ir.Context.{Context, intern_anon, get_type}
use llvm_in_rust.Ir.Context.Laws.{
  IsAnon, IsInterned, KeepsTypes, get_type_injective, with_type, with_type-IsInterned,
  intern_anon_cases,
}

-- The singletons of a context stand at the indices that it keeps for them.
abbrev pub HasSingletons : Context → Type 0
HasSingletons c =
    (get_type c c.void_ty ≡ some void)
    × (get_type c c.ptr_ty ≡ some pointer)
    × (get_type c c.label_ty ≡ some label)

-- The reader's context `c` after the first `k` types of the table of `ctx`: whatever stands in it stands in
-- `ctx` at the same index.
pub record Reached (ctx : Context) (k : ℕ) (c : Context) : Type 0 where
  pub interned : IsInterned c
  pub keeps : KeepsTypes c ctx
  pub reached : k ≤ length c.types
  pub singletons : HasSingletons c
  pub no_constants : c.constants ≡ []

length-KeepsTypes : (c d : Context) → KeepsTypes c d → length c.types ≤ length d.types
unfolding get_type
length-KeepsTypes c d h = elim (Bool-cases (ltb (length d.types) (length c.types))) [
  | inr not ↦ ≤_of_not_ltb (length d.types) (length c.types) not
  | inl more ↦
      let (t, e) =
        get_elem?_of_lt c.types (length d.types) (ltb→lt (length d.types) (length c.types) more) in
      let below = get_elem?-lt d.types (length d.types) (h (length d.types) t e) in
      absurd (omega (arith, below))
]

pub singletons-push :
    (c : Context) (td : TypeData)
    → HasSingletons c
    → (get_elem? (c.types ++ td ∷ []) c.void_ty ≡ some void)
      × (get_elem? (c.types ++ td ∷ []) c.ptr_ty ≡ some pointer)
      × (get_elem? (c.types ++ td ∷ []) c.label_ty ≡ some label)
unfolding get_type
singletons-push c td (v, p, l) = (
  get_elem?-append_left c.types (td ∷ []) c.void_ty v,
  get_elem?-append_left c.types (td ∷ []) c.ptr_ty p,
  get_elem?-append_left c.types (td ∷ []) c.label_ty l,
)

module _ (ctx : Context) (wf : IsInterned ctx) (room : length ctx.types < 2 ^ 32) where
  -- The last type of a table that has reached `k`.
  pub at_end :
      (c : Context) (k : ℕ) (td : TypeData)
      → get_type ctx k ≡ some td
      → Reached ctx k c
      → get_type c k ≢ some td
      → length c.types ≡ k
  unfolding get_type
  at_end c k td at r new = elim (Bool-cases (ltb k (length c.types))) [
    | inr not ↦ omega (arith, ≤_of_not_ltb k (length c.types) not, r.reached)
    | inl more ↦
        let (t, e) = get_elem?_of_lt c.types k (ltb→lt k (length c.types) more) in
        absurd (new (e ∙ sym (r.keeps k t e) ∙ at))
  ]

  pub room_of : (c : Context) (k : ℕ) → Reached ctx k c → length c.types < 2 ^ 32
  room_of c k r = omega (arith, length-KeepsTypes c ctx r.keeps, room)

  pub anon_step :
      (c : Context) (k : ℕ) (td : TypeData)
      → IsAnon td
      → get_type ctx k ≡ some td
      → Reached ctx k c
      → (c' : Context) × (intern_anon c td ≡ (c', k)) × Reached ctx (suc k) c'
  unfolding get_type
  anon_step c k td anon at r = elim (intern_anon_cases c td (room_of c k r)) [
    | inl (id, known, e) ↦ (c, e ∙ ap (λ n. (c, n)) (same id known), after id (same id known) known)
    | inr (fresh, e) ↦
        (with_type c td, e ∙ ap (λ n. (with_type c td, n)) (last fresh), pushed fresh)
  ]
    where
      same : (id : TypeId) → get TypeData-discrete td c.type_map ≡ some id → id ≡ k
      same id known =
          get_type_injective ctx id k td wf (r.keeps id td ((r.interned.map_sound td id known).0))
            at

      after :
          (id : TypeId)
          → id ≡ k
          → get TypeData-discrete td c.type_map ≡ some id
          → Reached ctx (suc k) c
      after id e known = record {
        interned = r.interned;
        keeps = r.keeps;
        reached = omega (arith, get_elem?-lt c.types id ((r.interned.map_sound td id known).0), e);
        singletons = r.singletons;
        no_constants = r.no_constants;
      }

      last : get TypeData-discrete td c.type_map ≡ none → length c.types ≡ k
      last fresh =
          at_end c k td at r (λ e. absurd (cc (fresh, r.interned.map_complete td k e anon)))

      pushed : get TypeData-discrete td c.type_map ≡ none → Reached ctx (suc k) (with_type c td)
      pushed fresh = record {
        interned = with_type-IsInterned c td anon fresh r.interned;
        keeps = λ id t e. elim (get_elem?-snoc c.types td id e) [
          | inl old ↦ r.keeps id t old
          | inr (end, is) ↦ rw (end, is, last fresh) at
        ];
        reached = omega (arith, length-append c.types (td ∷ []), last fresh);
        singletons = singletons-push c td r.singletons;
        no_constants = r.no_constants;
      }

  -- A type that the context keeps the index of.
  pub singleton_step :
      (c : Context) (k : ℕ) (td : TypeData) (i : TypeId)
      → get_type ctx k ≡ some td
      → Reached ctx k c
      → get_type c i ≡ some td
      → (i ≡ k) × Reached ctx (suc k) c
  unfolding get_type
  singleton_step c k td i at r here =
      let same = get_type_injective ctx i k td wf (r.keeps i td here) at in
      (
        same,
        record {
          interned = r.interned;
          keeps = r.keeps;
          reached = omega (arith, get_elem?-lt c.types i here, same);
          singletons = r.singletons;
          no_constants = r.no_constants;
        },
      )
