-- ===== src/Ir/Function/Names.antt =====
-- llvm-ir/src/function.rs: what `alloc_instr` promises of the pool and of the table of names.
use Prim.Native.String.{String}
use mathlib.Core.Path.{subst}
use mathlib.Core.Option
use text.Mathlib.TextEquality.{eq_iff}
use text.Mathlib.Text.{◌==◌ as str_eq}
use llvm_in_rust.Base.{
  ℕ, ◌+◌, ◌<◌, ◌≤◌, ◌^◌, ◌≡◌, refl, sym, ap, ◌∙◌, inl, inr, ◌⊎◌, List, [], ◌∷◌, ◌++◌, Option, none,
  some, arith, length, get_elem?, get_elem?-append_last, get_elem?-append_left, get_elem?_of_lt,
  Bool-cases, Option-cases,
}
use llvm_in_rust.Base.Machine.{as_u32_lem}
use llvm_in_rust.Base.Maps.{HashMap, get, insert, get-insert_self, get-insert_ne, some_injective}
use llvm_in_rust.Base.Text.{String-discrete}
use llvm_in_rust.Ir.Ids.{InstrId}
use llvm_in_rust.Ir.Function.{
  Function, Instruction, fresh_name, number_instr, register_name, push_instr, alloc_instr, instr,
}

-- Every name of the table leads to an instruction of the pool that bears it.
pub record NamesResolve (f : Function) : Type 0 where
  pub resolves :
      (n : String) (id : InstrId)
      → get String-discrete n f.value_names ≡ some id
      → (i : Instruction) × (get_elem? f.instructions id ≡ some i) × (i.name ≡ some n)

-- The pool and the table are the same, and of the instruction all but the name.
record IsNumbered (f g : Function) (i j : Instruction) : Type 0 where
  pool : g.instructions ≡ f.instructions
  table : g.value_names ≡ f.value_names
  kind : j.kind ≡ i.kind
  ty : j.ty ≡ i.ty

-- The counter of `fresh_name` has no number left for an instruction with an empty name.
abbrev pub Exhausted : Function → Instruction → Type 0
Exhausted f i = (i.name ≡ some "") × (2 ^ 32 ≤ f.next_name_id + 1)

fresh_name_cases :
    (f : Function)
    → ((2 ^ 32 ≤ f.next_name_id + 1) × (fresh_name f ≡ none))
      ⊎ ((n : String) × (fresh_name f ≡ some (record f { next_name_id = f.next_name_id + 1 }, n)))
unfolding fresh_name
fresh_name_cases f = ground arith

number_instr_cases :
    (f : Function) (i : Instruction)
    → (Exhausted f i × (number_instr f i ≡ none))
      ⊎ ((g : Function) × (j : Instruction) × (number_instr f i ≡ some (g, j)) × IsNumbered f g i j)
unfolding number_instr
number_instr_cases f i = elim (Option-cases i.name) [
  | inl e ↦
      inr
        (f, i, simp (e, number_instr), record { pool = refl; table = refl; kind = refl; ty = refl })
  | inr (n, e) ↦ elim (Bool-cases (str_eq n "")) [
    | inr ne ↦ inr (
      f,
      i,
      simp (e, number_instr, ne),
      record { pool = refl; table = refl; kind = refl; ty = refl },
    )
    | inl empty ↦ elim (fresh_name_cases f) [
      | inl (over, none_left) ↦
          inl
            ((e ∙ ap some ((eq_iff n "").0 empty), over), simp (e, number_instr, empty, none_left))
      | inr (fresh, new) ↦ inr (
        record f { next_name_id = f.next_name_id + 1 },
        record i { name = some fresh },
        simp (e, number_instr, empty, new),
        record { pool = refl; table = refl; kind = refl; ty = refl },
      )
    ]
  ]
]

get_elem?-append_lt :
    {A : Type 0} (xs ys : List A) (i : ℕ) → i < length xs → get_elem? (xs ++ ys) i ≡ get_elem? xs i
get_elem?-append_lt xs ys i h =
    let (a, e) = get_elem?_of_lt xs i h in get_elem?-append_left xs ys i e ∙ sym e

-- In a pool that has room for a u32 index, allocating an instruction panics only where its name is
-- empty and the counter of names is used up; otherwise the instruction is read back by the returned
-- index with its kind and type, and every index that was in the pool reads what it read before.
pub instr-alloc_instr :
    (f : Function) (i : Instruction)
    → length f.instructions < 2 ^ 32
    → (Exhausted f i × (alloc_instr f i ≡ none))
      ⊎ ((g : Function) × (id : InstrId) × (j : Instruction) × (alloc_instr f i ≡ some (g, id))
          × (instr g id ≡ some j)
          × (j.kind ≡ i.kind)
          × (j.ty ≡ i.ty)
          × ((k : InstrId) → k < length f.instructions → instr g k ≡ instr f k))
unfolding alloc_instr push_instr instr
instr-alloc_instr f i room = elim (number_instr_cases f i) [
  | inl (over, e) ↦ inl (over, ap (Option.map push_instr) e)
  | inr (g, j, e, same) ↦ inr (
    (push_instr (g, j)).0,
    (push_instr (g, j)).1,
    j,
    ap (Option.map push_instr) e,
    rw same.pool
        (rw (as_u32_lem (length f.instructions) room) (get_elem?-append_last f.instructions j)),
    same.kind,
    same.ty,
    λ k h. rw same.pool (get_elem?-append_lt f.instructions (j ∷ []) k h),
  )
]

-- What a table knows after a name was registered.
get-register_name :
    (o : Option String) (id : InstrId) (m : HashMap String InstrId) (n : String) {k : InstrId}
    → get String-discrete n (register_name o id m) ≡ some k
    → ((o ≡ some n) × (k ≡ id)) ⊎ (get String-discrete n m ≡ some k)
unfolding register_name
get-register_name none id m n h = inr h
get-register_name (some p) id m n {k} h = elim (Bool-cases (str_eq p "")) [
  | inl e ↦ inr (rw (e, register_name) at h)
  | inr e ↦ elim (String-discrete p n) [
    | yes same ↦ inl (
      ap some same,
      cc (
        rw e at h,
        subst (λ q. get String-discrete q (insert String-discrete p id m) ≡ some id) same
            (get-insert_self String-discrete p id m),
      ),
    )
    | no ne ↦ inr (sym (get-insert_ne String-discrete p n id m ne) ∙ rw e at h)
  ]
]

-- Pushing an instruction keeps the table of names right.
pub push_instr-NamesResolve :
    (f : Function) (j : Instruction)
    → length f.instructions < 2 ^ 32
    → NamesResolve f
    → NamesResolve (push_instr (f, j)).0
unfolding push_instr
push_instr-NamesResolve f j room h = record {
  resolves = λ n id e. elim (get-register_name j.name _ _ n e) [
    | inl (named, k) ↦ (
      j,
      rw (k, as_u32_lem (length f.instructions) room) (get_elem?-append_last f.instructions j),
      named,
    )
    | inr old ↦
        let (i', at, name) = h.resolves n id old in
        (i', get_elem?-append_left f.instructions (j ∷ []) id at, name)
  ];
}

-- Allocating an instruction, where it does not panic, keeps the table of names right, while the
-- pool has room.
pub alloc_instr-NamesResolve :
    (f : Function) (i : Instruction) (g : Function) (id : InstrId)
    → length f.instructions < 2 ^ 32
    → NamesResolve f
    → alloc_instr f i ≡ some (g, id)
    → NamesResolve g
unfolding alloc_instr
alloc_instr-NamesResolve f i g id room h e = elim (number_instr_cases f i) [
  | inl (_, none_left) ↦ absurd (cc (e, ap (Option.map push_instr) none_left))
  | inr (f', j, n, same) ↦
      let at = some_injective (sym (ap (Option.map push_instr) n) ∙ e) in
      let start : NamesResolve f' = record { resolves = rw (same.pool, same.table) h.resolves } in
      subst (λ p. NamesResolve (p.0)) at (push_instr-NamesResolve f' j (rw same.pool room) start)
]
