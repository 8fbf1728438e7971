-- ===== src/Analysis/Cfg/Reach.antt =====
-- llvm-analysis/src/cfg.rs: the marked blocks are those that the entry reaches.
use native.Mathlib.Decide.{ℕ_discrete}
use mathlib.Core.List.{Memᴰ}
use mathlib.Core.List.Memᴰ
use llvm_in_rust.Base.{
  ℕ, zero, suc, ◌+◌, ◌<◌, ◌≤◌, ◌≡◌, refl, sym, ap, ◌∙◌, ◌⊎◌, ◌↔◌, inl, inr, Bool, true, false, List,
  [], ◌∷◌, some, arith, length, length-set, get_elem?, set, get_elem?-set_self, get_elem?-set_ne,
  get_elem?-set_cases, get_elem?_of_lt, Bool-cases,
}
use mathlib.Core.Path.{subst}
use llvm_in_rust.Base.Maps.{some_injective}
use llvm_in_rust.Ir.Ids.{BlockId}
use llvm_in_rust.Analysis.Cfg.{mark_reachable, push_all}
use llvm_in_rust.Analysis.Cfg.Loop.{
  weight, weight-set, tally, tally-set, length-push_all, push_all_keeps, push_all_adds,
  push_all_cases,
}

-- A block with an edge to another.
abbrev pub Edge : List (List BlockId) → BlockId → BlockId → Type 0
Edge succs a b = (ss : List BlockId) × (get_elem? succs a ≡ some ss) × Memᴰ b ss

-- The blocks that a path leads to from the entry.
pub data Reachable (succs : List (List BlockId)) : BlockId → Type 0 where
  entry : Reachable succs 0
  step : {a b : BlockId} → Reachable succs a → Edge succs a b → Reachable succs b

abbrev pub Marked : List Bool → BlockId → Type 0
Marked marks b = get_elem? marks b ≡ some true

-- What holds whenever the loop looks at its stack.
pub record IsMarking (succs : List (List BlockId)) (marks : List Bool) (count : ℕ)
    (stack : List BlockId) : Type 0 where
  pub size : length marks ≡ length succs
  pub counted : count ≡ tally marks
  pub sound : (b : BlockId) → Marked marks b → Reachable succs b
  pub pending : (b : BlockId) → Memᴰ b stack → Reachable succs b
  pub closed : (a b : BlockId) → Marked marks a → Edge succs a b → Marked marks b ⊎ Memᴰ b stack
  pub start : Marked marks 0 ⊎ Memᴰ 0 stack

-- With an empty stack the marks are closed along the edges.
pub Marked-iff :
    {succs : List (List BlockId)} {marks : List Bool} {count : ℕ}
    → IsMarking succs marks count []
    → (b : BlockId) → Marked marks b ↔ Reachable succs b
Marked-iff {succs} {marks} s b = (s.sound b, complete b)
  where
    complete : (b : BlockId) → Reachable succs b → Marked marks b
    complete b entry = elim s.start [ inl e ↦ e | inr m ↦ elim m [ ] ]
    complete b (step {a} r e) = elim (s.closed a b (complete a r) e) [
      | inl h ↦ h
      | inr m ↦ elim m [ ]
    ]

module _ {succs : List (List BlockId)}
    (bounded : (b : BlockId) → Reachable succs b → b < length succs) where
  -- A marked block is taken off the stack.
  skip-Marked :
      {marks : List Bool} {count : ℕ} {b : BlockId} {stack : List BlockId}
      → IsMarking succs marks count (b ∷ stack)
      → Marked marks b
      → IsMarking succs marks count stack
  skip-Marked {marks} {count} {b} {stack} s mark = record {
    size = s.size;
    counted = s.counted;
    sound = s.sound;
    pending = λ x m. s.pending x (Memᴰ.tail m);
    closed = λ x y h e. off y (s.closed x y h e);
    start = off 0 s.start;
  }
    where
      off : (y : BlockId) → Marked marks y ⊎ Memᴰ y (b ∷ stack) → Marked marks y ⊎ Memᴰ y stack
      off y (inl h) = inl h
      off y (inr m) = elim (Memᴰ.cases_cons m) [
        | inl same ↦ inl (rw same mark)
        | inr older ↦ inr older
      ]

  -- A new block is marked and its successors are pushed.
  mark_new :
      {marks : List Bool} {count : ℕ} {b : BlockId} {stack ss : List BlockId}
      → IsMarking succs marks count (b ∷ stack)
      → get_elem? marks b ≡ some false
      → get_elem? succs b ≡ some ss
      → IsMarking succs (set marks b true) (count + 1) (push_all ss stack)
  mark_new {marks} {count} {b} {stack} {ss} s clear at = record {
    size = length-set marks b true ∙ s.size;
    counted = omega (arith, s.counted, tally-set marks b clear);
    sound = λ x h. elim (get_elem?-set_cases marks b x true h) [
      | inl (same, _) ↦ rw (← same) here
      | inr (_, old) ↦ s.sound x old
    ];
    pending = λ x m. elim (push_all_cases ss stack m) [
      | inl new ↦ step here (ss, at, new)
      | inr old ↦ s.pending x (Memᴰ.tail old)
    ];
    closed = λ x y h e. elim (get_elem?-set_cases marks b x true h) [
      | inl (same, _) ↦
          let (ts, here', m) = e in
          inr (
            push_all_adds ss stack (
              subst (λ t. Memᴰ y t)
                (some_injective (sym here' ∙ ap (get_elem? succs) (sym same) ∙ at)) m))
      | inr (_, old) ↦ keep y (s.closed x y old e)
    ];
    start = keep 0 s.start;
  }
    where
      here : Reachable succs b
      here = s.pending b (Memᴰ.head refl)

      marked_here : Marked (set marks b true) b
      marked_here = get_elem?-set_self marks b true (rw s.size (bounded b here))

      keep :
          (y : BlockId)
          → Marked marks y ⊎ Memᴰ y (b ∷ stack)
          → Marked (set marks b true) y ⊎ Memᴰ y (push_all ss stack)
      keep y (inl h) = elim (ℕ_discrete b y) [
        | yes same ↦ inl (rw (← same) marked_here)
        | no apart ↦ inl (get_elem?-set_ne marks b y true apart ∙ h)
      ]
      keep y (inr m) = elim (Memᴰ.cases_cons m) [
        | inl same ↦ inl (rw same marked_here)
        | inr older ↦ inr (push_all_keeps ss stack older)
      ]

  -- On enough fuel the loop ends with an empty stack.
  pub mark_reachable_lem :
      (fuel : ℕ) (marks : List Bool) (count : ℕ) (stack : List BlockId)
      → length stack + weight succs marks ≤ fuel
      → IsMarking succs marks count stack
      → (result : List Bool) × (total : ℕ) × (mark_reachable fuel succs marks count stack
          ≡ some (result, total))
        × IsMarking succs result total []
  unfolding mark_reachable
  mark_reachable_lem fuel marks count [] enough s = (marks, count, refl, s)
  mark_reachable_lem zero marks count (b ∷ stack) enough s = absurd (omega arith)
  mark_reachable_lem (suc fuel) marks count (b ∷ stack) enough s =
      let fits = bounded b (s.pending b (Memᴰ.head refl)) in
      let (mark, e) = get_elem?_of_lt marks b (rw s.size fits) in
      let (ss, at) = get_elem?_of_lt succs b fits in
      elim (Bool-cases mark) [
        | inl old ↦
            let seen : Marked marks b = e ∙ ap some old in
            rw (seen, mark_reachable)
              (mark_reachable_lem fuel marks count stack (omega arith) (skip-Marked s seen))
        | inr new ↦
            let clear : get_elem? marks b ≡ some false = e ∙ ap some new in
            rw (clear, at, mark_reachable)
              (mark_reachable_lem fuel (set marks b true) (count + 1) (push_all ss stack)
                (omega (arith, length-push_all ss stack, weight-set succs marks b at clear))
                (mark_new s clear at))
      ]
