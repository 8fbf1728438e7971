-- ===== src/Analysis/Cfg/Edges.antt =====
-- llvm-analysis/src/cfg.rs: the two tables of edges.
use mathlib.Core.List.{Memᴰ}
use mathlib.Core.List.Memᴰ
use mathlib.Core.Path.{subst}
use llvm_in_rust.Base.{
  ℕ, ◌<◌, ◌≤◌, ◌^◌, ◌≡◌, refl, sym, ap, ◌∙◌, ◌⊎◌, ◌↔◌, inl, inr, List, [], ◌∷◌, ◌++◌, some, arith,
  length, length-set, get_elem?, set, get_elem?-set_self, get_elem?-set_ne, get_elem?-set_cases,
  get_elem?-lt, Option-cases,
}
use llvm_in_rust.Base.Maps.{some_injective}
use llvm_in_rust.Base.Machine.{as_u32, as_u32_lem}
use llvm_in_rust.Ir.Ids.{BlockId}
use native.Mathlib.Decide.{ℕ_discrete}
use llvm_in_rust.Analysis.Cfg.{push_at}
use llvm_in_rust.Analysis.Cfg.Reach.{Edge}

-- A push that succeeds, taken apart.
push_at_inv :
    (v : List (List BlockId)) (i : ℕ) (x : BlockId) {w : List (List BlockId)}
    → push_at v i x ≡ some w
    → (xs : List BlockId) × (get_elem? v i ≡ some xs) × (w ≡ set v i (xs ++ x ∷ []))
unfolding push_at
push_at_inv v i x h = elim (Option-cases (get_elem? v i)) [
  | inl e ↦ absurd (cc (rw (e, push_at) at h))
  | inr (xs, e) ↦ (xs, e, sym (some_injective (rw (e, push_at) at h)))
]

module _ (v : List (List BlockId)) (i : ℕ) (x : BlockId) {w : List (List BlockId)}
    (h : push_at v i x ≡ some w) where
  pub length-push_at : length w ≡ length v
  length-push_at = let (xs, at, e) = push_at_inv v i x h in rw e (length-set v i (xs ++ x ∷ []))

  pub push_at_lt : i < length v
  push_at_lt = let (xs, at, e) = push_at_inv v i x h in get_elem?-lt v i at

  pub Edge-of_push_at : (a b : BlockId) → Edge w a b → Edge v a b ⊎ ((a ≡ i) × (b ≡ x))
  Edge-of_push_at a b (ss, here, m) =
      let (xs, at, e) = push_at_inv v i x h in
      elim (get_elem?-set_cases v i a (xs ++ x ∷ []) (rw e at here)) [
        | inl (same, f) ↦ elim (Memᴰ.append_cases xs (rw f at m)) [
          | inl old ↦ inl (xs, rw (← same) at, old)
          | inr last ↦ elim (Memᴰ.cases_cons last) [
            | inl e' ↦ inr (sym same, e')
            | inr nothing ↦ elim nothing [ ]
          ]
        ]
        | inr (_, old) ↦ inl (ss, old, m)
      ]

  pub push_at_new : Edge w i x
  push_at_new =
      let (xs, at, e) = push_at_inv v i x h in
      (
        xs ++ x ∷ [],
        rw e (get_elem?-set_self v i (xs ++ x ∷ []) push_at_lt),
        Memᴰ.append_right xs (Memᴰ.head refl),
      )

  pub push_at_old : (a b : BlockId) → Edge v a b → Edge w a b
  push_at_old a b (ss, here, m) =
      let (xs, at, e) = push_at_inv v i x h in
      elim (ℕ_discrete i a) [
        | yes same ↦ (
          xs ++ x ∷ [],
          rw (e, ← same) (get_elem?-set_self v i (xs ++ x ∷ []) push_at_lt),
          Memᴰ.append_left (x ∷ []) (
              subst (λ t. Memᴰ b t) (some_injective (sym here ∙ ap (get_elem? v) (sym same) ∙ at))
                m),
        )
        | no apart ↦ (ss, rw e (get_elem?-set_ne v i a (xs ++ x ∷ []) apart ∙ here), m)
      ]

-- The two tables have one list for each block, every edge ends at a block, and a block is among the
-- predecessors of another when this one is among its successors.
pub record IsMirrored (n : ℕ) (succs preds : List (List BlockId)) : Type 0 where
  pub succs_size : length succs ≡ n
  pub preds_size : length preds ≡ n
  pub bounded : (a b : BlockId) → Edge succs a b → b < n
  pub mirror : (a b : BlockId) → Edge succs a b ↔ Edge preds b a

pub add_edge-IsMirrored :
    {n : ℕ} {succs preds : List (List BlockId)} (bi : ℕ) (dst : BlockId)
    {succs' preds' : List (List BlockId)}
    → push_at succs bi dst ≡ some succs'
    → push_at preds dst (as_u32 bi) ≡ some preds'
    → n ≤ 2 ^ 32
    → IsMirrored n succs preds
    → IsMirrored n succs' preds'
add_edge-IsMirrored {n} {succs} {preds} bi dst {succs'} {preds'} hs hp room g = record {
  succs_size = length-push_at succs bi dst hs ∙ g.succs_size;
  preds_size = length-push_at preds dst (as_u32 bi) hp ∙ g.preds_size;
  bounded = λ a b e. elim (Edge-of_push_at succs bi dst hs a b e) [
    | inl old ↦ g.bounded a b old
    | inr (_, last) ↦ rw last dst_lt
  ];
  mirror = λ a b. (there a b, back a b);
}
  where
    dst_lt : dst < n
    dst_lt = rw (sym g.preds_size) (push_at_lt preds dst (as_u32 bi) hp)

    same_index : as_u32 bi ≡ bi
    same_index =
        as_u32_lem bi (let k = push_at_lt succs bi dst hs in let z = g.succs_size in omega arith)

    there : (a b : BlockId) → Edge succs' a b → Edge preds' b a
    there a b e = elim (Edge-of_push_at succs bi dst hs a b e) [
      | inl old ↦ push_at_old preds dst (as_u32 bi) hp b a ((g.mirror a b).0 old)
      | inr (first, last) ↦ rw (first, last, sym same_index) (push_at_new preds dst (as_u32 bi) hp)
    ]

    back : (a b : BlockId) → Edge preds' b a → Edge succs' a b
    back a b e = elim (Edge-of_push_at preds dst (as_u32 bi) hp b a e) [
      | inl old ↦ push_at_old succs bi dst hs a b ((g.mirror a b).1 old)
      | inr (last, first) ↦ rw (first, last, same_index) (push_at_new succs bi dst hs)
    ]
