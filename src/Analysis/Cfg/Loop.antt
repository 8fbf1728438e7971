-- ===== src/Analysis/Cfg/Loop.antt =====
-- llvm-analysis/src/cfg.rs: the measure that ends the marking loop, and what marking a block does.
use llvm_in_rust.Base.{
  ℕ, zero, suc, ◌+◌, ◌≡◌, refl, ap, ◌⊎◌, inl, inr, Bool, true, false, List, [], ◌∷◌, some, arith,
  length, get_elem?, set,
}
use llvm_in_rust.Base.Maps.{some_injective}
use mathlib.Core.List.{Memᴰ}
use mathlib.Core.List.Memᴰ
use llvm_in_rust.Ir.Ids.{BlockId}
use llvm_in_rust.Analysis.Cfg.{edges, filled, push_all}

-- The edges that leave unmarked blocks.
unfoldable pub weight : List (List BlockId) → List Bool → ℕ
weight [] marks = 0
weight (ss ∷ more) [] = 0
weight (ss ∷ more) (true ∷ marks) = weight more marks
weight (ss ∷ more) (false ∷ marks) = length ss + weight more marks

-- How many blocks are marked.
unfoldable pub tally : List Bool → ℕ
tally [] = 0
tally (true ∷ marks) = suc (tally marks)
tally (false ∷ marks) = tally marks

pub weight-set :
    (succs : List (List BlockId)) (marks : List Bool) (b : ℕ) {ss : List BlockId}
    → get_elem? succs b ≡ some ss
    → get_elem? marks b ≡ some false
    → weight succs marks ≡ length ss + weight succs (set marks b true)
unfolding weight
weight-set [] marks b h g = absurd (cc)
weight-set (x ∷ xs) [] b h g = absurd (cc)
weight-set (x ∷ xs) (true ∷ marks) zero h g = absurd (cc)
weight-set (x ∷ xs) (false ∷ marks) zero h g =
    ap (λ t. length t + weight xs marks) (some_injective h)
weight-set (x ∷ xs) (true ∷ marks) (suc b) h g = weight-set xs marks b h g
weight-set (x ∷ xs) (false ∷ marks) (suc b) h g = omega (arith, weight-set xs marks b h g)

pub tally-set :
    (marks : List Bool) (b : ℕ)
    → get_elem? marks b ≡ some false
    → tally (set marks b true) ≡ tally marks + 1
unfolding tally
tally-set [] b g = absurd (cc)
tally-set (true ∷ marks) zero g = absurd (cc)
tally-set (false ∷ marks) zero g = omega arith
tally-set (true ∷ marks) (suc b) g = omega (arith, tally-set marks b g)
tally-set (false ∷ marks) (suc b) g = tally-set marks b g

pub length-push_all :
    (ss stack : List BlockId) → length (push_all ss stack) ≡ length ss + length stack
unfolding push_all
length-push_all [] stack = omega arith
length-push_all (s ∷ ss) stack = omega (arith, length-push_all ss (s ∷ stack))

pub push_all_keeps :
    (ss stack : List BlockId) {x : BlockId} → Memᴰ x stack → Memᴰ x (push_all ss stack)
unfolding push_all
push_all_keeps [] stack m = m
push_all_keeps (s ∷ ss) stack m = push_all_keeps ss (s ∷ stack) (Memᴰ.tail m)

pub push_all_adds : (ss stack : List BlockId) {x : BlockId} → Memᴰ x ss → Memᴰ x (push_all ss stack)
unfolding push_all
push_all_adds [] stack m = elim m [ ]
push_all_adds (s ∷ ss) stack (Memᴰ.head e) = push_all_keeps ss (s ∷ stack) (Memᴰ.head e)
push_all_adds (s ∷ ss) stack (Memᴰ.tail m) = push_all_adds ss (s ∷ stack) m

pub push_all_cases :
    (ss stack : List BlockId) {x : BlockId} → Memᴰ x (push_all ss stack) → Memᴰ x ss ⊎ Memᴰ x stack
unfolding push_all
push_all_cases [] stack m = inr m
push_all_cases (s ∷ ss) stack m = elim (push_all_cases ss (s ∷ stack) m) [
  | inl early ↦ inl (Memᴰ.tail early)
  | inr late ↦ elim (Memᴰ.cases_cons late) [
    | inl same ↦ inl (Memᴰ.head same)
    | inr older ↦ inr older
  ]
]

pub weight-filled :
    (succs : List (List BlockId)) → weight succs (filled (length succs) false) ≡ edges succs
unfolding weight filled edges
weight-filled [] = refl
weight-filled (ss ∷ more) = omega (arith, weight-filled more)

pub tally-filled : (n : ℕ) → tally (filled n false) ≡ 0
unfolding tally filled
tally-filled zero = refl
tally-filled (suc n) = tally-filled n

pub length-filled {ℓ} : {A : Type ℓ} (n : ℕ) (x : A) → length (filled n x) ≡ n
unfolding filled
length-filled zero x = refl
length-filled (suc n) x = ap suc (length-filled n x)

-- An element of a constant list.
pub get_elem?-filled {ℓ} :
    {A : Type ℓ} (n : ℕ) (x : A) (i : ℕ) {y : A} → get_elem? (filled n x) i ≡ some y → y ≡ x
unfolding filled
get_elem?-filled zero x i h = absurd (cc)
get_elem?-filled (suc n) x zero h = cc
get_elem?-filled (suc n) x (suc i) h = get_elem?-filled n x i h
