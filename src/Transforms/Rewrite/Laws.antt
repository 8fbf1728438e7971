-- ===== src/Transforms/Rewrite/Laws.antt =====
-- Rewriting maps the operands and leaves the control flow and the opcode alone.
use mathlib.Core.Path.{◌≡◌, refl, sym, ap, ap₂}
use mathlib.Core.List.{List, [], ◌∷◌, map, map-append}
use mathlib.Core.Option
use mathlib.Core.Option.{Option, none, some}
use llvm_in_rust.Ir.Ids.{ValueRef, BlockId}
use llvm_in_rust.Ir.Ops.{LandingPadClause, catch, filter}
use llvm_in_rust.Ir.Instr.{
  InstrKind, is_terminator, alloca, ret, catch_switch, cleanup_pad, phi, switch, landing_pad,
  get_element_ptr, call, invoke, inline_asm, catch_pad,
}
use llvm_in_rust.Ir.Instr.Operands.{operands, successors, option_list, clause_value}
use llvm_in_rust.Ir.Instr.Opcode.{opcode}
use llvm_in_rust.Transforms.Rewrite.{rewrite_values_in_kind, rewrite_clause}

option_list-map :
    (f : ValueRef → ValueRef) (o : Option ValueRef)
    → option_list (Option.map f o) ≡ map f (option_list o)
option_list-map f none = refl
option_list-map f (some a) = refl

-- The first and the second parts of a rewritten list of pairs.
map_firsts :
    (f : ValueRef → ValueRef) (ps : List (ValueRef × BlockId))
    → map (λ (p : ValueRef × BlockId). p.0) (map (λ (p : ValueRef × BlockId). (f p.0, p.1)) ps)
      ≡ map f (map (λ (p : ValueRef × BlockId). p.0) ps)
map_firsts f [] = refl
map_firsts f (p ∷ ps) = ap (λ r. f p.0 ∷ r) (map_firsts f ps)

map_seconds :
    (f : ValueRef → ValueRef) (ps : List (ValueRef × BlockId))
    → map (λ (p : ValueRef × BlockId). p.1) (map (λ (p : ValueRef × BlockId). (f p.0, p.1)) ps)
      ≡ map (λ (p : ValueRef × BlockId). p.1) ps
map_seconds f [] = refl
map_seconds f (p ∷ ps) = ap (λ r. p.1 ∷ r) (map_seconds f ps)

map_clauses :
    (f : ValueRef → ValueRef) (cs : List LandingPadClause)
    → map clause_value (map (rewrite_clause f) cs) ≡ map f (map clause_value cs)
map_clauses f [] = refl
map_clauses f (catch ty v ∷ cs) = ap (λ r. f v ∷ r) (map_clauses f cs)
map_clauses f (filter ty v ∷ cs) = ap (λ r. f v ∷ r) (map_clauses f cs)

-- Rewriting an instruction rewrites its operands, each once and in order.
pub operands-rewrite_values_in_kind :
    (k : InstrKind) (f : ValueRef → ValueRef)
    → operands (rewrite_values_in_kind k f) ≡ map f (operands k)
unfolding operands rewrite_values_in_kind
operands-rewrite_values_in_kind (alloca _ n _) f = option_list-map f n
operands-rewrite_values_in_kind (ret v) f = option_list-map f v
operands-rewrite_values_in_kind (catch_switch p _ _) f = option_list-map f p
operands-rewrite_values_in_kind (cleanup_pad p args) f =
    rw (option_list-map f p) (sym (map-append f (option_list p) args))
operands-rewrite_values_in_kind (phi _ ps) f = map_firsts f ps
operands-rewrite_values_in_kind (switch v _ ps) f = ap (λ r. f v ∷ r) (map_firsts f ps)
operands-rewrite_values_in_kind (landing_pad _ p _ cs) f =
    rw (option_list-map f p, map_clauses f cs)
      (sym (map-append f (option_list p) (map clause_value cs)))
operands-rewrite_values_in_kind _ f = refl

-- Rewriting the operands leaves the successor blocks, the opcode and the kind of an instruction alone.
pub rewrite_values_in_kind_shape :
    (k : InstrKind) (f : ValueRef → ValueRef)
    → (successors (rewrite_values_in_kind k f) ≡ successors k)
      × (opcode (rewrite_values_in_kind k f) ≡ opcode k)
      × (is_terminator (rewrite_values_in_kind k f) ≡ is_terminator k)
unfolding successors opcode is_terminator rewrite_values_in_kind
rewrite_values_in_kind_shape (switch v d ps) f = (ap (λ r. d ∷ r) (map_seconds f ps), refl, refl)
rewrite_values_in_kind_shape _ f = (refl, refl, refl)

map_id : {A : Type 0} (xs : List A) (g : A → A) → ((x : A) → g x ≡ x) → map g xs ≡ xs
map_id [] g h = refl
map_id (x ∷ xs) g h = ap₂ ◌∷◌ (h x) (map_id xs g h)

option-map_id : (o : Option ValueRef) → Option.map (λ (v : ValueRef). v) o ≡ o
option-map_id none = refl
option-map_id (some v) = refl

clause_id : (c : LandingPadClause) → rewrite_clause (λ v. v) c ≡ c
clause_id (catch ty v) = refl
clause_id (filter ty v) = refl

-- Rewriting by the identity changes no part of an instruction: every field is carried over.
pub rewrite_values_in_kind_id : (k : InstrKind) → rewrite_values_in_kind k (λ v. v) ≡ k
unfolding rewrite_values_in_kind
rewrite_values_in_kind_id (alloca t n a) = ap (λ m. alloca t m a) (option-map_id n)
rewrite_values_in_kind_id (get_element_ptr i t p xs) =
    ap (get_element_ptr i t p) (map_id xs (λ v. v) (λ v. refl))
rewrite_values_in_kind_id (phi t ps) = ap (phi t) (map_id ps (λ p. (p.0, p.1)) (λ p. refl))
rewrite_values_in_kind_id (call t c f xs) = ap (call t c f) (map_id xs (λ v. v) (λ v. refl))
rewrite_values_in_kind_id (invoke t c xs n u) =
    ap (λ ys. invoke t c ys n u) (map_id xs (λ v. v) (λ v. refl))
rewrite_values_in_kind_id (landing_pad t p c cs) =
    ap₂ (λ q ds. landing_pad t q c ds) (option-map_id p)
      (map_id cs (rewrite_clause (λ v. v)) clause_id)
rewrite_values_in_kind_id (inline_asm s c e a xs) =
    ap (inline_asm s c e a) (map_id xs (λ v. v) (λ v. refl))
rewrite_values_in_kind_id (ret v) = ap ret (option-map_id v)
rewrite_values_in_kind_id (switch v d ps) =
    ap (switch v d) (map_id ps (λ p. (p.0, p.1)) (λ p. refl))
rewrite_values_in_kind_id (catch_pad p xs) = ap (catch_pad p) (map_id xs (λ v. v) (λ v. refl))
rewrite_values_in_kind_id (cleanup_pad p xs) =
    ap₂ cleanup_pad (option-map_id p) (map_id xs (λ v. v) (λ v. refl))
rewrite_values_in_kind_id (catch_switch p hs d) = ap (λ q. catch_switch q hs d) (option-map_id p)
rewrite_values_in_kind_id _ = refl
