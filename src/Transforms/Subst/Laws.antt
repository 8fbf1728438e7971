-- ===== src/Transforms/Subst/Laws.antt =====
-- `subst_kind` is the general rewriting at the substitution's mapper.
use mathlib.Core.Path.{◌≡◌, refl, ap}
use mathlib.Core.List.{List, [], ◌∷◌, map}
use mathlib.Core.Option.{Option}
use mathlib.Core.Option
use llvm_in_rust.Base.Maps.{HashMap}
use llvm_in_rust.Ir.Ids.{InstrId, ValueRef}
use llvm_in_rust.Ir.Ops.{LandingPadClause, catch, filter}
use llvm_in_rust.Ir.Instr.{InstrKind, landing_pad}
use llvm_in_rust.Transforms.Rewrite.{rewrite_values_in_kind, rewrite_clause}
use llvm_in_rust.Transforms.Subst.{subst_value, subst_clause, subst_kind}

clauses-eq :
    (subst : HashMap InstrId ValueRef) (cs : List LandingPadClause)
    → map (subst_clause subst) cs ≡ map (rewrite_clause (subst_value subst)) cs
clauses-eq subst [] = refl
clauses-eq subst (catch ty v ∷ cs) =
    ap (λ r. catch ty (subst_value subst v) ∷ r) (clauses-eq subst cs)
clauses-eq subst (filter ty v ∷ cs) =
    ap (λ r. filter ty (subst_value subst v) ∷ r) (clauses-eq subst cs)

-- The pass's own substitution is the shared rewriting, by the mapper that replaces each
-- instruction that has a substitute.
pub subst_kind-eq-rewrite_values_in_kind :
    (k : InstrKind) (subst : HashMap InstrId ValueRef)
    → subst_kind k subst ≡ rewrite_values_in_kind k (subst_value subst)
unfolding subst_kind rewrite_values_in_kind
subst_kind-eq-rewrite_values_in_kind (landing_pad t p c cs) subst =
    ap (landing_pad t (Option.map (subst_value subst) p) c) (clauses-eq subst cs)
subst_kind-eq-rewrite_values_in_kind _ subst = refl
