-- ===== src/Analysis/UseDef.antt =====
-- llvm-analysis/src/use_def.rs: definitions and uses of one function. An instruction index out of
-- range, where the source panics, is `none`.
pub mod Laws
use mathlib.Core.Bool.{Bool, true, false}
use mathlib.Core.List.{List, [], ◌∷◌, ◌++◌}
use mathlib.Core.Option
use mathlib.Core.Option.{Option, none, some}
use native.Mathlib.Decide.{ℕ_discrete}
use llvm_in_rust.Base.{ℕ, ◌+◌}
use llvm_in_rust.Base.Machine.{as_u32}
use llvm_in_rust.Base.Maps.{HashMap, get, insert}
use llvm_in_rust.Ir.Ids.{InstrId, BlockId, ValueRef, ValueRef-discrete}
use llvm_in_rust.Ir.Instr.{InstrKind, phi}
use llvm_in_rust.Ir.Instr.Operands.{operands}
use llvm_in_rust.Ir.Block.{BasicBlock, instrs}
use llvm_in_rust.Ir.Function.{Function, instr}

abbrev pub Sites : Type 0
Sites = HashMap ValueRef (List (BlockId × InstrId))

pub record UseDefInfo : Type 0 where
  pub instr_block : HashMap InstrId BlockId
  pub uses : Sites
  pub phi_uses : Sites

-- `get(&vref).map(Vec::as_slice).unwrap_or(&[])`
unfoldable pub sites_of : Sites → ValueRef → List (BlockId × InstrId)
sites_of m v = Option.get_or (get ValueRef-discrete v m) []

-- `entry(v).or_default().push(site)`
unfoldable pub push_site : Sites → ValueRef → BlockId × InstrId → Sites
push_site m v site = insert ValueRef-discrete v (sites_of m v ++ site ∷ []) m

unfoldable pub push_operands : Sites → BlockId × InstrId → List ValueRef → Sites
push_operands m site [] = m
push_operands m site (v ∷ vs) = push_operands (push_site m v site) site vs

-- The two pushes of each incoming value: the block of the phi, and the predecessor.
unfoldable pub record_incoming :
    UseDefInfo → BlockId → InstrId → List (ValueRef × BlockId) → UseDefInfo
record_incoming info bid iid [] = info
record_incoming info bid iid ((val, pred) ∷ more) =
    record_incoming
      (record info {
        uses = push_site info.uses val (bid, iid);
        phi_uses = push_site info.phi_uses val (pred, iid);
      })
      bid iid more

unfoldable pub record_kind : UseDefInfo → BlockId → InstrId → InstrKind → UseDefInfo
record_kind info bid iid (phi _ incoming) = record_incoming info bid iid incoming
record_kind info bid iid k = record info { uses = push_operands info.uses (bid, iid) (operands k) }

unfoldable pub record_instrs : Function → UseDefInfo → BlockId → List InstrId → Option UseDefInfo
record_instrs f info bid [] = some info
record_instrs f info bid (iid ∷ iids) = elim (instr f iid) [
  | none ↦ none
  | some i ↦
      record_instrs f
        (record_kind (record info { instr_block = insert ℕ_discrete iid bid info.instr_block }) bid
          iid i.kind)
        bid iids
]

unfoldable pub record_blocks : Function → UseDefInfo → ℕ → List BasicBlock → Option UseDefInfo
record_blocks f info bi [] = some info
record_blocks f info bi (bb ∷ bbs) = elim (record_instrs f info (as_u32 bi) (instrs bb)) [
  | none ↦ none
  | some info' ↦ record_blocks f info' (bi + 1) bbs
]

unfoldable pub compute : Function → Option UseDefInfo
compute f = record_blocks f (record { instr_block = []; uses = []; phi_uses = [] }) 0 f.blocks

unfoldable pub def_block : UseDefInfo → InstrId → Option BlockId
def_block info id = get ℕ_discrete id info.instr_block

unfoldable pub uses_of : UseDefInfo → ValueRef → List (BlockId × InstrId)
uses_of info v = sites_of info.uses v

unfoldable pub phi_uses_of : UseDefInfo → ValueRef → List (BlockId × InstrId)
phi_uses_of info v = sites_of info.phi_uses v

unfoldable pub no_sites : List (BlockId × InstrId) → Bool
no_sites [] = true
no_sites (_ ∷ _) = false

unfoldable pub is_dead : UseDefInfo → ValueRef → Bool
unfolding uses_of
is_dead info v = no_sites (uses_of info v)
