-- ===== src/Bitcode/Module/Tables.antt =====
-- llvm-bitcode/src/reader.rs: the type table and the constant table of a file are read back.
use llvm_in_rust.Base.{
  ℕ, zero, suc, ◌+◌, ◌<◌, ◌^◌, ◌≡◌, refl, sym, ap, ◌∙◌, List, [], ◌∷◌, ◌++◌, some, arith, length,
  length-append, get_elem?,
}
use mathlib.Core.List.{append_assoc, append-nil}
use mathlib.Core.Path.{subst}
use llvm_in_rust.Base.Machine.{as_u32_lem}
use llvm_in_rust.Ir.Ids.{TypeId}
use llvm_in_rust.Ir.Types.{TypeData}
use llvm_in_rust.Ir.Value.{ConstantData}
use llvm_in_rust.Ir.Context.{Context, get_type}
use llvm_in_rust.Ir.Context.Laws.{IsInterned}
use llvm_in_rust.Ir.Constants.{push_const}
use llvm_in_rust.Bitcode.Stream.{write_all}
use llvm_in_rust.Bitcode.Reads.{Reads, Reads-bind, Reads-pure, Reads-same, Reads-or_panic}
use llvm_in_rust.Bitcode.Types.{encode_type}
use llvm_in_rust.Bitcode.Types.Laws.{FitsType, decode_type-encode_type}
use llvm_in_rust.Bitcode.Consts.{encode_const}
use llvm_in_rust.Bitcode.Consts.Laws.{FitsConst, decode_const-encode_const}
use llvm_in_rust.Bitcode.Module.{intern_type, read_types, read_consts}
use llvm_in_rust.Bitcode.Module.Reached.{Reached}
use llvm_in_rust.Bitcode.Module.Types.{intern_type-Reached}

-- The indices below `n` in order: what the reader keeps of a table that it gives the same indices.
abbrev pub upto : ℕ → List ℕ
upto zero = []
upto (suc n) = upto n ++ n ∷ []

-- Each type fits, and it refers to types before it only.
abbrev pub FitsTypes : ℕ → List TypeData → Type 0
FitsTypes k [] = Unit
FitsTypes k (td ∷ tds) = FitsType (upto k) td × FitsTypes (suc k) tds

-- Each constant fits, and it refers to constants before it only.
abbrev pub FitsConsts : List TypeId → ℕ → List ConstantData → Type 0
FitsConsts m k [] = Unit
FitsConsts m k (cd ∷ cds) = FitsConst m (upto k) cd × FitsConsts m (suc k) cds

plus_zero : (k : ℕ) → k + 0 ≡ k
plus_zero k = omega arith

module _ (ctx : Context) (wf : IsInterned ctx) (room : length ctx.types < 2 ^ 32) where
  -- The rest of the table from `k` on.
  abbrev pub Follows : ℕ → List TypeData → Type 0
  Follows k tds =
      (i : ℕ) (td : TypeData) → get_elem? tds i ≡ some td → get_type ctx (k + i) ≡ some td

  -- Reading the types from `k` up to `n`.
  abbrev pub ReadsTypes : List TypeData → Context → ℕ → ℕ → Type 0
  ReadsTypes tds c k n =
      (c' : Context) × Reads (read_types (length tds) c (upto k)) (write_all encode_type tds)
        (c', upto n)
      × Reached ctx n c'

  pub Reads-read_types :
      (tds : List TypeData) (k n : ℕ) (c : Context)
      → k + length tds ≡ n
      → Follows k tds
      → FitsTypes k tds
      → Reached ctx k c
      → ReadsTypes tds c k n
  unfolding read_types write_all
  Reads-read_types [] k n c e at h r =
      subst (ReadsTypes [] c k) (sym (plus_zero k) ∙ e) (c, Reads-pure _, r)
  Reads-read_types (td ∷ tds) k n c e at (h, hs) r =
      let here : get_type ctx k ≡ some td = ap (get_type ctx) (sym (plus_zero k)) ∙ at 0 td refl in
      let (c1, i, r1) = intern_type-Reached ctx wf room c k td here r in
      let (c', p, r') =
        Reads-read_types tds (suc k) n c1 (omega (arith, e))
          (λ j t g. ap (get_type ctx) (omega arith) ∙ at (suc j) t g) hs r1 in
      (
        c',
        Reads-bind _ (decode_type-encode_type (upto k) td h)
            (Reads-bind _ (Reads-or_panic (intern_type c td) i) p),
        r',
      )

-- The context with more constants.
abbrev pub with_constants : Context → List ConstantData → Context
with_constants c cds = record c { constants = c.constants ++ cds }

pub Reads-read_consts :
    (m : List TypeId) (cds : List ConstantData) (k n : ℕ) (c : Context)
    → k + length cds ≡ n
    → n < 2 ^ 32
    → length c.constants ≡ k
    → FitsConsts m k cds
    → Reads
        (read_consts (length cds) m c (upto k))
        (write_all encode_const cds)
        (with_constants c cds, upto n)
unfolding read_consts write_all push_const
Reads-read_consts m [] k n c e room len h =
    Reads-same
      (ap (λ xs. (record c { constants = xs }, upto k)) (sym (append-nil c.constants))
        ∙ ap (λ j. (with_constants c [], upto j)) (sym (plus_zero k) ∙ e))
      (Reads-pure _)
Reads-read_consts m (cd ∷ cds) k n c e room len (h, hs) =
    Reads-bind _ (decode_const-encode_const m (upto k) cd h) (
      subst
        (λ (id : ℕ).
          Reads (read_consts (length cds) m (with_constants c (cd ∷ [])) (upto k ++ id ∷ []))
            (write_all encode_const cds) (with_constants c (cd ∷ cds), upto n))
        (sym len ∙ sym (as_u32_lem (length c.constants) (omega (arith, e, len))))
        (Reads-same
          (ap (λ xs. (record c { constants = xs }, upto n))
            (append_assoc c.constants (cd ∷ []) cds))
          (Reads-read_consts m cds (suc k) n (with_constants c (cd ∷ [])) (omega (arith, e)) room
            (length-append c.constants (cd ∷ []) ∙ omega (arith, len)) hs)))
