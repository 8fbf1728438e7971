-- ===== src/Transforms/Dce/Dead.antt =====
-- llvm-transforms/src/dce.rs: the indices that the scan of the pool gives.
use mathlib.Core.List.{Memᴰ}
use mathlib.Core.List.Memᴰ
use llvm_in_rust.Base.{
  ℕ, zero, suc, ◌+◌, ◌<◌, ◌^◌, ◌≡◌, refl, inl, inr, List, [], ◌∷◌, some, Bool, true, ◌&&◌, arith,
  Bool-cases, length, get_elem?,
}
use llvm_in_rust.Base.Machine.{as_u32}
use llvm_in_rust.Ir.Ids.{InstrId, instruction}
use llvm_in_rust.Ir.Function.{Instruction}
use llvm_in_rust.Analysis.UseDef.{UseDefInfo, is_dead}
use llvm_in_rust.Transforms.Dce.{is_dce_safe, dead_from}

-- An index of the pool, counted from `i`, whose instruction is safe to delete and dead.
pub record IsDeadAt (info : UseDefInfo) (i : ℕ) (xs : List Instruction) (id : InstrId)
    : Type 0 where
  pub offset : ℕ
  pub ins : Instruction
  pub sum : id ≡ i + offset
  pub at : get_elem? xs offset ≡ some ins
  pub safe : is_dce_safe ins.kind ≡ true
  pub dead : is_dead info (instruction id) ≡ true

IsDeadAt-later :
    {info : UseDefInfo} {i : ℕ} {x : Instruction} {xs : List Instruction} {id : InstrId}
    → IsDeadAt info (i + 1) xs id
    → IsDeadAt info i (x ∷ xs) id
IsDeadAt-later d = record {
  offset = suc d.offset;
  ins = d.ins;
  sum = omega (arith, d.sum);
  at = d.at;
  safe = d.safe;
  dead = d.dead;
}

pub dead_from_sound :
    (info : UseDefInfo) (xs : List Instruction) (i : ℕ) {id : InstrId}
    → i + length xs < 2 ^ 32
    → Memᴰ id (dead_from info i xs)
    → IsDeadAt info i xs id
unfolding dead_from
dead_from_sound info [] i room m = elim m [ ]
dead_from_sound info (x ∷ xs) i {id} room m =
    elim (Bool-cases (is_dce_safe x.kind && is_dead info (instruction (as_u32 i)))) [
      | inl e ↦ elim (Memᴰ.cases_cons (rw (e, dead_from) at m)) [
        | inl same ↦ record {
          offset = 0;
          ins = x;
          sum = omega arith;
          at = refl;
          safe = ground arith;
          dead = rw same (ground arith);
        }
        | inr later ↦ IsDeadAt-later (dead_from_sound info xs (i + 1) (omega arith) later)
      ]
      | inr e ↦
          IsDeadAt-later (dead_from_sound info xs (i + 1) (omega arith) (rw (e, dead_from) at m))
    ]

both : (a b : Bool) → a ≡ true → b ≡ true → a && b ≡ true
both a b p q = rw (p, q)

pub dead_from_complete :
    (info : UseDefInfo) (xs : List Instruction) (i k : ℕ) {ins : Instruction}
    → i + length xs < 2 ^ 32
    → get_elem? xs k ≡ some ins
    → is_dce_safe ins.kind ≡ true
    → is_dead info (instruction (i + k)) ≡ true
    → Memᴰ (i + k) (dead_from info i xs)
unfolding dead_from
dead_from_complete info [] i k room at safe dead = absurd (cc)
dead_from_complete info (x ∷ xs) i zero {ins} room at safe dead =
    let e : i + 0 ≡ as_u32 i = omega arith in
    let same : x ≡ ins = cc in
    rw e (
      rw
        (both (is_dce_safe x.kind) (is_dead info (instruction (as_u32 i))) (rw same safe)
          (rw e at dead))
        (Memᴰ.head refl))
dead_from_complete info (x ∷ xs) i (suc k) {ins} room at safe dead =
    let e : i + suc k ≡ i + 1 + k = omega arith in
    let later =
      dead_from_complete info xs (i + 1) k {ins = ins} (omega arith) at safe (rw e at dead) in
    elim (Bool-cases (is_dce_safe x.kind && is_dead info (instruction (as_u32 i)))) [
      | inl b ↦ rw (b, e) (Memᴰ.tail later)
      | inr b ↦ rw (b, e) later
    ]
