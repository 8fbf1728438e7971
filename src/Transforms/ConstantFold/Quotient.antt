-- ===== src/Transforms/ConstantFold/Quotient.antt =====
-- llvm-transforms/src/constant_fold.rs: quotients and remainders of signed numbers stay in range.
use native.Mathlib.Nat.{div-le_self, div-lt_self, mod-le, div-one}
use llvm_in_rust.Base.{
  ℕ, zero, suc, ◌-◌, ◌/◌, ◌%◌, ◌^◌, ◌≤◌, ◌<◌, ◌≡◌, ◌≢◌, refl, ap, inl, inr, true, arith, ==_iff,
  Bool-cases, ltb, ltb→lt, ≤_of_not_ltb,
}
use llvm_in_rust.Base.Pow.{pow_pos}
use llvm_in_rust.Base.Int.{ℤ, pos, negsuc, negate, div_trunc, rem_trunc, eqz}
use llvm_in_rust.Transforms.ConstantFold.Width.{InRange}

pub eqz_lem : (a b : ℤ) → eqz a b ≡ true → a ≡ b
unfolding eqz
eqz_lem (pos a) (pos b) h = ap pos ((==_iff a b).0 h)
eqz_lem (pos a) (negsuc b) h = cc h
eqz_lem (negsuc a) (pos b) h = cc h
eqz_lem (negsuc a) (negsuc b) h = ap negsuc ((==_iff a b).0 h)

pub eqz_self : (a : ℤ) → eqz a a ≡ true
unfolding eqz
eqz_self (pos a) = (==_iff a a).1 refl
eqz_self (negsuc a) = (==_iff a a).1 refl

negate-InRange : (n bits : ℕ) → n ≤ 2 ^ (bits - 1) → InRange bits (negate n)
unfolding InRange
negate-InRange zero bits h = pow_pos (bits - 1)
negate-InRange (suc n) bits h = omega arith

-- The only quotient that leaves the range is that of the least number by -1.
pub div_trunc-InRange :
    (a b : ℤ) (bits : ℕ)
    → InRange bits a
    → InRange bits b
    → ((a ≡ negsuc (2 ^ (bits - 1) - 1)) → b ≢ negsuc 0)
    → InRange bits (div_trunc a b)
unfolding InRange div_trunc
div_trunc-InRange (pos a) (pos b) bits ha hb h = omega (arith, div-le_self a b)
div_trunc-InRange (pos a) (negsuc b) bits ha hb h =
    negate-InRange (a / suc b) bits (omega (arith, div-le_self a (suc b)))
div_trunc-InRange (negsuc a) (pos b) bits ha hb h =
    negate-InRange (suc a / b) bits (omega (arith, div-le_self (suc a) b))
div_trunc-InRange (negsuc a) (negsuc zero) bits ha hb h =
    elim (Bool-cases (ltb (suc a) (2 ^ (bits - 1)))) [
      | inl low ↦ omega (arith, div-one (suc a), ltb→lt (suc a) (2 ^ (bits - 1)) low)
      | inr high ↦
          let last : a ≡ 2 ^ (bits - 1) - 1 =
            omega (arith, ≤_of_not_ltb (suc a) (2 ^ (bits - 1)) high) in
          absurd (h (ap negsuc last) refl)
    ]
div_trunc-InRange (negsuc a) (negsuc (suc b)) bits ha hb h = omega (arith, halved)
  where
    halved : suc a / suc (suc b) < suc a
    halved = div-lt_self (omega arith) (omega arith)

pub rem_trunc-InRange :
    (a b : ℤ) (bits : ℕ) → InRange bits a → InRange bits b → InRange bits (rem_trunc a b)
unfolding InRange rem_trunc
rem_trunc-InRange (pos a) (pos b) bits ha hb = omega (arith, mod-le a b)
rem_trunc-InRange (pos a) (negsuc b) bits ha hb = omega (arith, mod-le a (suc b))
rem_trunc-InRange (negsuc a) (pos b) bits ha hb =
    negate-InRange (suc a % b) bits (omega (arith, mod-le (suc a) b))
rem_trunc-InRange (negsuc a) (negsuc b) bits ha hb =
    negate-InRange (suc a % suc b) bits (omega (arith, mod-le (suc a) (suc b)))
