-- ===== src/Transforms/ConstantFold/Division.antt =====
-- llvm-transforms/src/constant_fold.rs: folding of divisions and remainders.
use native.Mathlib.Nat.{mod-eq_of_lt, div-le_self, mod-le}
use llvm_in_rust.Base.{
  ℕ, ◌-◌, ◌/◌, ◌%◌, ◌^◌, ◌≤◌, ◌<◌, ◌≡◌, ◌≢◌, refl, ap, ◌∙◌, ◌⊎◌, inl, inr, true, false, arith, Bool,
  ◌==◌, ==_iff, Bool-cases, leb, ◌&&◌, ◌||◌, if◌then◌else◌,
}
use llvm_in_rust.Base.Pow.{pow_pos}
use llvm_in_rust.Base.Attempt.{declined, done, ◌>>=◌}
use llvm_in_rust.Base.Int.{ℤ, pos, negsuc, negate, div_trunc, rem_trunc, eqz, as_u64}
use llvm_in_rust.Ir.Ids.{ValueRef}
use llvm_in_rust.Ir.Instr.{udiv, sdiv, urem, srem}
use llvm_in_rust.Ir.Context.{Context}
use llvm_in_rust.Ir.Constants.{const_int}
use llvm_in_rust.Transforms.ConstantFold.{fold_sdiv, fold_srem, try_fold, trunc_bits, typed}
use llvm_in_rust.Transforms.ConstantFold.Operands.{IntOperands, fold_binary_lem, int_bit_width_lem}
use llvm_in_rust.Transforms.ConstantFold.Width.{
  signed, InRange, sign_extend_lem, trunc_bits_lem, signed-pattern, signed-InRange, negate_pos,
  pattern_fits,
}
use llvm_in_rust.Transforms.ConstantFold.Quotient.{
  eqz_lem, eqz_self, div_trunc-InRange, rem_trunc-InRange,
}

-- The value of a fold that gives the bits of `z`.
folded :
    (z : ℤ) (bits : ℕ)
    → 0 < bits
    → bits ≤ 64
    → InRange bits z
    → signed bits (trunc_bits (as_u64 z) bits) ≡ z
folded z bits lo hi h = ap (signed bits) (trunc_bits_lem z bits hi) ∙ signed-pattern z bits lo h

least :
    (bits : ℕ)
    → bits ≤ 64
    → (if leb 64 bits then negate (2 ^ 63) else negate (2 ^ (bits - 1)))
      ≡ negsuc (2 ^ (bits - 1) - 1)
least bits hi = elim (Bool-cases (leb 64 bits)) [
  | inl full ↦
      let e : 64 ≡ bits = ground (arith, full) in
      rw full (ap (λ (t : ℕ). negsuc (2 ^ (t - 1) - 1)) e)
  | inr short ↦ rw short (negate_pos (2 ^ (bits - 1)) (pow_pos (bits - 1)))
]

-- When folding of a signed division is refused.
abbrev refuses : ℤ → ℤ → ℤ → Bool
refuses a b least = eqz b (pos 0) || eqz a least && eqz b (negsuc 0)

test_true : (p q s : Bool) → (p || q && s) ≡ true → (p ≡ true) ⊎ ((q ≡ true) × (s ≡ true))
test_true true q s h = inl refl
test_true false true true h = inr (refl, refl)
test_true false true false h = cc h
test_true false false s h = cc h

test_false : (p q s : Bool) → (p || q && s) ≡ false → (p ≡ false) × (q ≡ true → s ≡ false)
test_false true q s h = cc h
test_false false true s h = (refl, λ _. h)
test_false false false s h = (refl, λ e. cc e)

refused_cases : (a b m : ℤ) → refuses a b m ≡ true → (b ≡ pos 0) ⊎ ((a ≡ m) × (b ≡ negsuc 0))
refused_cases a b m h = elim (test_true (eqz b (pos 0)) (eqz a m) (eqz b (negsuc 0)) h) [
  | inl zeroed ↦ inl (eqz_lem b (pos 0) zeroed)
  | inr (same, minus) ↦ inr (eqz_lem a m same, eqz_lem b (negsuc 0) minus)
]

-- Two numbers that the test tells apart.
differs : (a b : ℤ) → eqz a b ≡ false → a ≢ b
differs a b h e = cc (h, ap (λ x. eqz x b) e, eqz_self b)

accepts_cases : (a b m : ℤ) → refuses a b m ≡ false → (b ≢ pos 0) × (a ≡ m → b ≢ negsuc 0)
accepts_cases a b m h =
    let (nonzero, rest) = test_false (eqz b (pos 0)) (eqz a m) (eqz b (negsuc 0)) h in
    (
      differs b (pos 0) nonzero,
      λ same. differs b (negsuc 0) (rest (ap (λ x. eqz x m) same ∙ eqz_self m)),
    )

fold_sdiv_lem :
    (bits l r : ℕ)
    → 0 < bits
    → bits ≤ 64
    → l < 2 ^ bits
    → r < 2 ^ bits
    → fold_sdiv bits l r ≡ (
        if refuses (signed bits l) (signed bits r) (negsuc (2 ^ (bits - 1) - 1))
        then declined
        else done (trunc_bits (as_u64 (div_trunc (signed bits l) (signed bits r))) bits))
unfolding fold_sdiv
fold_sdiv_lem bits l r lo hi hl hr =
    rw
      (
        sign_extend_lem l bits lo hi,
        sign_extend_lem r bits lo hi,
        mod-eq_of_lt hl,
        mod-eq_of_lt hr,
        least bits hi,
      )
      refl

fold_srem_lem :
    (bits l r : ℕ)
    → 0 < bits
    → bits ≤ 64
    → l < 2 ^ bits
    → r < 2 ^ bits
    → fold_srem bits l r ≡ (
        if eqz (signed bits r) (pos 0)
        then declined
        else done (trunc_bits (as_u64 (rem_trunc (signed bits l) (signed bits r))) bits))
unfolding fold_srem
fold_srem_lem bits l r lo hi hl hr =
    rw
      (sign_extend_lem l bits lo hi, sign_extend_lem r bits lo hi, mod-eq_of_lt hl, mod-eq_of_lt hr)
      refl

module _ {ctx : Context} {lhs rhs : ValueRef} {ty bits l r : ℕ}
    (h : IntOperands ctx lhs rhs ty bits l r) where
  sdiv_typed :
      (exact : Bool)
      → try_fold ctx (sdiv exact lhs rhs)
        ≡ (typed ty (fold_sdiv bits l r) >>= λ p. done (const_int ctx p.0 p.1))
  unfolding try_fold
  sdiv_typed exact = rw (fold_binary_lem h, int_bit_width_lem h) refl

  srem_typed :
      try_fold ctx (srem lhs rhs)
      ≡ (typed ty (fold_srem bits l r) >>= λ p. done (const_int ctx p.0 p.1))
  unfolding try_fold
  srem_typed = rw (fold_binary_lem h, int_bit_width_lem h) refl

  -- Folding a signed division of two constants of an integer type of 1 to 64 bits: it is declined
  -- only for a zero divisor or for the least number by -1, and otherwise gives a constant of the
  -- type, stored in its width, that reads as the quotient rounded towards zero.
  pub try_fold_sdiv_lem :
      (exact : Bool)
      → ((try_fold ctx (sdiv exact lhs rhs) ≡ declined)
          × ((signed bits r ≡ pos 0)
              ⊎ ((signed bits l ≡ negsuc (2 ^ (bits - 1) - 1)) × (signed bits r ≡ negsuc 0))))
        ⊎ ((v : ℕ) × (try_fold ctx (sdiv exact lhs rhs) ≡ done (const_int ctx ty v))
            × (v < 2 ^ bits)
            × (signed bits r ≢ pos 0)
            × (signed bits v ≡ div_trunc (signed bits l) (signed bits r)))
  unfolding typed
  try_fold_sdiv_lem exact =
      let a = signed bits l in
      let b = signed bits r in
      let m = negsuc (2 ^ (bits - 1) - 1) in
      let run = sdiv_typed exact in
      let out = fold_sdiv_lem bits l r h.wide h.narrow h.left_fits h.right_fits in
      elim (Bool-cases (refuses a b m)) [
        | inl refused ↦ inl (rw (run, out, refused) refl, refused_cases a b m refused)
        | inr accepted ↦
            let (nonzero, no_overflow) = accepts_cases a b m accepted in
            let fits =
              div_trunc-InRange a b bits (signed-InRange l bits h.wide h.left_fits)
                (signed-InRange r bits h.wide h.right_fits) no_overflow in
            inr (
              trunc_bits (as_u64 (div_trunc a b)) bits,
              rw (run, out, accepted) refl,
              rw (trunc_bits_lem (div_trunc a b) bits h.narrow) (pattern_fits (div_trunc a b) bits),
              nonzero,
              folded (div_trunc a b) bits h.wide h.narrow fits,
            )
      ]

  -- Folding a signed remainder of two constants of an integer type of 1 to 64 bits: it is declined
  -- only for a zero divisor, and otherwise gives a constant of the type, stored in its width, that
  -- reads as the remainder with the sign of the dividend.
  pub try_fold_srem_lem :
      ((try_fold ctx (srem lhs rhs) ≡ declined) × (signed bits r ≡ pos 0))
      ⊎ ((v : ℕ) × (try_fold ctx (srem lhs rhs) ≡ done (const_int ctx ty v))
          × (v < 2 ^ bits)
          × (signed bits r ≢ pos 0)
          × (signed bits v ≡ rem_trunc (signed bits l) (signed bits r)))
  unfolding typed
  try_fold_srem_lem =
      let a = signed bits l in
      let b = signed bits r in
      let out = fold_srem_lem bits l r h.wide h.narrow h.left_fits h.right_fits in
      elim (Bool-cases (eqz b (pos 0))) [
        | inl refused ↦ inl (rw (srem_typed, out, refused) refl, eqz_lem b (pos 0) refused)
        | inr accepted ↦
            let fits =
              rem_trunc-InRange a b bits (signed-InRange l bits h.wide h.left_fits)
                (signed-InRange r bits h.wide h.right_fits) in
            inr (
              trunc_bits (as_u64 (rem_trunc a b)) bits,
              rw (srem_typed, out, accepted) refl,
              rw (trunc_bits_lem (rem_trunc a b) bits h.narrow) (pattern_fits (rem_trunc a b) bits),
              differs b (pos 0) accepted,
              folded (rem_trunc a b) bits h.wide h.narrow fits,
            )
      ]

  -- Folding an unsigned division or remainder of two constants of an integer type of 1 to 64 bits:
  -- it is declined exactly for a zero divisor, and otherwise gives the constant of the type with the
  -- quotient or the remainder, which is stored in the type's width.
  pub try_fold_unsigned_lem :
      (exact : Bool)
      → ((r ≡ 0)
          × (try_fold ctx (udiv exact lhs rhs) ≡ declined)
          × (try_fold ctx (urem lhs rhs) ≡ declined))
        ⊎ ((r ≢ 0)
            × (try_fold ctx (udiv exact lhs rhs) ≡ done (const_int ctx ty (l / r)))
            × (try_fold ctx (urem lhs rhs) ≡ done (const_int ctx ty (l % r)))
            × (l / r < 2 ^ bits)
            × (l % r < 2 ^ bits))
  unfolding try_fold
  try_fold_unsigned_lem exact = elim (Bool-cases (r == 0)) [
    | inl refused ↦ inl (
      (==_iff r 0).0 refused,
      rw (fold_binary_lem h, refused) refl,
      rw (fold_binary_lem h, refused) refl,
    )
    | inr accepted ↦ inr (
      (λ e. let z = (==_iff r 0).1 e in cc (z, accepted)),
      rw (fold_binary_lem h, accepted) refl,
      rw (fold_binary_lem h, accepted) refl,
      omega (arith, div-le_self l r, h.left_fits),
      omega (arith, mod-le l r, h.left_fits),
    )
  ]
