-- ===== src/Transforms/ConstantFold/Compare.antt =====
-- llvm-transforms/src/constant_fold.rs: folding of comparisons.
use native.Mathlib.Nat.{mod-eq_of_lt, add-mod_right}
use llvm_in_rust.Base.{
  ℕ, ◌+◌, ◌-◌, ◌%◌, ◌^◌, ◌≤◌, ◌<◌, ◌≡◌, ◌≢◌, refl, ap, ◌∙◌, ◌⊎◌, inl, inr, Bool, true, false, not,
  arith, ltb, leb, ltb→lt, lt→ltb, ≤_of_not_ltb, not_ltb, Bool-cases, ◌==◌,
}
use llvm_in_rust.Base.Attempt.{done}
use llvm_in_rust.Base.Int.{ℤ, pos, negsuc, ltz}
use llvm_in_rust.Ir.Ids.{ValueRef}
use llvm_in_rust.Ir.Ops.{IntPredicate, eq, ne, ugt, uge, ult, ule, sgt, sge, slt, sle}
use llvm_in_rust.Ir.Instr.{icmp}
use llvm_in_rust.Ir.Context.{Context}
use llvm_in_rust.Ir.Constants.{const_int}
use llvm_in_rust.Transforms.ConstantFold.{try_fold, icmp_eval, signed_test}
use llvm_in_rust.Transforms.ConstantFold.Operands.{IntOperands, fold_binary_lem, int_bit_width_lem}
use llvm_in_rust.Transforms.ConstantFold.Width.{signed, sign_extend_lem, pow_half, negate_pos}

-- The value with its sign bit flipped: the signed order is the order of these.
unfoldable pub biased : ℕ → ℕ → ℕ
biased bits v = (v + 2 ^ (bits - 1)) % 2 ^ bits

-- The relation that a predicate stands for.
unfoldable pub Holds : IntPredicate → ℕ → ℕ → ℕ → Type 0
Holds eq bits l r = l ≡ r
Holds ne bits l r = l ≢ r
Holds ugt bits l r = r < l
Holds uge bits l r = r ≤ l
Holds ult bits l r = l < r
Holds ule bits l r = l ≤ r
Holds sgt bits l r = biased bits r < biased bits l
Holds sge bits l r = biased bits r ≤ biased bits l
Holds slt bits l r = biased bits l < biased bits r
Holds sle bits l r = biased bits l ≤ biased bits r

-- The lower half of the patterns is moved up, and the upper half down.
biased_low : (bits v : ℕ) → 0 < bits → v < 2 ^ (bits - 1) → biased bits v ≡ v + 2 ^ (bits - 1)
unfolding biased
biased_low bits v lo h = mod-eq_of_lt (omega (arith, pow_half bits lo))

biased_high :
    (bits v : ℕ) → 0 < bits → 2 ^ (bits - 1) ≤ v → v < 2 ^ bits → biased bits v ≡ v - 2 ^ (bits - 1)
unfolding biased
biased_high bits v lo h fits =
    ap (λ (t : ℕ). t % 2 ^ bits) (omega (arith, pow_half bits lo))
    ∙ add-mod_right (v - 2 ^ (bits - 1)) (2 ^ bits)
    ∙ mod-eq_of_lt (omega arith)

signed_low : (bits v : ℕ) → v < 2 ^ (bits - 1) → signed bits v ≡ pos v
unfolding signed
signed_low bits v h = rw (lt→ltb v (2 ^ (bits - 1)) h) refl

signed_high :
    (bits v : ℕ) → 2 ^ (bits - 1) ≤ v → v < 2 ^ bits → signed bits v ≡ negsuc (2 ^ bits - v - 1)
unfolding signed
signed_high bits v h fits =
    rw (not_ltb v (2 ^ (bits - 1)) h) (negate_pos (2 ^ bits - v) (omega arith))

-- Which half a pattern is in, with both readings of it.
halves :
    (bits v : ℕ)
    → 0 < bits
    → v < 2 ^ bits
    → ((v < 2 ^ (bits - 1)) × (signed bits v ≡ pos v) × (biased bits v ≡ v + 2 ^ (bits - 1)))
      ⊎ ((2 ^ (bits - 1) ≤ v)
          × (signed bits v ≡ negsuc (2 ^ bits - v - 1))
          × (biased bits v ≡ v - 2 ^ (bits - 1)))
halves bits v lo fits = elim (Bool-cases (ltb v (2 ^ (bits - 1)))) [
  | inl low ↦
      let h = ltb→lt v (2 ^ (bits - 1)) low in inl (h, signed_low bits v h, biased_low bits v lo h)
  | inr high ↦
      let h = ≤_of_not_ltb v (2 ^ (bits - 1)) high in
      inr (h, signed_high bits v h fits, biased_high bits v lo h fits)
]

ltz_lem :
    (bits l r : ℕ)
    → 0 < bits
    → l < 2 ^ bits
    → r < 2 ^ bits
    → ltz (signed bits l) (signed bits r) ≡ ltb (biased bits l) (biased bits r)
unfolding ltz
ltz_lem bits l r lo hl hr = elim (halves bits l lo hl) [
  | inl (a, sl, bl) ↦ elim (halves bits r lo hr) [
    | inl (b, sr, br) ↦ rw (sl, sr, bl, br) (ground arith)
    | inr (b, sr, br) ↦ rw (sl, sr, bl, br) (ground (arith, pow_half bits lo))
  ]
  | inr (a, sl, bl) ↦ elim (halves bits r lo hr) [
    | inl (b, sr, br) ↦ rw (sl, sr, bl, br) (ground (arith, pow_half bits lo))
    | inr (b, sr, br) ↦ rw (sl, sr, bl, br) (ground (arith, pow_half bits lo))
  ]
]

-- The test tells whether the proposition holds.
abbrev Reflects : Bool → Type 0 → Type 0
Reflects b P = ((b ≡ true) × P) ⊎ ((b ≡ false) × ¬ P)

ltb-Reflects : (a b : ℕ) → Reflects (ltb a b) (a < b)
ltb-Reflects a b = elim (Bool-cases (ltb a b)) [
  | inl e ↦ inl (e, ltb→lt a b e)
  | inr e ↦ inr (e, λ h. let k = ≤_of_not_ltb a b e in absurd (omega arith))
]

not-ltb-Reflects : (a b : ℕ) → Reflects (not (ltb a b)) (b ≤ a)
not-ltb-Reflects a b = elim (Bool-cases (ltb a b)) [
  | inl e ↦ inr (ap not e, λ h. let k = ltb→lt a b e in absurd (omega arith))
  | inr e ↦ inl (ap not e, ≤_of_not_ltb a b e)
]

leb-Reflects : (a b : ℕ) → Reflects (leb a b) (a ≤ b)
leb-Reflects a b = elim (Bool-cases (leb a b)) [
  | inl e ↦ inl (e, ground arith)
  | inr e ↦ inr (e, λ h. absurd (ground arith))
]

==-Reflects : (a b : ℕ) → Reflects (a == b) (a ≡ b)
==-Reflects a b = elim (Bool-cases (a == b)) [
  | inl e ↦ inl (e, ground arith)
  | inr e ↦ inr (e, λ h. absurd (ground arith))
]

not-==-Reflects : (a b : ℕ) → Reflects (not (a == b)) (a ≢ b)
not-==-Reflects a b = elim (==-Reflects a b) [
  | inl (e, h) ↦ inr (ap not e, λ k. k h)
  | inr (e, h) ↦ inl (ap not e, h)
]

signed_test_lem :
    (test : ℤ → ℤ → Bool) (l r bits : ℕ)
    → 0 < bits
    → bits ≤ 64
    → l < 2 ^ bits
    → r < 2 ^ bits
    → signed_test test l r bits ≡ done (test (signed bits l) (signed bits r))
unfolding signed_test
signed_test_lem test l r bits lo hi hl hr =
    rw
      (sign_extend_lem l bits lo hi, sign_extend_lem r bits lo hi, mod-eq_of_lt hl, mod-eq_of_lt hr)
      refl

icmp_eval_lem :
    (p : IntPredicate) (l r bits : ℕ)
    → 0 < bits
    → bits ≤ 64
    → l < 2 ^ bits
    → r < 2 ^ bits
    → (b : Bool) × (icmp_eval p l r bits ≡ done b) × Reflects b (Holds p bits l r)
unfolding icmp_eval Holds
icmp_eval_lem eq l r bits lo hi hl hr = (l == r, refl, ==-Reflects l r)
icmp_eval_lem ne l r bits lo hi hl hr = (not (l == r), refl, not-==-Reflects l r)
icmp_eval_lem ugt l r bits lo hi hl hr = (ltb r l, refl, ltb-Reflects r l)
icmp_eval_lem uge l r bits lo hi hl hr = (leb r l, refl, leb-Reflects r l)
icmp_eval_lem ult l r bits lo hi hl hr = (ltb l r, refl, ltb-Reflects l r)
icmp_eval_lem ule l r bits lo hi hl hr = (leb l r, refl, leb-Reflects l r)
icmp_eval_lem sgt l r bits lo hi hl hr = (
  ltb (biased bits r) (biased bits l),
  signed_test_lem _ l r bits lo hi hl hr ∙ ap done (ltz_lem bits r l lo hr hl),
  ltb-Reflects (biased bits r) (biased bits l),
)
icmp_eval_lem sge l r bits lo hi hl hr = (
  not (ltb (biased bits l) (biased bits r)),
  signed_test_lem _ l r bits lo hi hl hr ∙ ap (λ t. done (not t)) (ltz_lem bits l r lo hl hr),
  not-ltb-Reflects (biased bits l) (biased bits r),
)
icmp_eval_lem slt l r bits lo hi hl hr = (
  ltb (biased bits l) (biased bits r),
  signed_test_lem _ l r bits lo hi hl hr ∙ ap done (ltz_lem bits l r lo hl hr),
  ltb-Reflects (biased bits l) (biased bits r),
)
icmp_eval_lem sle l r bits lo hi hl hr = (
  not (ltb (biased bits r) (biased bits l)),
  signed_test_lem _ l r bits lo hi hl hr ∙ ap (λ t. done (not t)) (ltz_lem bits r l lo hr hl),
  not-ltb-Reflects (biased bits r) (biased bits l),
)

-- Folding a comparison of two constants of an integer type of 1 to 64 bits gives the i1 constant 1
-- exactly when the predicate's relation holds of them, and 0 otherwise, where the signed relations
-- are the order of the patterns with the sign bit flipped.
pub try_fold_icmp_lem :
    {ctx : Context} {lhs rhs : ValueRef} {ty bits l r : ℕ}
    → IntOperands ctx lhs rhs ty bits l r
    → (p : IntPredicate)
    → ((try_fold ctx (icmp p lhs rhs) ≡ done (const_int ctx ctx.i1_ty 1)) × Holds p bits l r)
      ⊎ ((try_fold ctx (icmp p lhs rhs) ≡ done (const_int ctx ctx.i1_ty 0)) × ¬ Holds p bits l r)
unfolding try_fold
try_fold_icmp_lem {ctx} {bits = bits} {l} {r} h p =
    let (b, run, tells) = icmp_eval_lem p l r bits h.wide h.narrow h.left_fits h.right_fits in
    elim tells [
      | inl (e, holds) ↦ inl (rw (fold_binary_lem h, int_bit_width_lem h, run, e) refl, holds)
      | inr (e, fails) ↦ inr (rw (fold_binary_lem h, int_bit_width_lem h, run, e) refl, fails)
    ]
