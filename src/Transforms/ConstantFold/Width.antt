-- ===== src/Transforms/ConstantFold/Width.antt =====
-- llvm-transforms/src/constant_fold.rs: the signed reading of a stored value, and back.
use llvm_in_rust.Base.{
  ℕ, zero, suc, ◌+◌, ◌-◌, ◌*◌, ◌/◌, ◌%◌, ◌^◌, ◌≤◌, ◌<◌, ◌≡◌, refl, sym, ap, ◌∙◌, inl, inr, arith,
  ltb, leb, Bool-cases, ltb→lt, lt→ltb, not_ltb, le→leb, ≤_of_not_ltb, le→leb, if◌then◌else◌,
}
use native.Mathlib.Nat.{
  mul-div_left, mul-lt-mul_of_pos_right, mul-le-mul_right, mod-lt, mod-eq_of_lt,
}
use llvm_in_rust.Base.Pow.{pow_split, pow_pos, mod_pow, mul-mod-mul, mul-add-div, complement_mod}
use llvm_in_rust.Base.Bits.{bit_and_mask}
use llvm_in_rust.Base.Attempt.{done}
use llvm_in_rust.Base.Int.{ℤ, pos, negsuc, negate, as_i64, as_u64, asr}
use llvm_in_rust.Transforms.ConstantFold.{sign_extend, trunc_bits}

-- The number that the low `bits` bits of `v` stand for in two's complement.
unfoldable pub signed : ℕ → ℕ → ℤ
signed bits v = if ltb v (2 ^ (bits - 1)) then pos v else negate (2 ^ bits - v)

-- The bit pattern of width `bits` of a signed number.
unfoldable pub pattern : ℕ → ℤ → ℕ
pattern bits (pos n) = n % 2 ^ bits
pattern bits (negsuc n) = 2 ^ bits - 1 - n % 2 ^ bits

-- Doubling a power.
pub pow_half : (bits : ℕ) → 0 < bits → 2 ^ bits ≡ 2 ^ (bits - 1) * 2
pow_half bits h =
    let e : bits - (bits - 1) ≡ 1 = omega arith in
    pow_split (bits - 1) bits (omega arith) ∙ ap (λ (t : ℕ). 2 ^ (bits - 1) * 2 ^ t) e

pub negate_pos : (n : ℕ) → 0 < n → negate n ≡ negsuc (n - 1)
negate_pos zero h = absurd (omega arith)
negate_pos (suc n) h = ap negsuc (omega arith)

asr-pos : (w s : ℕ) → asr (pos (w * 2 ^ s)) s ≡ pos w
unfolding asr
asr-pos w s = ap pos (mul-div_left w (pow_pos s))

asr-negate : (d s : ℕ) → 0 < d → asr (negate (d * 2 ^ s)) s ≡ negate d
unfolding asr
asr-negate zero s h = absurd (omega arith)
asr-negate (suc d) s h =
    let k = pow_pos s in
    ap (λ z. asr z s) (negate_pos (suc d * 2 ^ s) (omega arith))
    ∙ ap negsuc (ap (λ (t : ℕ). t / 2 ^ s) shape ∙ mul-add-div d (2 ^ s - 1) (2 ^ s) (omega arith))
  where
    shape : suc d * 2 ^ s - 1 ≡ d * 2 ^ s + (2 ^ s - 1)
    shape = omega (arith, pow_pos s)

below : (n bits : ℕ) → 0 < bits → n < 2 ^ (bits - 1) → n < 2 ^ bits
below n bits lo h = omega (arith, pow_half bits lo)

-- A shifted reading, shifted back.
shift_back :
    (w h s : ℕ)
    → h * 2 ^ s ≡ 2 ^ 63
    → w < h * 2
    → asr (as_i64 (w * 2 ^ s)) s ≡ (if ltb w h then pos w else negate (h * 2 - w))
unfolding as_i64
shift_back w h s half fits = elim (Bool-cases (ltb w h)) [
  | inl low ↦
      let below = mul-lt-mul_of_pos_right (ltb→lt w h low) (pow_pos s) in
      rw (low, as_i64, lt→ltb (w * 2 ^ s) (2 ^ 63) (rw (← half) below)) (asr-pos w s)
  | inr high ↦
      let above = mul-le-mul_right (2 ^ s) (≤_of_not_ltb w h high) in
      rw (high, as_i64, not_ltb (w * 2 ^ s) (2 ^ 63) (rw (← half) above), rest)
        (asr-negate (h * 2 - w) s (omega arith))
]
  where
    rest : 2 ^ 64 - w * 2 ^ s ≡ (h * 2 - w) * 2 ^ s
    rest =
        let gap : h * 2 ≡ w + (h * 2 - w) = omega arith in
        omega (arith, half, ap (λ (t : ℕ). t * 2 ^ s) gap)

pub sign_extend_lem :
    (v bits : ℕ) → 0 < bits → bits ≤ 64 → sign_extend v bits ≡ done (signed bits (v % 2 ^ bits))
unfolding sign_extend signed
sign_extend_lem v bits lo hi =
    rw (lt→ltb 0 bits lo, le→leb bits 64 hi)
      (ap done (
        ap (λ (t : ℕ). asr (as_i64 t) (64 - bits)) moved
        ∙ shift_back (v % 2 ^ bits) (2 ^ (bits - 1)) (64 - bits) half fits
        ∙ ap
            (λ (t : ℕ).
              if ltb (v % 2 ^ bits) (2 ^ (bits - 1))
              then pos (v % 2 ^ bits)
              else negate (t - v % 2 ^ bits))
            (sym (pow_half bits lo))))
  where
    whole : 2 ^ 64 ≡ 2 ^ bits * 2 ^ (64 - bits)
    whole = pow_split bits 64 hi

    moved : v * 2 ^ (64 - bits) % 2 ^ 64 ≡ v % 2 ^ bits * 2 ^ (64 - bits)
    moved =
        ap (λ (t : ℕ). v * 2 ^ (64 - bits) % t) whole
        ∙ mul-mod-mul v (2 ^ bits) (2 ^ (64 - bits)) (pow_pos bits) (pow_pos (64 - bits))

    half : 2 ^ (bits - 1) * 2 ^ (64 - bits) ≡ 2 ^ 63
    half = omega (arith, whole, ap (λ (t : ℕ). t * 2 ^ (64 - bits)) (pow_half bits lo))

    fits : v % 2 ^ bits < 2 ^ (bits - 1) * 2
    fits = rw (← pow_half bits lo) (mod-lt v (pow_pos bits))

trunc_bits_mod : (v bits : ℕ) → v < 2 ^ 64 → bits ≤ 64 → trunc_bits v bits ≡ v % 2 ^ bits
unfolding trunc_bits
trunc_bits_mod v bits fits hi = elim (Bool-cases (leb 64 bits)) [
  | inl full ↦ let e : bits ≡ 64 = ground (arith, full) in rw full (sym (mod-eq_of_lt (rw e fits)))
  | inr short ↦ rw short (bit_and_mask v bits)
]

-- Cutting a machine number to the low bits gives the pattern of the number.
pub trunc_bits_lem : (z : ℤ) (bits : ℕ) → bits ≤ 64 → trunc_bits (as_u64 z) bits ≡ pattern bits z
unfolding pattern as_u64
trunc_bits_lem (pos n) bits hi =
    trunc_bits_mod (n % 2 ^ 64) bits (omega arith) hi ∙ mod_pow n bits 64 hi
trunc_bits_lem (negsuc n) bits hi =
    trunc_bits_mod (2 ^ 64 - 1 - n % 2 ^ 64) bits (omega arith) hi
    ∙ complement_mod (n % 2 ^ 64) bits 64 hi (omega arith)
    ∙ ap (λ (t : ℕ). 2 ^ bits - 1 - t) (mod_pow n bits 64 hi)

-- The signed range of a width.
unfoldable pub InRange : ℕ → ℤ → Type 0
InRange bits (pos n) = n < 2 ^ (bits - 1)
InRange bits (negsuc n) = n < 2 ^ (bits - 1)

-- Reading back the pattern of a number in range.
pub signed-pattern :
    (z : ℤ) (bits : ℕ) → 0 < bits → InRange bits z → signed bits (pattern bits z) ≡ z
unfolding InRange signed pattern
signed-pattern (pos n) bits lo h =
    rw (mod-eq_of_lt (below n bits lo h), lt→ltb n (2 ^ (bits - 1)) h) refl
signed-pattern (negsuc n) bits lo h =
    rw
      (
        mod-eq_of_lt (below n bits lo h),
        not_ltb (2 ^ bits - 1 - n) (2 ^ (bits - 1)) (omega (arith, pow_half bits lo)),
        back,
      )
      refl
  where
    back : 2 ^ bits - (2 ^ bits - 1 - n) ≡ suc n
    back = omega (arith, below n bits lo h)

pub signed-InRange : (v bits : ℕ) → 0 < bits → v < 2 ^ bits → InRange bits (signed bits v)
unfolding InRange signed
signed-InRange v bits lo h = elim (Bool-cases (ltb v (2 ^ (bits - 1)))) [
  | inl low ↦ rw low (ltb→lt v (2 ^ (bits - 1)) low)
  | inr high ↦
      let above = ≤_of_not_ltb v (2 ^ (bits - 1)) high in
      rw (high, negate_pos (2 ^ bits - v) (omega arith)) (omega (arith, pow_half bits lo))
]

pub pattern_fits : (z : ℤ) (bits : ℕ) → pattern bits z < 2 ^ bits
unfolding pattern
pattern_fits (pos n) bits = mod-lt n (pow_pos bits)
pattern_fits (negsuc n) bits = omega (arith, pow_pos bits)
