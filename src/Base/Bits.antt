-- ===== src/Base/Bits.antt =====
-- Bitwise operations on the native numbers, as arithmetic.
use Prim.Native.Nat.{
  ℕ, zero, suc, ◌+◌, ◌-◌, ◌*◌, ◌/◌, ◌%◌, ◌^◌, ◌≤◌, ◌<◌, min, max, digits, differ, bit_and, bit_or,
  bit_xor, bit_and-bitwise, bit_or-bitwise, bit_xor-bitwise,
}
use mathlib.Core.Path.{◌≡◌, refl, sym, ap, ◌∙◌}
use native.Mathlib.Omega.{arith}
use native.Mathlib.Nat.{pow-suc, zero-mod, mul-add-mod_self_left, mod-eq_of_lt, mod-lt, div-add-mod}
use llvm_in_rust.Base.Pow.{pow_pos}

-- A remainder, lowest digit apart.
pub mod_step : (x k : ℕ) → x % 2 ^ suc k ≡ x / 2 % 2 ^ k * 2 + x % 2
mod_step x k =
    ap (λ (t : ℕ). t % 2 ^ suc k) split
    ∙ mul-add-mod_self_left (2 ^ suc k) (x / 2 / 2 ^ k) (x / 2 % 2 ^ k * 2 + x % 2)
    ∙ mod-eq_of_lt (omega (arith, pow-suc 2 k, mod-lt (x / 2) (pow_pos k)))
  where
    split : x ≡ 2 ^ suc k * (x / 2 / 2 ^ k) + (x / 2 % 2 ^ k * 2 + x % 2)
    split =
        omega
          (arith, div-add-mod (x / 2) (2 ^ k), ap (λ (t : ℕ). t * (x / 2 / 2 ^ k)) (pow-suc 2 k))

-- No digit of zero is set.
digits_and_zero : (n a : ℕ) → digits (λ b. 0) min n a 0 ≡ 0
digits_and_zero zero a = refl
digits_and_zero (suc n) zero = refl
digits_and_zero (suc n) (suc a) = omega (arith, digits_and_zero n (suc a / 2))

-- A mask of low bits, digit by digit.
digits_and_mask : (n a k : ℕ) → a ≤ n → digits (λ b. 0) min n a (2 ^ k - 1) ≡ a % 2 ^ k
digits_and_mask n a zero h = digits_and_zero n a ∙ omega arith
digits_and_mask zero zero (suc k) h = sym (zero-mod (2 ^ suc k))
digits_and_mask zero (suc a) (suc k) h = absurd (omega arith)
digits_and_mask (suc n) zero (suc k) h = sym (zero-mod (2 ^ suc k))
digits_and_mask (suc n) (suc a) (suc k) h =
    let p = pow_pos k in
    let halved : (2 ^ suc k - 1) / 2 ≡ 2 ^ k - 1 = omega (arith, p, pow-suc 2 k) in
    omega (
      arith,
      mod_step (suc a) k,
      p,
      pow-suc 2 k,
      digits_and_mask n (suc a / 2) k (omega arith),
      ap (λ (t : ℕ). digits (λ b. 0) min n (suc a / 2) t) halved,
    )

-- A mask of `k` low bits is the remainder by `2 ^ k`.
pub bit_and_mask : (a k : ℕ) → bit_and a (2 ^ k - 1) ≡ a % 2 ^ k
bit_and_mask a k = simp bit_and-bitwise (digits_and_mask a a k (omega arith))

-- An operation on digits does not leave the width.
module _ (z : ℕ → ℕ) (f : ℕ → ℕ → ℕ) (z_fits : (k b : ℕ) → b < 2 ^ k → z b < 2 ^ k)
    (f_fits : (a b : ℕ) → a < 2 → b < 2 → f a b < 2) where
  digits_fits : (n k a b : ℕ) → a < 2 ^ k → b < 2 ^ k → digits z f n a b < 2 ^ k
  digits_fits zero k a b ha hb = z_fits k b hb
  digits_fits (suc n) k zero b ha hb = z_fits k b hb
  digits_fits (suc n) zero (suc a) b ha hb = absurd (omega arith)
  digits_fits (suc n) (suc k) (suc a) b ha hb = omega (
    arith,
    pow-suc 2 k,
    digits_fits n k (suc a / 2) (b / 2) (omega (arith, pow-suc 2 k)) (omega (arith, pow-suc 2 k)),
    f_fits (suc a % 2) (b % 2) (omega arith) (omega arith),
  )

pub bit_and_fits : (k a b : ℕ) → a < 2 ^ k → b < 2 ^ k → bit_and a b < 2 ^ k
bit_and_fits k a b ha hb =
    simp bit_and-bitwise
      (digits_fits (λ b. 0) min (λ k b h. pow_pos k) (λ a b p q. omega arith) a k a b ha hb)

pub bit_or_fits : (k a b : ℕ) → a < 2 ^ k → b < 2 ^ k → bit_or a b < 2 ^ k
bit_or_fits k a b ha hb =
    simp bit_or-bitwise
      (digits_fits (λ b. b) max (λ k b h. h) (λ a b p q. omega arith) a k a b ha hb)

differ_fits : (a b : ℕ) → a < 2 → b < 2 → differ a b < 2
differ_fits zero b p q = q
differ_fits (suc a) zero p q = p
differ_fits (suc a) (suc b) p q = differ_fits a b (omega arith) (omega arith)

pub bit_xor_fits : (k a b : ℕ) → a < 2 ^ k → b < 2 ^ k → bit_xor a b < 2 ^ k
bit_xor_fits k a b ha hb =
    simp bit_xor-bitwise (digits_fits (λ b. b) differ (λ k b h. h) differ_fits a k a b ha hb)

-- The binary digit `i` of a number, counted from the lowest.
abbrev pub bit : ℕ → ℕ → ℕ
bit v zero = v % 2
bit v (suc i) = bit (v / 2) i

bit_zero : (i : ℕ) → bit 0 i ≡ 0
bit_zero zero = refl
bit_zero (suc i) = bit_zero i

bit_lt : (v i : ℕ) → bit v i < 2
bit_lt v zero = omega arith
bit_lt v (suc i) = bit_lt (v / 2) i

-- An operation on digits acts on each of them.
module _ (z : ℕ → ℕ) (f : ℕ → ℕ → ℕ) (z_bit : (b i : ℕ) → bit (z b) i ≡ f 0 (bit b i))
    (f_fits : (a b : ℕ) → a < 2 → b < 2 → f a b < 2) where
  bit-digits : (n a b i : ℕ) → a ≤ n → bit (digits z f n a b) i ≡ f (bit a i) (bit b i)
  bit-digits zero zero b i h = z_bit b i ∙ ap (λ (t : ℕ). f t (bit b i)) (sym (bit_zero i))
  bit-digits zero (suc a) b i h = absurd (omega arith)
  bit-digits (suc n) zero b i h = z_bit b i ∙ ap (λ (t : ℕ). f t (bit b i)) (sym (bit_zero i))
  bit-digits (suc n) (suc a) b zero h =
      omega (arith, f_fits (suc a % 2) (b % 2) (omega arith) (omega arith))
  bit-digits (suc n) (suc a) b (suc i) h =
      let halved : digits z f (suc n) (suc a) b / 2 ≡ digits z f n (suc a / 2) (b / 2) =
        omega (arith, f_fits (suc a % 2) (b % 2) (omega arith) (omega arith)) in
      ap (λ (t : ℕ). bit t i) halved ∙ bit-digits n (suc a / 2) (b / 2) i (omega arith)

pub bit-bit_and : (a b i : ℕ) → bit (bit_and a b) i ≡ min (bit a i) (bit b i)
bit-bit_and a b i = simp bit_and-bitwise (
    bit-digits (λ b. 0) min (λ b i. omega (arith, bit_zero i)) (λ a b p q. omega arith) a a b i
      (omega arith))

pub bit-bit_or : (a b i : ℕ) → bit (bit_or a b) i ≡ max (bit a i) (bit b i)
bit-bit_or a b i =
    simp bit_or-bitwise
      (bit-digits (λ b. b) max (λ b i. omega arith) (λ a b p q. omega arith) a a b i (omega arith))

-- Two digits differ when their sum is odd.
differ_lem : (a b : ℕ) → a < 2 → b < 2 → differ a b ≡ (a + b) % 2
differ_lem zero b p q = omega arith
differ_lem (suc zero) zero p q = refl
differ_lem (suc zero) (suc zero) p q = refl
differ_lem (suc zero) (suc (suc b)) p q = absurd (omega arith)
differ_lem (suc (suc a)) b p q = absurd (omega arith)

pub bit-bit_xor : (a b i : ℕ) → bit (bit_xor a b) i ≡ (bit a i + bit b i) % 2
bit-bit_xor a b i =
    simp bit_xor-bitwise
      (bit-digits (λ b. b) differ (λ b i. refl) differ_fits a a b i (omega arith))
    ∙ differ_lem (bit a i) (bit b i) (bit_lt a i) (bit_lt b i)
