-- ===== src/Base/Pow.antt =====
-- Powers of two, and remainders by them.
use Prim.Native.Nat.{ℕ, zero, suc, ◌+◌, ◌-◌, ◌*◌, ◌/◌, ◌%◌, ◌^◌, ◌≤◌, ◌<◌}
use mathlib.Core.Path.{◌≡◌, ap, ◌∙◌}
use native.Mathlib.Omega.{arith}
use native.Mathlib.Nat.{
  pow-suc, one-le-pow, add-zero, add-suc, dvd-mul_right, mod-mod_of_dvd, mul-add-mod_self_left,
  mod-eq_of_lt, div-add-mod, mod-lt, mul-add-div_right, pow-le-pow_right, div-lt_iff_lt-mul,
  div-eq_of_lt,
}

pub pow_add : (a b : ℕ) → 2 ^ (a + b) ≡ 2 ^ a * 2 ^ b
pow_add a zero = rw add-zero (omega arith)
pow_add a (suc b) =
    rw (add-suc, pow-suc, pow-suc) (omega (arith, ap (λ (t : ℕ). t * 2) (pow_add a b)))

-- A power of two splits at every bit below its exponent.
pub pow_split : (a n : ℕ) → a ≤ n → 2 ^ n ≡ 2 ^ a * 2 ^ (n - a)
pow_split a n h =
    let e : n ≡ a + (n - a) = omega arith in ap (λ (t : ℕ). 2 ^ t) e ∙ pow_add a (n - a)

pub pow_pos : (n : ℕ) → 0 < 2 ^ n
pow_pos n = one-le-pow n 2 (omega arith)

-- A longer remainder does not change a shorter one.
pub mod_pow : (x a n : ℕ) → a ≤ n → x % 2 ^ n % 2 ^ a ≡ x % 2 ^ a
mod_pow x a n h =
    mod-mod_of_dvd (2 ^ a) x (rw (pow_split a n h) (dvd-mul_right (2 ^ a) (2 ^ (n - a))))

-- The remainder of a multiple is the multiple of the remainder.
pub mul-mod-mul : (x n k : ℕ) → 0 < n → 0 < k → x * k % (n * k) ≡ x % n * k
mul-mod-mul x n k hn hk =
    ap (λ (t : ℕ). t % (n * k)) split
    ∙ mul-add-mod_self_left (n * k) (x / n) (x % n * k)
    ∙ mod-eq_of_lt (grind (arith, mod-lt x hn))
  where
    split : x * k ≡ n * k * (x / n) + x % n * k
    split = omega (arith, ap (λ (t : ℕ). t * k) (div-add-mod x n))

-- Dividing away a shift.
pub mul-add-div : (q r k : ℕ) → r < k → (q * k + r) / k ≡ q
mul-add-div q r k h = mul-add-div_right (omega arith) q r ∙ omega (arith, div-eq_of_lt h)

-- The complement in a longer width, cut to a shorter one, is the complement in the shorter one.
pub complement_mod :
    (y a n : ℕ) → a ≤ n → y < 2 ^ n → (2 ^ n - 1 - y) % 2 ^ a ≡ 2 ^ a - 1 - y % 2 ^ a
complement_mod y a n h fits =
    ap (λ (t : ℕ). t % 2 ^ a) split
    ∙ mul-add-mod_self_left (2 ^ a) (2 ^ (n - a) - 1 - y / 2 ^ a) (2 ^ a - 1 - y % 2 ^ a)
    ∙ mod-eq_of_lt (omega (arith, pow_pos a))
  where
    quotient_lt : y / 2 ^ a < 2 ^ (n - a)
    quotient_lt = (div-lt_iff_lt-mul (pow_pos a)).1 (omega (arith, pow_split a n h))

    split : 2 ^ n - 1 - y ≡ 2 ^ a * (2 ^ (n - a) - 1 - y / 2 ^ a) + (2 ^ a - 1 - y % 2 ^ a)
    split =
        let gap : 2 ^ (n - a) ≡ y / 2 ^ a + 1 + (2 ^ (n - a) - 1 - y / 2 ^ a) =
          omega (arith, quotient_lt) in
        omega (
          arith,
          pow_split a n h,
          ap (λ (t : ℕ). 2 ^ a * t) gap,
          div-add-mod y (2 ^ a),
          mod-lt y (pow_pos a),
        )

pub pow_mono : (a b : ℕ) → a ≤ b → 2 ^ a ≤ 2 ^ b
pow_mono a b h = pow-le-pow_right (omega arith) h
