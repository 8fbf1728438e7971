-- ===== src/Base/Text.antt =====
-- Equality of texts, and Rust's decimal `format!` of a u32.
use Prim.Native.Nat.{ℕ, zero, suc, ◌/◌, ◌%◌}
use Prim.Native.Char.{Char}
use Prim.Native.String.{String}
use mathlib.Core.Path.{◌≡◌, refl}
use mathlib.Core.Logic.{inl, inr}
use mathlib.Core.Bool.{false}
use text.Mathlib.Text.{◌==◌ as str_eq}
use text.Mathlib.TextEquality.{eq_iff}
use llvm_in_rust.Base.Tests.{Bool-cases, ltb, ◌==◌, if◌then◌else◌}

pub differ : (s t : String) → str_eq s t ≡ false → ¬ (s ≡ t)
differ s t e p = cc (e, (eq_iff s t).1 p)

unfoldable pub String-discrete : Discrete String
unfolding Bool-cases
String-discrete s t = elim (Bool-cases (str_eq s t)) [
  | inl e ↦ yes ((eq_iff s t).0 e)
  | inr e ↦ no (differ s t e)
]

digit : ℕ → Char
digit n =
    if n == 0
    then "0"
    else if n == 1
    then "1"
    else if n == 2
    then "2"
    else if n == 3
    then "3"
    else if n == 4
    then "4"
    else if n == 5
    then "5"
    else if n == 6
    then "6"
    else if n == 7
    then "7"
    else if n == 8
    then "8"
    else "9"

digits_from : ℕ → ℕ → String → String
unfolding digit
digits_from zero n acc = acc
digits_from (suc fuel) n acc =
    let more = digits_from fuel (n / 10) (String.◌∷◌ (digit (n % 10)) acc) in
    if ltb n 10 then String.◌∷◌ (digit n) acc else more

-- `format!("v{n}")`: a u32 has ten digits at most.
unfoldable pub format_v : ℕ → String
unfolding digits_from
format_v n = String.◌∷◌ "v" (digits_from 10 n "")

format_v_test : format_v 4294967295 ≡ "v4294967295"
unfolding format_v
format_v_test = refl
