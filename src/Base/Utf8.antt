-- ===== src/Base/Utf8.antt =====
-- UTF-8: the bytes of a text (`as_bytes`), and `String::from_utf8`, which refuses bytes that no
-- text has, overlong forms and surrogates included.
pub mod Laws
pub mod Nonempty
use Prim.Native.Nat.{ℕ, zero, suc, ◌+◌, ◌-◌, ◌*◌, ◌/◌, ◌%◌, ◌<◌, ◌≤◌}
use Prim.Native.Char.{Char, char, code, IsScalar}
use Prim.Native.String.{String}
use mathlib.Core.Path.{◌≡◌, refl, ap, ◌∙◌}
use mathlib.Core.Logic.{inl, inr}
use mathlib.Core.Bool.{true, ◌&&◌}
use mathlib.Core.List.{List, [], ◌∷◌, ◌++◌}
use mathlib.Core.Option.{Option, none, some}
use native.Mathlib.Decide.{dec_lt}
use native.Mathlib.Omega.{arith}
use text.Mathlib.TextEquality.{Char-path}
use llvm_in_rust.Base.Lists.{length}
use llvm_in_rust.Base.Tests.{
  ltb, leb, le→leb, lt→ltb, ltb→lt, not_ltb, ≤_of_not_ltb, Bool-cases, if◌then◌else◌,
}

pub low-IsScalar : (n : ℕ) → n < 55296 → IsScalar n
low-IsScalar n h = ground arith

pub high-IsScalar : (n : ℕ) → 57343 < n → n < 1114112 → IsScalar n
high-IsScalar n h k = ground arith

as_char_by : (n : ℕ) → Dec (n < 55296) → Dec (57343 < n) → Dec (n < 1114112) → Option Char
as_char_by n (yes h) _ _ = some (char n (low-IsScalar n h))
as_char_by n (no _) (yes h) (yes k) = some (char n (high-IsScalar n h k))
as_char_by n (no _) _ _ = none

as_char : ℕ → Option Char
as_char n = as_char_by n (dec_lt n 55296) (dec_lt 57343 n) (dec_lt n 1114112)

as_char_by_lem :
    (n : ℕ) (p : IsScalar n) (a : Dec (n < 55296)) (b : Dec (57343 < n)) (c : Dec (n < 1114112))
    → as_char_by n a b c ≡ some (char n p)
unfolding as_char_by
as_char_by_lem n p (yes h) b c = ap some (Char-path _ _ refl)
as_char_by_lem n p (no _) (yes h) (yes k) = ap some (Char-path _ _ refl)
as_char_by_lem n p (no a) (no b) c = absurd (ground (arith, p))
as_char_by_lem n p (no a) (yes b) (no c) = absurd (ground (arith, p))

as_char-code : (c : Char) → as_char (code c) ≡ some c
unfolding as_char
as_char-code (char n p) = as_char_by_lem n p (dec_lt n 55296) (dec_lt 57343 n) (dec_lt n 1114112)

-- The bytes of a character with the number `n`.
utf8_of : ℕ → List ℕ
utf8_of n =
    if ltb n 128
    then n ∷ []
    else if ltb n 2048
    then (192 + n / 64) ∷ (128 + n % 64) ∷ []
    else if ltb n 65536
    then (224 + n / 4096) ∷ (128 + n / 64 % 64) ∷ (128 + n % 64) ∷ []
    else (240 + n / 262144) ∷ (128 + n / 4096 % 64) ∷ (128 + n / 64 % 64) ∷ (128 + n % 64) ∷ []

unfoldable pub as_bytes : String → List ℕ
unfolding utf8_of
as_bytes String.[] = []
as_bytes (String.◌∷◌ c s) = utf8_of (code c) ++ as_bytes s

-- How many bytes of the character are to come, what is read of it, and the least number of its
-- length.
pub record Pending : Type 0 where
  pub need : ℕ
  pub acc : ℕ
  pub least : ℕ

abbrev pub ready : Pending
ready = record { need = 0; acc = 0; least = 0 }

pub data Step : Type 0 where
  bad : Step
  more : Pending → Step
  emit : Char → Step

finish : ℕ → Step
finish n = elim (as_char n) [ none ↦ bad | some c ↦ emit c ]

lead : ℕ → Step
lead b =
    if ltb b 128
    then finish b
    else if ltb b 192
    then bad
    else if ltb b 224
    then more (record { need = 1; acc = b - 192; least = 128 })
    else if ltb b 240
    then more (record { need = 2; acc = b - 224; least = 2048 })
    else if ltb b 248
    then more (record { need = 3; acc = b - 240; least = 65536 })
    else bad

continue : ℕ → ℕ → ℕ → ℕ → Step
continue k acc least b =
    if leb 128 b && ltb b 192
    then elim k [
      | zero ↦ if leb least (acc * 64 + (b - 128)) then finish (acc * 64 + (b - 128)) else bad
      | suc j ↦ more (record { need = suc j; acc = acc * 64 + (b - 128); least = least })
    ]
    else bad

step : Pending → ℕ → Step
step p b = elim p.need [ zero ↦ lead b | suc k ↦ continue k p.acc p.least b ]

push : Char → Option String → Option String
push c none = none
push c (some s) = some (String.◌∷◌ c s)

decode_from : Pending → List ℕ → Option String
decode_from p [] = elim p.need [ zero ↦ some "" | suc _ ↦ none ]
decode_from p (b ∷ bs) = elim (step p b) [
  | bad ↦ none
  | more q ↦ decode_from q bs
  | emit c ↦ push c (decode_from ready bs)
]

unfoldable pub from_utf8 : List ℕ → Option String
unfolding decode_from push step continue lead finish as_char as_char_by
from_utf8 bs = decode_from ready bs

test : from_utf8 (as_bytes "aé€😀") ≡ some "aé€😀"
unfolding from_utf8 decode_from push step continue lead finish as_char as_char_by as_bytes utf8_of
    dec_lt
test = refl
