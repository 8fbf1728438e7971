-- ===== src/Base/Utf8/Laws.antt =====
-- UTF-8: the bytes of a text are read as the text.
use Prim.Native.Nat.{ℕ, suc, ◌+◌, ◌-◌, ◌*◌, ◌/◌, ◌%◌, ◌<◌, ◌≤◌}
use Prim.Native.Char.{Char, char, code}
use Prim.Native.String.{String}
use mathlib.Core.Path.{◌≡◌, refl, ap, ◌∙◌}
use mathlib.Core.Logic.{inl, inr}
use mathlib.Core.Bool.{true}
use mathlib.Core.List.{List, ◌∷◌, ◌++◌}
use mathlib.Core.Option.{some}
use native.Mathlib.Omega.{arith}
use llvm_in_rust.Base.Lists.{length}
use llvm_in_rust.Base.Tests.{ltb, le→leb, lt→ltb, ltb→lt, not_ltb, ≤_of_not_ltb, Bool-cases}
use llvm_in_rust.Base.Utf8.{
  as_char-code, utf8_of, as_bytes, Pending, ready, finish, lead, continue, step, push, decode_from,
  from_utf8, more, emit,
}

finish-code : (c : Char) → finish (code c) ≡ emit c
unfolding finish
finish-code c = rw (finish, as_char-code c) refl

decode-more :
    (p : Pending) (b : ℕ) (bs : List ℕ) (q : Pending)
    → step p b ≡ more q
    → decode_from p (b ∷ bs) ≡ decode_from q bs
unfolding decode_from
decode-more p b bs q e = rw (decode_from, e) refl

decode-emit :
    (p : Pending) (b : ℕ) (bs : List ℕ) (c : Char)
    → step p b ≡ emit c
    → decode_from p (b ∷ bs) ≡ push c (decode_from ready bs)
unfolding decode_from
decode-emit p b bs c e = rw (decode_from, e) refl

-- A byte that continues a character.
continue-more :
    (j acc least low : ℕ)
    → low < 64
    → step (record { need = suc (suc j); acc = acc; least = least }) (128 + low)
      ≡ more (record { need = suc j; acc = acc * 64 + low; least = least })
unfolding step continue
continue-more j acc least low h =
    let e : 128 + low - 128 ≡ low = omega arith in
    rw (le→leb 128 (128 + low) (omega arith), lt→ltb (128 + low) 192 (omega arith), e) refl

continue-last :
    (c : Char) (acc least low : ℕ)
    → low < 64
    → least ≤ acc * 64 + low
    → code c ≡ acc * 64 + low
    → step (record { need = 1; acc = acc; least = least }) (128 + low) ≡ emit c
unfolding step continue
continue-last c acc least low h over sum =
    let e : 128 + low - 128 ≡ low = omega arith in
    rw
      (
        le→leb 128 (128 + low) (omega arith),
        lt→ltb (128 + low) 192 (omega arith),
        e,
        le→leb least (acc * 64 + low) over,
        ← sum,
      )
      (finish-code c)

lead-two :
    (a : ℕ) → a < 32 → step ready (192 + a) ≡ more (record { need = 1; acc = a; least = 128 })
unfolding step lead
lead-two a h =
    let e : 192 + a - 192 ≡ a = omega arith in
    rw
      (
        not_ltb (192 + a) 128 (omega arith),
        not_ltb (192 + a) 192 (omega arith),
        lt→ltb (192 + a) 224 (omega arith),
        e,
      )
      refl

lead-three :
    (a : ℕ) → a < 16 → step ready (224 + a) ≡ more (record { need = 2; acc = a; least = 2048 })
unfolding step lead
lead-three a h =
    let e : 224 + a - 224 ≡ a = omega arith in
    rw
      (
        not_ltb (224 + a) 128 (omega arith),
        not_ltb (224 + a) 192 (omega arith),
        not_ltb (224 + a) 224 (omega arith),
        lt→ltb (224 + a) 240 (omega arith),
        e,
      )
      refl

lead-four :
    (a : ℕ) → a < 8 → step ready (240 + a) ≡ more (record { need = 3; acc = a; least = 65536 })
unfolding step lead
lead-four a h =
    let e : 240 + a - 240 ≡ a = omega arith in
    rw
      (
        not_ltb (240 + a) 128 (omega arith),
        not_ltb (240 + a) 192 (omega arith),
        not_ltb (240 + a) 224 (omega arith),
        not_ltb (240 + a) 240 (omega arith),
        lt→ltb (240 + a) 248 (omega arith),
        e,
      )
      refl

code-lt : (c : Char) → code c < 1114112
code-lt (char n p) = ground (arith, p)

lead-one : (c : Char) → ltb (code c) 128 ≡ true → step ready (code c) ≡ emit c
unfolding step lead
lead-one c one = rw one (finish-code c)

-- The bytes of a character are read as the character.
decode_from-char :
    (c : Char) (bs : List ℕ)
    → decode_from ready (utf8_of (code c) ++ bs) ≡ push c (decode_from ready bs)
unfolding utf8_of
decode_from-char c bs = elim (Bool-cases (ltb (code c) 128)) [
  | inl one ↦ rw (one, utf8_of) (decode-emit ready (code c) bs c (first one))
  | inr h1 ↦ elim (Bool-cases (ltb (code c) 2048)) [
    | inl two ↦
        rw (h1, two, utf8_of)
          (decode-more ready _ _ _ (lead-two (code c / 64) (let k = ltb→lt _ _ two in omega arith))
            ∙ decode-emit _ _ bs c (
                continue-last c _ _ (code c % 64) (omega arith)
                  (let k = ≤_of_not_ltb _ _ h1 in omega arith) (omega arith)))
    | inr h2 ↦ elim (Bool-cases (ltb (code c) 65536)) [
      | inl three ↦
          rw (h1, h2, three, utf8_of)
            (decode-more ready _ _ _
                (lead-three (code c / 4096) (let k = ltb→lt _ _ three in omega arith))
              ∙ decode-more _ _ _ _ (continue-more 0 _ _ (code c / 64 % 64) (omega arith))
              ∙ decode-emit _ _ bs c (
                  continue-last c _ _ (code c % 64) (omega arith)
                    (let k = ≤_of_not_ltb _ _ h2 in omega arith) (omega arith)))
      | inr h3 ↦
          rw (h1, h2, h3, utf8_of)
            (decode-more ready _ _ _
                (lead-four (code c / 262144) (let k = code-lt c in omega arith))
              ∙ decode-more _ _ _ _ (continue-more 1 _ _ (code c / 4096 % 64) (omega arith))
              ∙ decode-more _ _ _ _ (continue-more 0 _ _ (code c / 64 % 64) (omega arith))
              ∙ decode-emit _ _ bs c (
                  continue-last c _ _ (code c % 64) (omega arith)
                    (let k = ≤_of_not_ltb _ _ h3 in omega arith) (omega arith)))
    ]
  ]
]
  where
    first : ltb (code c) 128 ≡ true → step ready (code c) ≡ emit c
    first one = lead-one c one

-- Decoding the bytes of a text gives the text.
pub from_utf8-as_bytes : (s : String) → from_utf8 (as_bytes s) ≡ some s
unfolding from_utf8 as_bytes decode_from push
from_utf8-as_bytes String.[] = refl
from_utf8-as_bytes (String.◌∷◌ c s) =
    decode_from-char c (as_bytes s) ∙ ap (push c) (from_utf8-as_bytes s)

-- No character is without bytes.
pub as_bytes_pos : (c : Char) (s : String) → 0 < length (as_bytes (String.◌∷◌ c s))
unfolding as_bytes utf8_of
as_bytes_pos c s = elim (Bool-cases (ltb (code c) 128)) [
  | inl one ↦ rw (utf8_of, one) (omega arith)
  | inr h1 ↦ elim (Bool-cases (ltb (code c) 2048)) [
    | inl two ↦ rw (utf8_of, h1, two) (omega arith)
    | inr h2 ↦ elim (Bool-cases (ltb (code c) 65536)) [
      | inl three ↦ rw (utf8_of, h1, h2, three) (omega arith)
      | inr h3 ↦ rw (utf8_of, h1, h2, h3) (omega arith)
    ]
  ]
]
