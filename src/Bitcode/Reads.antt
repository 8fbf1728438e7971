-- ===== src/Bitcode/Reads.antt =====
-- llvm-bitcode/src/reader.rs: when a reading function takes given bytes for a value.
use Prim.Native.Char.{Char}
use Prim.Native.String.{String}
use native.Mathlib.Nat.{mod-eq_of_lt, pow-suc}
use mathlib.Core.List.{append_assoc, map, map-id}
use mathlib.Core.Path.{subst}
use llvm_in_rust.Base.Int.{ℤ, pos, negsuc}
use llvm_in_rust.Base.{
  ℕ, zero, suc, ◌-◌, ◌/◌, ◌^◌, ◌<◌, ◌≡◌, ◌≢◌, refl, ap, ◌∙◌, Bool, true, false, List, [], ◌∷◌, ◌++◌,
  Option, none, some, arith, length, ◌==◌, lt→ltb, not_ltb,
}
use llvm_in_rust.Base.Machine.{as_u32_lem}
use llvm_in_rust.Base.Utf8.{as_bytes}
use llvm_in_rust.Base.Utf8.Laws.{from_utf8-as_bytes, as_bytes_pos}
use llvm_in_rust.Bitcode.Stream.{
  Bytes, ok, Parser, pure, ◌>>=◌, bind_result, le_bytes, from_le_bytes, write_u8, write_u32,
  write_u64, write_string, or_panic, split_bytes, read_bytes, index, first_bytes, read_array,
  read_u8, read_u32, read_u64, text_of, read_string, read_opt_string, read_i32, write_i32, i32_bits,
  as_i32, read_flag, write_flag, repeat, read_list, write_all, write_list,
}

-- Whatever follows, the parser takes exactly the bytes and gives the value.
pub record Reads {ℓ} {A : Type ℓ} (p : Parser A) (bytes : Bytes) (a : A) : Type ℓ where
  pub reads : (rest : Bytes) → p (bytes ++ rest) ≡ ok (a, rest)

module _ {ℓ κ} {A : Type ℓ} {B : Type κ} where
  pub Reads-bind :
      {p : Parser A} (f : A → Parser B) {xs ys : Bytes} {a : A} {b : B}
      → Reads p xs a
      → Reads (f a) ys b
      → Reads (p >>= f) (xs ++ ys) b
  unfolding ◌>>=◌ bind_result
  Reads-bind {p} f {xs} {ys} {a} hp hf = record {
    reads = λ rest.
        ap (λ t. bind_result (p t) f) (append_assoc xs ys rest)
        ∙ ap (λ t. bind_result t f) (hp.reads (ys ++ rest))
        ∙ hf.reads rest;
  }

  pub Reads-last :
      {p : Parser A} (f : A → B) {xs : Bytes} {a : A}
      → Reads p xs a
      → Reads (p >>= λ x. pure (f x)) xs (f a)
  unfolding ◌>>=◌ bind_result pure
  Reads-last {p} f hp = record {
    reads = λ rest. ap (λ t. bind_result t (λ x. pure (f x))) (hp.reads rest);
  }

module _ {ℓ κ} {A : Type ℓ} {B : Type κ} where
  -- What comes after takes nothing.
  pub Reads-then :
      {p : Parser A} (f : A → Parser B) {xs : Bytes} {a : A} {b : B}
      → Reads p xs a
      → Reads (f a) [] b
      → Reads (p >>= f) xs b
  unfolding ◌>>=◌ bind_result
  Reads-then {p} f hp hf = record {
    reads = λ rest. ap (λ t. bind_result t f) (hp.reads rest) ∙ hf.reads rest;
  }

pub Reads-pure {ℓ} : {A : Type ℓ} (a : A) → Reads (pure a) [] a
unfolding pure
Reads-pure a = record { reads = λ rest. refl }

pub Reads-or_panic {ℓ} : {A : Type ℓ} (o : Option A) {a : A} → o ≡ some a → Reads (or_panic o) [] a
unfolding or_panic
Reads-or_panic o e = rw e (record { reads = λ rest. refl })

-- The same bytes in other pieces.
pub Reads-assoc {ℓ} :
    {A : Type ℓ} (p : Parser A) (xs ys zs : Bytes) {a : A}
    → Reads p ((xs ++ ys) ++ zs) a
    → Reads p (xs ++ (ys ++ zs)) a
Reads-assoc p xs ys zs {a} h = subst (λ t. Reads p t a) (append_assoc xs ys zs) h

-- The same bytes, taken for an equal value.
pub Reads-same {ℓ} :
    {A : Type ℓ} {p : Parser A} {xs : Bytes} {a b : A} → a ≡ b → Reads p xs a → Reads p xs b
Reads-same {p = p} {xs} e h = subst (λ t. Reads p xs t) e h

pub Reads-read_u8 : (v : ℕ) → Reads read_u8 (write_u8 v) v
unfolding read_u8 write_u8 read_bytes split_bytes ◌>>=◌ bind_result index
Reads-read_u8 v = record { reads = λ rest. refl }

pub Reads-read_flag : (b : Bool) → Reads read_flag (write_flag b) b
unfolding read_flag write_flag
Reads-read_flag true = Reads-last _ (Reads-read_u8 1)
Reads-read_flag false = Reads-last _ (Reads-read_u8 0)

length-le_bytes : (k v : ℕ) → length (le_bytes k v) ≡ k
unfolding le_bytes
length-le_bytes zero v = refl
length-le_bytes (suc k) v = ap suc (length-le_bytes k (v / 256))

from_le_bytes-le_bytes : (k v : ℕ) → v < 256 ^ k → from_le_bytes (le_bytes k v) ≡ v
unfolding le_bytes from_le_bytes
from_le_bytes-le_bytes zero v h = omega arith
from_le_bytes-le_bytes (suc k) v h =
    omega (arith, from_le_bytes-le_bytes k (v / 256) (omega (arith, pow-suc 256 k)))

split_bytes-append : (xs rest : Bytes) → split_bytes (length xs) (xs ++ rest) ≡ some (xs, rest)
unfolding split_bytes
split_bytes-append [] rest = refl
split_bytes-append (x ∷ xs) rest = rw (split_bytes, split_bytes-append xs rest) refl

pub Reads-read_bytes : (xs : Bytes) → Reads (read_bytes (length xs)) xs xs
unfolding read_bytes
Reads-read_bytes xs = record { reads = λ rest. rw (read_bytes, split_bytes-append xs rest) refl }

-- All bytes are taken.
pub split_bytes_all : (xs : Bytes) → split_bytes (length xs) xs ≡ some (xs, [])
unfolding split_bytes
split_bytes_all [] = refl
split_bytes_all (x ∷ xs) = rw (split_bytes, split_bytes_all xs) refl

Reads-read_array : (xs : Bytes) → Reads (read_array (length xs)) xs xs
unfolding read_array first_bytes
Reads-read_array xs =
    Reads-then (first_bytes (length xs)) (Reads-read_bytes xs)
      (record { reads = λ rest. rw (first_bytes, split_bytes_all xs) refl })

-- A little-endian number of `k` bytes.
Reads-le_bytes : (k v : ℕ) → Reads (read_array k) (le_bytes k v) (le_bytes k v)
Reads-le_bytes k v =
    subst (λ (n : ℕ). Reads (read_array n) (le_bytes k v) (le_bytes k v)) (length-le_bytes k v)
      (Reads-read_array (le_bytes k v))

pub Reads-read_u32 : (v : ℕ) → v < 2 ^ 32 → Reads read_u32 (write_u32 v) v
unfolding read_u32 write_u32
Reads-read_u32 v h =
    Reads-same (from_le_bytes-le_bytes 4 v (omega arith)) (Reads-last _ (Reads-le_bytes 4 v))

pub Reads-read_u64 : (v : ℕ) → v < 2 ^ 64 → Reads read_u64 (write_u64 v) v
unfolding read_u64 write_u64
Reads-read_u64 v h =
    Reads-same (from_le_bytes-le_bytes 8 v (omega arith)) (Reads-last _ (Reads-le_bytes 8 v))

-- A number that an i32 holds.
abbrev pub FitsI32 : ℤ → Type 0
FitsI32 (pos n) = n < 2 ^ 31
FitsI32 (negsuc n) = n < 2 ^ 31

as_i32-i32_bits : (v : ℤ) → FitsI32 v → as_i32 (i32_bits v) ≡ v
unfolding as_i32 i32_bits
as_i32-i32_bits (pos n) h = rw (mod-eq_of_lt (below h), lt→ltb n (2 ^ 31) h) refl
  where
    below : n < 2 ^ 31 → n < 2 ^ 32
    below k = omega arith
as_i32-i32_bits (negsuc n) h =
    let small : n < 2 ^ 32 = omega arith in
    let e : 2 ^ 32 - (2 ^ 32 - 1 - n) ≡ suc n = omega arith in
    rw (mod-eq_of_lt small, not_ltb (2 ^ 32 - 1 - n) (2 ^ 31) (omega arith), e) refl

i32_bits-lt : (v : ℤ) → i32_bits v < 256 ^ 4
unfolding i32_bits
i32_bits-lt (pos n) = omega arith
i32_bits-lt (negsuc n) = omega arith

pub Reads-read_i32 : (v : ℤ) → FitsI32 v → Reads read_i32 (write_i32 v) v
unfolding read_i32 write_i32
Reads-read_i32 v h =
    Reads-same
      (ap as_i32 (from_le_bytes-le_bytes 4 (i32_bits v) (i32_bits-lt v)) ∙ as_i32-i32_bits v h)
      (Reads-last _ (Reads-le_bytes 4 (i32_bits v)))

-- A text of fewer than 2^32 bytes.
abbrev pub FitsText : String → Type 0
FitsText s = length (as_bytes s) < 2 ^ 32

Reads-text_of : (s : String) → Reads (text_of (as_bytes s)) [] s
unfolding text_of
Reads-text_of s = rw (text_of, from_utf8-as_bytes s) (Reads-pure s)

nonempty : (c : Char) (s : String) → (length (as_bytes (String.◌∷◌ c s)) == 0) ≡ false
nonempty c s = let h = as_bytes_pos c s in ground arith

Reads-empty_string : Reads read_string (write_string "") ""
unfolding read_string write_string as_bytes
Reads-empty_string = Reads-bind _ (Reads-read_u32 0 (omega arith)) (Reads-pure "")

Reads-full_string :
    (c : Char) (s : String)
    → FitsText (String.◌∷◌ c s)
    → Reads read_string (write_string (String.◌∷◌ c s)) (String.◌∷◌ c s)
unfolding read_string write_string
Reads-full_string c s h =
    let bytes = as_bytes (String.◌∷◌ c s) in
    rw (as_u32_lem (length bytes) h) (
      Reads-bind _ (Reads-read_u32 (length bytes) h) (
        rw (nonempty c s)
          (Reads-then text_of (Reads-read_bytes bytes) (Reads-text_of (String.◌∷◌ c s)))))

pub Reads-read_string : (s : String) → FitsText s → Reads read_string (write_string s) s
Reads-read_string String.[] h = Reads-empty_string
Reads-read_string (String.◌∷◌ c s) h = Reads-full_string c s h

-- An optional text is written as a text, or as the length 0.
pub Reads-read_opt_string-some :
    (s : String) → FitsText s → s ≢ "" → Reads read_opt_string (write_string s) (some s)
unfolding read_opt_string write_string
Reads-read_opt_string-some String.[] h full = absurd (full refl)
Reads-read_opt_string-some (String.◌∷◌ c s) h full =
    let bytes = as_bytes (String.◌∷◌ c s) in
    rw (as_u32_lem (length bytes) h) (
      Reads-bind _ (Reads-read_u32 (length bytes) h) (
        rw (nonempty c s)
          (Reads-then _ (Reads-read_bytes bytes) (Reads-last _ (Reads-text_of (String.◌∷◌ c s))))))

pub Reads-read_opt_string-none : Reads read_opt_string (write_u32 0) none
unfolding read_opt_string
Reads-read_opt_string-none = Reads-then _ (Reads-read_u32 0 (omega arith)) (Reads-pure none)

-- Every element fits.
abbrev pub AllFit {ℓ} : {A : Type ℓ} → (A → Type 0) → List A → Type 0
AllFit Fits [] = Unit
AllFit Fits (x ∷ xs) = Fits x × AllFit Fits xs

-- A list of records that are read back as `f` of what was written.
module _ {ℓ κ} {A : Type ℓ} {B : Type κ} (p : Parser B) (w : A → Bytes) (f : A → B)
    (Fits : A → Type 0) (one : (a : A) → Fits a → Reads p (w a) (f a)) where
  Reads-repeat :
      (xs : List A) → AllFit Fits xs → Reads (repeat (length xs) p) (write_all w xs) (map f xs)
  unfolding repeat write_all
  Reads-repeat [] h = Reads-pure []
  Reads-repeat (x ∷ xs) (h, hs) = Reads-bind _ (one x h) (Reads-last _ (Reads-repeat xs hs))

  pub Reads-map_list :
      (xs : List A)
      → length xs < 2 ^ 32
      → AllFit Fits xs
      → Reads (read_list p) (write_list w xs) (map f xs)
  unfolding read_list write_list
  Reads-map_list xs short h =
      rw (as_u32_lem (length xs) short)
        (Reads-bind _ (Reads-read_u32 (length xs) short) (Reads-repeat xs h))

pub Reads-read_list {ℓ} :
    {A : Type ℓ} (p : Parser A) (w : A → Bytes) (Fits : A → Type 0)
    → ((a : A) → Fits a → Reads p (w a) a)
    → (xs : List A) → length xs < 2 ^ 32
    → AllFit Fits xs
    → Reads (read_list p) (write_list w xs) xs
Reads-read_list p w Fits one xs short h =
    Reads-same (map-id xs) (Reads-map_list p w (λ x. x) Fits one xs short h)
