-- ===== src/Bitcode/Stream.antt =====
-- llvm-bitcode/src/writer.rs and reader.rs: `Writer` and `Reader`. What a writing function appends to
-- the buffer is its result, and a reader is what is left of the input.
use Prim.Native.Nat.{ℕ, zero, suc, ◌+◌, ◌-◌, ◌*◌, ◌/◌, ◌%◌, ◌^◌}
use Prim.Native.String.{String}
use mathlib.Core.Bool.{Bool, not}
use mathlib.Core.List.{List, [], ◌∷◌, ◌++◌}
use mathlib.Core.Option.{Option, none, some}
use llvm_in_rust.Base.{length, get_elem?, ltb, ◌==◌, if◌then◌else◌}
use llvm_in_rust.Base.Int.{ℤ, pos, negsuc, negate}
use llvm_in_rust.Base.Machine.{as_u32}
use llvm_in_rust.Base.Utf8.{as_bytes, from_utf8}

abbrev pub Bytes : Type 0
Bytes = List ℕ

-- One piece of output and then the others.
infixr 60 ◌<>◌
abbrev pub ◌<>◌ : Bytes → Bytes → Bytes
xs <> ys = xs ++ ys

pub data BitcodeError : Type 0 where
  invalid_magic truncated_input unexpected_eof : BitcodeError
  unsupported_record : ℕ → BitcodeError
  invalid_type : BitcodeError
  parse_error : String → BitcodeError

-- `panic` is a run that the source ends by an index out of range, or by a sum that overflows.
pub data Result {ℓ} (A : Type ℓ) : Type ℓ where
  ok : A → Result A
  err : BitcodeError → Result A
  panic : Result A

abbrev pub Parser {ℓ} : Type ℓ → Type ℓ
Parser A = Bytes → Result (A × Bytes)

unfoldable pub pure {ℓ} : {A : Type ℓ} → A → Parser A
pure a bs = ok (a, bs)

unfoldable pub fail {ℓ} : {A : Type ℓ} → BitcodeError → Parser A
fail e bs = err e

module _ {ℓ κ} {A : Type ℓ} {B : Type κ} where
  unfoldable pub bind_result : Result (A × Bytes) → (A → Parser B) → Result (B × Bytes)
  bind_result (ok (a, rest)) f = f a rest
  bind_result (err e) f = err e
  bind_result panic f = panic

  infixl 1 ◌>>=◌
  unfoldable pub ◌>>=◌ : Parser A → (A → Parser B) → Parser B
  unfolding bind_result
  (p >>= f) bs = bind_result (p bs) f

-- `v.to_le_bytes()` of a number of `k` bytes.
unfoldable pub le_bytes : ℕ → ℕ → Bytes
le_bytes zero v = []
le_bytes (suc k) v = v % 256 ∷ le_bytes k (v / 256)

unfoldable pub from_le_bytes : Bytes → ℕ
from_le_bytes [] = 0
from_le_bytes (b ∷ bs) = b + 256 * from_le_bytes bs

unfoldable pub write_u8 : ℕ → Bytes
write_u8 v = v ∷ []

unfoldable pub write_u32 : ℕ → Bytes
write_u32 v = le_bytes 4 v

-- The two's complement pattern of an i32.
unfoldable pub i32_bits : ℤ → ℕ
i32_bits (pos n) = n % 2 ^ 32
i32_bits (negsuc n) = 2 ^ 32 - 1 - n % 2 ^ 32

unfoldable pub as_i32 : ℕ → ℤ
as_i32 n = if ltb n (2 ^ 31) then pos n else negate (2 ^ 32 - n)

unfoldable pub write_i32 : ℤ → Bytes
write_i32 v = le_bytes 4 (i32_bits v)

unfoldable pub write_u64 : ℕ → Bytes
write_u64 v = le_bytes 8 v

unfoldable pub write_string : String → Bytes
write_string s = write_u32 (as_u32 (length (as_bytes s))) ++ as_bytes s

-- The first `n` bytes and the others, if there are so many.
unfoldable pub split_bytes : ℕ → Bytes → Option (Bytes × Bytes)
split_bytes zero bs = some ([], bs)
split_bytes (suc n) [] = none
split_bytes (suc n) (b ∷ bs) = elim (split_bytes n bs) [
  | none ↦ none
  | some (taken, rest) ↦ some (b ∷ taken, rest)
]

unfoldable pub read_bytes : ℕ → Parser Bytes
read_bytes n bs = elim (split_bytes n bs) [ none ↦ err truncated_input | some split ↦ ok split ]

-- The value of a call that panics where it is `none`.
unfoldable pub or_panic {ℓ} : {A : Type ℓ} → Option A → Parser A
or_panic none bs = panic
or_panic (some a) bs = ok (a, bs)

-- `b[i]`
unfoldable pub index : Bytes → ℕ → Parser ℕ
index b i bs = elim (get_elem? b i) [ none ↦ panic | some x ↦ ok (x, bs) ]

-- `[b[0], b[1], …]`, of `n` bytes.
unfoldable pub first_bytes : ℕ → Bytes → Parser Bytes
first_bytes n b bs = elim (split_bytes n b) [ none ↦ panic | some (taken, _) ↦ ok (taken, bs) ]

unfoldable pub read_array : ℕ → Parser Bytes
read_array n = do b ← read_bytes n; first_bytes n b

unfoldable pub read_u8 : Parser ℕ
read_u8 = do b ← read_bytes 1; index b 0

unfoldable pub read_u32 : Parser ℕ
read_u32 = do b ← read_array 4; pure (from_le_bytes b)

unfoldable pub read_i32 : Parser ℤ
read_i32 = do b ← read_array 4; pure (as_i32 (from_le_bytes b))

unfoldable pub read_u64 : Parser ℕ
read_u64 = do b ← read_array 8; pure (from_le_bytes b)

unfoldable pub text_of : Bytes → Parser String
text_of bytes = elim (from_utf8 bytes) [
  | none ↦ fail (parse_error "invalid UTF-8")
  | some s ↦ pure s
]

unfoldable pub read_string : Parser String
read_string = do
  len ← read_u32
  if len == 0 then pure "" else do bytes ← read_bytes len; text_of bytes

unfoldable pub read_opt_string : Parser (Option String)
read_opt_string = do
  len ← read_u32
  if len == 0 then pure none else do bytes ← read_bytes len; s ← text_of bytes; pure (some s)

-- `b != 0`
unfoldable pub read_flag : Parser Bool
read_flag = do b ← read_u8; pure (not (b == 0))

unfoldable pub write_flag : Bool → Bytes
write_flag b = write_u8 (if b then 1 else 0)

-- `for _ in 0..n { v.push(read()?) }`
unfoldable pub repeat {ℓ} : {A : Type ℓ} → ℕ → Parser A → Parser (List A)
repeat zero p = pure []
repeat (suc n) p = do a ← p; more ← repeat n p; pure (a ∷ more)

-- A count, and then so many records.
unfoldable pub read_list {ℓ} : {A : Type ℓ} → Parser A → Parser (List A)
read_list p = do n ← read_u32; repeat n p

unfoldable pub write_all {ℓ} : {A : Type ℓ} → (A → Bytes) → List A → Bytes
write_all w [] = []
write_all w (x ∷ xs) = w x ++ write_all w xs

unfoldable pub write_list {ℓ} : {A : Type ℓ} → (A → Bytes) → List A → Bytes
write_list w xs = write_u32 (as_u32 (length xs)) ++ write_all w xs
