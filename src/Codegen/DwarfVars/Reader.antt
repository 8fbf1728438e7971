-- ===== src/Codegen/DwarfVars/Reader.antt =====
-- What a reader of DWARF makes of the bytes, after the standard: sections 7.6 (LEB128), 2.6 and 7.7.1
-- (location expressions). It is the description that the encoders are compared with.
use Prim.Native.Nat.{ℕ, ◌+◌, ◌-◌, ◌*◌}
use mathlib.Core.List.{[], ◌∷◌}
use llvm_in_rust.Base.{ltb, leb, ◌==◌, if◌then◌else◌}
use llvm_in_rust.Base.Int.{ℤ, pos, negsuc, negate}
use llvm_in_rust.Bitcode.Stream.{
  Bytes, Result, ok, err, panic, Parser, pure, fail, ◌>>=◌, truncated_input, invalid_type, read_u8,
  read_u32,
}
use llvm_in_rust.Codegen.DwarfVars.{VarLocation, register, stack}

-- Seven more low bits.
unfoldable pub widen : ℕ → Result (ℕ × Bytes) → Result (ℕ × Bytes)
widen b (ok (v, rest)) = ok (b - 128 + 128 * v, rest)
widen b (err e) = err e
widen b panic = panic

unfoldable pub read_uleb : Parser ℕ
read_uleb [] = err truncated_input
read_uleb (b ∷ bs) = if ltb b 128 then ok (b, bs) else widen b (read_uleb bs)

-- `b - 128 + 128 * v`
unfoldable pub shifted : ℕ → ℤ → ℤ
shifted b (pos n) = pos (b - 128 + 128 * n)
shifted b (negsuc n) = negsuc (128 * (n + 1) - (b - 128) - 1)

unfoldable pub widen_signed : ℕ → Result (ℤ × Bytes) → Result (ℤ × Bytes)
widen_signed b (ok (v, rest)) = ok (shifted b v, rest)
widen_signed b (err e) = err e
widen_signed b panic = panic

unfoldable pub read_sleb : Parser ℤ
read_sleb [] = err truncated_input
read_sleb (b ∷ bs) =
    if ltb b 64
    then ok (pos b, bs)
    else if ltb b 128
    then ok (negate (128 - b), bs)
    else widen_signed b (read_sleb bs)

-- DW_OP_breg6, DW_OP_regx and DW_OP_reg0 to DW_OP_reg15.
unfoldable pub location_of : ℕ → Parser VarLocation
location_of op =
    if op == 118
    then (do offset ← read_sleb; pure (stack offset))
    else if op == 144
    then (do r ← read_uleb; pure (register r))
    else if leb 80 op
    then (if leb op 95 then pure (register (op - 80)) else fail invalid_type)
    else fail invalid_type

unfoldable pub read_location : Parser VarLocation
read_location = do op ← read_u8; location_of op

-- The bytes before the next 0, which is taken.
unfoldable pub before_zero : ℕ → Result (Bytes × Bytes) → Result (Bytes × Bytes)
before_zero b (ok (name, rest)) = ok (b ∷ name, rest)
before_zero b (err e) = err e
before_zero b panic = panic

unfoldable pub read_name : Parser Bytes
read_name [] = err truncated_input
read_name (b ∷ bs) = if b == 0 then ok ([], bs) else before_zero b (read_name bs)

-- The code, the name, the type's offset, the length of the expression and the location.
unfoldable pub read_die : Parser (ℕ × Bytes × ℕ × ℕ × VarLocation)
read_die = do
  code ← read_uleb
  name ← read_name
  offset ← read_u32
  len ← read_uleb
  loc ← read_location
  pure (code, name, offset, len, loc)
