-- ===== src/Codegen/DwarfVars.antt =====
-- llvm-codegen/src/dwarf_vars.rs: LEB128 numbers, location expressions, and the entry of a variable.
-- A loop over a 64-bit number runs on fuel 10, since a turn takes seven bits off.
pub mod Reader
pub mod Laws
use Prim.Native.Nat.{ℕ, zero, suc, ◌+◌, ◌-◌, ◌/◌, ◌%◌}
use Prim.Native.String.{String}
use mathlib.Core.Bool.{Bool, true, false}
use mathlib.Core.List.{List, [], ◌∷◌, ◌++◌}
use llvm_in_rust.Base.{length, ltb, leb, ◌==◌, if◌then◌else◌}
use llvm_in_rust.Base.Int.{ℤ, pos, negsuc}
use llvm_in_rust.Base.Utf8.{as_bytes}
use llvm_in_rust.Bitcode.Stream.{Bytes, ◌<>◌, write_u8, write_u32}

-- `byte | 0x80` of a byte below 128 is the sum.
unfoldable pub uleb_loop : ℕ → ℕ → Bytes
uleb_loop zero val = []
uleb_loop (suc fuel) val =
    let byte = val % 128 in
    let rest = uleb_loop fuel (val / 128) in
    if val / 128 == 0 then byte ∷ [] else (byte + 128) ∷ rest

unfoldable pub encode_uleb128 : ℕ → Bytes
encode_uleb128 val = uleb_loop 10 val

-- `val & 0x7f` and `val >> 7` of an i64.
unfoldable pub low_bits : ℤ → ℕ
low_bits (pos n) = n % 128
low_bits (negsuc n) = 127 - n % 128

unfoldable pub high_bits : ℤ → ℤ
high_bits (pos n) = pos (n / 128)
high_bits (negsuc n) = negsuc (n / 128)

-- Nothing is left but the sign, and the byte's bit 0x40 shows it.
unfoldable pub is_last : ℤ → ℕ → Bool
is_last (pos n) byte = if n == 0 then ltb byte 64 else false
is_last (negsuc n) byte = if n == 0 then leb 64 byte else false

unfoldable pub sleb_loop : ℕ → ℤ → Bytes
sleb_loop zero val = []
sleb_loop (suc fuel) val =
    let byte = low_bits val in
    let rest = sleb_loop fuel (high_bits val) in
    if is_last (high_bits val) byte then byte ∷ [] else (byte + 128) ∷ rest

unfoldable pub encode_sleb128 : ℤ → Bytes
encode_sleb128 val = sleb_loop 10 val

unfoldable pub encode_breg6 : ℤ → Bytes
encode_breg6 rbp_offset = 118 ∷ encode_sleb128 rbp_offset

unfoldable pub encode_reg : ℕ → Bytes
encode_reg dwarf_reg =
    if leb dwarf_reg 15 then (80 + dwarf_reg) ∷ [] else 144 ∷ encode_uleb128 dwarf_reg

pub data VarLocation : Type 0 where
  register : ℕ → VarLocation
  stack : ℤ → VarLocation

unfoldable pub encode_location : VarLocation → Bytes
encode_location (register r) = encode_reg r
encode_location (stack offset) = encode_breg6 offset

unfoldable pub build_variable_die : ℕ → String → ℕ → VarLocation → Bytes
build_variable_die abbrev_code name type_die_offset loc =
    encode_uleb128 abbrev_code
    <> as_bytes name
    <> write_u8 0
    <> write_u32 type_die_offset
    <> encode_uleb128 (length (encode_location loc))
    <> encode_location loc
