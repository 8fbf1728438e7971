-- ===== src/Codegen/DwarfVars/Laws.antt =====
-- llvm-codegen/src/dwarf_vars.rs: a reader of DWARF gets back what was encoded.
use Prim.Native.String.{String}
use llvm_in_rust.Base.{
  ℕ, zero, suc, ◌+◌, ◌-◌, ◌*◌, ◌/◌, ◌%◌, ◌^◌, ◌<◌, ◌≤◌, ◌≡◌, refl, ap, inl, inr, [], ◌∷◌, ◌++◌,
  arith, length, leb, ◌==◌, ==_iff, Bool-cases, true, false, lt→ltb, not_ltb, le→leb,
}
use native.Mathlib.Nat.{pow-suc}
use mathlib.Core.Path.{subst}
use llvm_in_rust.Base.Int.{ℤ, pos, negsuc}
use llvm_in_rust.Base.Utf8.{as_bytes}
use llvm_in_rust.Bitcode.Stream.{Bytes, pure, write_u8}
use llvm_in_rust.Bitcode.Reads.{
  Reads, Reads-bind, Reads-last, Reads-then, Reads-pure, Reads-same, Reads-read_u8, Reads-read_u32,
  FitsI32, AllFit, Reads-assoc,
}
use llvm_in_rust.Codegen.DwarfVars.{
  uleb_loop, encode_uleb128, low_bits, high_bits, is_last, sleb_loop, encode_sleb128, encode_breg6,
  encode_reg, VarLocation, register, stack, encode_location, build_variable_die,
}
use llvm_in_rust.Codegen.DwarfVars.Reader.{
  widen, read_uleb, shifted, widen_signed, read_sleb, location_of, read_location, before_zero,
  read_name, read_die,
}

uleb_last : (b : ℕ) → b < 128 → Reads read_uleb (b ∷ []) b
unfolding read_uleb
uleb_last b h = record { reads = λ rest. rw (read_uleb, lt→ltb b 128 h) refl }

uleb_more :
    (b v : ℕ) (bytes : Bytes)
    → Reads read_uleb bytes v
    → Reads read_uleb ((b + 128) ∷ bytes) (b + 128 * v)
unfolding read_uleb widen
uleb_more b v bytes h = record {
  reads = λ rest.
      let e : b + 128 - 128 ≡ b = omega arith in
      rw (read_uleb, not_ltb (b + 128) 128 (omega arith), h.reads rest, e) refl;
}

-- The number fits so many groups of seven bits.
Reads-uleb_loop : (n v : ℕ) → v < 128 ^ suc n → Reads read_uleb (uleb_loop (suc n) v) v
unfolding uleb_loop
Reads-uleb_loop zero v h =
    let small : (v / 128 == 0) ≡ true = ground arith in
    let same : v % 128 ≡ v = omega arith in
    rw (uleb_loop, small) (Reads-same same (uleb_last (v % 128) (omega arith)))
Reads-uleb_loop (suc n) v h =
    let same : v % 128 + 128 * (v / 128) ≡ v = omega arith in
    elim (Bool-cases (v / 128 == 0)) [
      | inl e ↦
          let none_left = (==_iff (v / 128) 0).0 e in
          rw (uleb_loop, e)
            (Reads-same (omega (arith, none_left)) (uleb_last (v % 128) (omega arith)))
      | inr e ↦
          rw (uleb_loop, e)
            (Reads-same same (
              uleb_more (v % 128) (v / 128) (uleb_loop (suc n) (v / 128))
                (Reads-uleb_loop n (v / 128) (omega (arith, pow-suc 128 (suc n))))))
    ]

Reads-encode_uleb128 : (v : ℕ) → v < 2 ^ 64 → Reads read_uleb (encode_uleb128 v) v
unfolding encode_uleb128
Reads-encode_uleb128 v h = Reads-uleb_loop 9 v (omega arith)

sleb_more :
    (b : ℕ) (v : ℤ) (bytes : Bytes)
    → b < 128
    → Reads read_sleb bytes v
    → Reads read_sleb ((b + 128) ∷ bytes) (shifted (b + 128) v)
unfolding read_sleb widen_signed
sleb_more b v bytes small h = record {
  reads = λ rest.
      rw
        (
          read_sleb,
          not_ltb (b + 128) 64 (omega arith),
          not_ltb (b + 128) 128 (omega arith),
          h.reads rest,
        )
        refl;
}

-- The magnitude of a number that so many groups of seven bits hold with the sign.
abbrev Below : ℕ → ℤ → Type 0
Below m (pos n) = n < m
Below m (negsuc n) = n < m

sleb_end : (v : ℤ) → is_last (high_bits v) (low_bits v) ≡ true → Reads read_sleb (low_bits v ∷ []) v
unfolding read_sleb high_bits low_bits is_last
sleb_end (pos n) h =
    let (none_left, small) : (n / 128 ≡ 0) × (n % 128 < 64) = ground arith in
    let same : n % 128 ≡ n = omega (arith, none_left) in
    record { reads = λ rest. rw (read_sleb, lt→ltb (n % 128) 64 small, same) refl }
sleb_end (negsuc n) h =
    let (none_left, small) : (n / 128 ≡ 0) × (64 ≤ 127 - n % 128) = ground arith in
    let b : ℕ = 127 - n % 128 in
    let same : 128 - (127 - n % 128) ≡ suc n = omega (arith, none_left) in
    record {
      reads = λ rest.
          rw
            (
              read_sleb,
              not_ltb (127 - n % 128) 64 small,
              lt→ltb (127 - n % 128) 128 (omega arith),
              same,
            )
            refl;
    }

low_bits_small : (v : ℤ) → low_bits v < 128
unfolding low_bits
low_bits_small (pos n) = omega arith
low_bits_small (negsuc n) = omega arith

shifted_lem : (v : ℤ) → shifted (low_bits v + 128) (high_bits v) ≡ v
unfolding shifted low_bits high_bits
shifted_lem (pos n) = ap pos (omega arith)
shifted_lem (negsuc n) = ap negsuc (omega arith)

-- One group is enough for a number below 64, and a group less for what is left.
is_last_of_small : (v : ℤ) → Below 64 v → is_last (high_bits v) (low_bits v) ≡ true
unfolding is_last high_bits low_bits
is_last_of_small (pos n) h = ground arith
is_last_of_small (negsuc n) h = ground arith

high_bits-Below : (m : ℕ) (v : ℤ) → Below (128 * m) v → Below m (high_bits v)
unfolding high_bits
high_bits-Below m (pos n) h = omega (arith, h)
high_bits-Below m (negsuc n) h = omega (arith, h)

Reads-sleb_loop : (n : ℕ) (v : ℤ) → Below (64 * 128 ^ n) v → Reads read_sleb (sleb_loop (suc n) v) v
unfolding sleb_loop
Reads-sleb_loop zero v h = rw (sleb_loop, is_last_of_small v h) (sleb_end v (is_last_of_small v h))
Reads-sleb_loop (suc n) v h = elim (Bool-cases (is_last (high_bits v) (low_bits v))) [
  | inl e ↦ rw (sleb_loop, e) (sleb_end v e)
  | inr e ↦
      let less : Below (64 * 128 ^ n) (high_bits v) =
        high_bits-Below (64 * 128 ^ n) v
          (subst (λ m. Below m v) (omega (arith, pow-suc 128 n)) h) in
      rw (sleb_loop, e)
        (Reads-same (shifted_lem v) (
          sleb_more (low_bits v) (high_bits v) (sleb_loop (suc n) (high_bits v)) (low_bits_small v)
            (Reads-sleb_loop n (high_bits v) less)))
]

FitsI32-Below : (v : ℤ) → FitsI32 v → Below (64 * 128 ^ 9) v
FitsI32-Below (pos n) h = omega (arith, h)
FitsI32-Below (negsuc n) h = omega (arith, h)

Reads-encode_sleb128 : (v : ℤ) → FitsI32 v → Reads read_sleb (encode_sleb128 v) v
unfolding encode_sleb128
Reads-encode_sleb128 v h = Reads-sleb_loop 9 v (FitsI32-Below v h)

-- A register's number is a byte, and an offset an i32.
abbrev pub FitsLocation : VarLocation → Type 0
FitsLocation (register r) = r < 256
FitsLocation (stack offset) = FitsI32 offset

location_of_reg : (r : ℕ) → r ≤ 15 → location_of (80 + r) ≡ pure (register r)
unfolding location_of
location_of_reg r h =
    let not_breg : (80 + r == 118) ≡ false = ground arith in
    let not_regx : (80 + r == 144) ≡ false = ground arith in
    let same : 80 + r - 80 ≡ r = omega arith in
    rw
      (
        location_of,
        not_breg,
        not_regx,
        le→leb 80 (80 + r) (omega arith),
        le→leb (80 + r) 95 (omega arith),
        same,
      )
      refl

Reads-location_of_reg : (r : ℕ) → r ≤ 15 → Reads (location_of (80 + r)) [] (register r)
Reads-location_of_reg r h = rw (location_of_reg r h) (Reads-pure (register r))

small : (r : ℕ) → leb r 15 ≡ true → r ≤ 15
small r e = ground arith

Reads-encode_location :
    (loc : VarLocation) → FitsLocation loc → Reads read_location (encode_location loc) loc
unfolding read_location encode_location encode_reg encode_breg6 location_of write_u8
Reads-encode_location (stack offset) h =
    Reads-bind _ (Reads-read_u8 118) (Reads-last _ (Reads-encode_sleb128 offset h))
Reads-encode_location (register r) h = elim (Bool-cases (leb r 15)) [
  | inl e ↦
      rw (encode_reg, e)
        (Reads-then location_of (Reads-read_u8 (80 + r)) (Reads-location_of_reg r (small r e)))
  | inr e ↦
      rw (encode_reg, e)
        (Reads-bind _ (Reads-read_u8 144)
          (Reads-last _ (Reads-encode_uleb128 r (omega (arith, h)))))
]

length-uleb_loop : (n v : ℕ) → length (uleb_loop n v) ≤ n
unfolding uleb_loop
length-uleb_loop zero v = omega arith
length-uleb_loop (suc n) v = elim (Bool-cases (v / 128 == 0)) [
  | inl e ↦ rw (uleb_loop, e) (omega arith)
  | inr e ↦ rw (uleb_loop, e) (omega (arith, length-uleb_loop n (v / 128)))
]

length-sleb_loop : (n : ℕ) (v : ℤ) → length (sleb_loop n v) ≤ n
unfolding sleb_loop
length-sleb_loop zero v = omega arith
length-sleb_loop (suc n) v = elim (Bool-cases (is_last (high_bits v) (low_bits v))) [
  | inl e ↦ rw (sleb_loop, e) (omega arith)
  | inr e ↦ rw (sleb_loop, e) (omega (arith, length-sleb_loop n (high_bits v)))
]

length-encode_location : (loc : VarLocation) → length (encode_location loc) ≤ 11
unfolding encode_location encode_reg encode_breg6 encode_uleb128 encode_sleb128
length-encode_location (stack offset) = omega (arith, length-sleb_loop 10 offset)
length-encode_location (register r) = elim (Bool-cases (leb r 15)) [
  | inl e ↦ rw (encode_reg, e) (omega arith)
  | inr e ↦ rw (encode_reg, e) (omega (arith, length-uleb_loop 10 r))
]

-- No byte of the name is 0.
abbrev pub NoNull : Bytes → Type 0
NoNull xs = AllFit (λ (b : ℕ). (b == 0) ≡ false) xs

Reads-name : (xs : Bytes) → NoNull xs → Reads read_name (xs ++ write_u8 0) xs
unfolding read_name before_zero write_u8
Reads-name [] h = record { reads = λ rest. refl }
Reads-name (x ∷ xs) (ne, h) = record {
  reads = λ rest. rw (read_name, ne, (Reads-name xs h).reads rest) refl;
}

-- A reader of DWARF takes exactly the bytes of the entry of a variable, whose name holds no byte 0, and gets back its
-- code, the bytes of its name, the type's offset and the location, and the stored length is that
-- of the location's bytes.
pub read_die-build_variable_die :
    (code : ℕ) (name : String) (offset : ℕ) (loc : VarLocation)
    → code < 2 ^ 64
    → NoNull (as_bytes name)
    → offset < 2 ^ 32
    → FitsLocation loc
    → Reads read_die
        (build_variable_die code name offset loc)
        (code, as_bytes name, offset, length (encode_location loc), loc)
unfolding read_die build_variable_die
read_die-build_variable_die code name offset loc hc hn ho hl =
    Reads-bind _ (Reads-encode_uleb128 code hc) (
      Reads-assoc _ (as_bytes name) (write_u8 0) _ (
        Reads-bind _ (Reads-name (as_bytes name) hn) (
          Reads-bind _ (Reads-read_u32 offset ho) (
            Reads-bind _
              (Reads-encode_uleb128 (length (encode_location loc))
                (omega (arith, length-encode_location loc)))
              (Reads-last _ (Reads-encode_location loc hl))))))
