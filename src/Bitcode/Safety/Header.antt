-- ===== src/Bitcode/Safety/Header.antt =====
-- llvm-bitcode/src/reader.rs: `read_bitcode` accepts only bytes that start with the magic and version 1.
use llvm_in_rust.Base.{
  ℕ, ◌≡◌, sym, ap, ◌∙◌, inl, inr, true, [], ◌∷◌, ◌++◌, arith, Bool-cases, length, ◌==◌, ==_iff,
}
use llvm_in_rust.Ir.Context.{Context}
use llvm_in_rust.Ir.Module.{Module}
use llvm_in_rust.Bitcode.Stream.{
  Bytes, ok, pure, fail, read_bytes, first_bytes, read_array, read_u32, from_le_bytes, write_u32,
  le_bytes,
}
use llvm_in_rust.Bitcode.Safety.{split_bytes_full, bind_ok, read_bytes_ok}
use llvm_in_rust.Bitcode.Module.{magic, is_magic, check_magic, check_version, read_bitcode}

is_magic-true : (b : Bytes) → is_magic b ≡ true → b ≡ magic
unfolding is_magic
is_magic-true (a ∷ b ∷ c ∷ d ∷ []) h =
    let same : (a ≡ 76) × (b ≡ 82) × (c ≡ 73) × (d ≡ 82) = ground arith in
    let (p, q, r, t) = same in cc
is_magic-true [] h = absurd (cc)
is_magic-true (a ∷ []) h = absurd (cc)
is_magic-true (a ∷ b ∷ []) h = absurd (cc)
is_magic-true (a ∷ b ∷ c ∷ []) h = absurd (cc)
is_magic-true (a ∷ b ∷ c ∷ d ∷ e ∷ bs) h = absurd (cc)

check_magic_ok :
    (b bs : Bytes) (r : Unit {0} × Bytes) → check_magic b bs ≡ ok r → (b ≡ magic) × (r.1 ≡ bs)
unfolding check_magic pure fail
check_magic_ok b bs r h = elim (Bool-cases (is_magic b)) [
  | inl e ↦ (is_magic-true b e, cc (rw (check_magic, e) at h))
  | inr e ↦ absurd (cc (rw (check_magic, e) at h))
]

check_version_ok :
    (v : ℕ) (bs : Bytes) (r : Unit {0} × Bytes) → check_version v bs ≡ ok r → (v ≡ 1) × (r.1 ≡ bs)
unfolding check_version pure fail
check_version_ok v bs r h = elim (Bool-cases (v == 1)) [
  | inl e ↦ ((==_iff v 1).0 e, cc (rw (check_version, e) at h))
  | inr e ↦ absurd (cc (rw (check_version, e) at h))
]

one_bytes : (b : Bytes) → length b ≡ 4 → from_le_bytes b ≡ 1 → b ≡ write_u32 1
unfolding from_le_bytes write_u32 le_bytes
one_bytes (a ∷ b ∷ c ∷ d ∷ []) l h =
    let same : (a ≡ 1) × (b ≡ 0) × (c ≡ 0) × (d ≡ 0) =
      (omega (arith, h), omega (arith, h), omega (arith, h), omega (arith, h)) in
    let (p, q, r, t) = same in cc
one_bytes [] l h = absurd (omega (arith, l))
one_bytes (a ∷ []) l h = absurd (omega (arith, l))
one_bytes (a ∷ b ∷ []) l h = absurd (omega (arith, l))
one_bytes (a ∷ b ∷ c ∷ []) l h = absurd (omega (arith, l))
one_bytes (a ∷ b ∷ c ∷ d ∷ e ∷ bs) l h = absurd (omega (arith, l))

read_array_ok :
    (n : ℕ) (bs b rest : Bytes) → read_array n bs ≡ ok (b, rest) → (bs ≡ b ++ rest) × (length b ≡ n)
unfolding read_array first_bytes
read_array_ok n bs b rest h =
    let (xs, more, p, q) = bind_ok (read_bytes n) (first_bytes n) bs (b, rest) h in
    let (at, len) = read_bytes_ok n bs xs more p in
    let same = rw (first_bytes, split_bytes_full n xs len) at q in (cc (at, same), cc (len, same))

read_u32_ok : (bs rest : Bytes) → read_u32 bs ≡ ok (1, rest) → bs ≡ write_u32 1 ++ rest
unfolding read_u32 pure
read_u32_ok bs rest h =
    let (b, more, p, q) = bind_ok (read_array 4) (λ b. pure (from_le_bytes b)) bs (1, rest) h in
    let (at, len) = read_array_ok 4 bs b more p in
    let one = one_bytes b len (cc q) in
    at ∙ ap (λ t. t ++ more) one ∙ ap (λ t. write_u32 1 ++ t) (cc q)

-- Bytes that `read_bitcode` accepts start with the magic of the format and the version 1.
pub read_bitcode_accepts :
    (bs : Bytes) (r : (Context × Module) × Bytes)
    → read_bitcode bs ≡ ok r
    → (rest : Bytes) × (bs ≡ magic ++ (write_u32 1 ++ rest))
unfolding read_bitcode
read_bitcode_accepts bs r h =
    let (b, bs1, p, h1) = bind_ok (read_bytes 4) _ bs r h in
    let (at, _) = read_bytes_ok 4 bs b bs1 p in
    let (u, bs2, p2, h2) = bind_ok (check_magic b) _ bs1 r h1 in
    let (is, same) = check_magic_ok b bs1 (u, bs2) p2 in
    let (v, bs3, p3, h3) = bind_ok read_u32 _ bs2 r h2 in
    let (u', bs4, p4, _) = bind_ok (check_version v) _ bs3 r h3 in
    let (one, _) = check_version_ok v bs3 (u', bs4) p4 in
    let tail = read_u32_ok bs2 bs3 (p3 ∙ ap (λ n. ok (n, bs3)) one) in
    (bs3, at ∙ ap (λ t. t ++ bs1) is ∙ ap (λ t. magic ++ t) (sym same ∙ tail))
