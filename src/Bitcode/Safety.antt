-- ===== src/Bitcode/Safety.antt =====
-- llvm-bitcode/src/reader.rs: on any input a reading function gives an error, or a value and what is left of
-- the input; it never panics.
pub mod Records
pub mod Instrs
pub mod Functions
pub mod Module
pub mod Header
use llvm_in_rust.Base.{
  ℕ, zero, suc, ◌≡◌, refl, sym, ap, ◌∙◌, inl, inr, ◌⊎◌, Bool, true, false, List, [], ◌∷◌, ◌++◌,
  Option, none, some, if◌then◌else◌, Option-cases, length,
}
use mathlib.Core.List.{append_assoc}
use llvm_in_rust.Bitcode.Stream.{
  Bytes, BitcodeError, Result, ok, err, panic, Parser, pure, fail, ◌>>=◌, bind_result, split_bytes,
  read_bytes, truncated_input, read_u8, read_u32, read_i32, read_u64, text_of, read_string,
  read_opt_string, read_flag, repeat, read_list, index, first_bytes, read_array, from_le_bytes,
  as_i32,
}
use llvm_in_rust.Base.Maps.{some_injective}
use llvm_in_rust.Bitcode.Reads.{split_bytes_all}
use llvm_in_rust.Base.Utf8.{from_utf8}

-- An error, or a value with the rest of the input.
abbrev pub Outcome {ℓ} : {A : Type ℓ} → Bytes → Result (A × Bytes) → Type ℓ
Outcome {A = A} bs r =
    ((e : BitcodeError) × (r ≡ err e))
    ⊎ ((a : A) × (taken : Bytes) × (rest : Bytes) × (r ≡ ok (a, rest)) × (bs ≡ taken ++ rest))

pub record Answers {ℓ} {A : Type ℓ} (p : Parser A) : Type ℓ where
  pub answers : (bs : Bytes) → Outcome bs (p bs)

pub Answers-pure {ℓ} : {A : Type ℓ} (a : A) → Answers (pure a)
unfolding pure
Answers-pure a = record { answers = λ bs. inr (a, [], bs, refl, refl) }

pub Answers-fail {ℓ} : {A : Type ℓ} (e : BitcodeError) → Answers {A = A} (fail e)
unfolding fail
Answers-fail e = record { answers = λ bs. inl (e, refl) }

-- What follows may count on what the first parser gives.
pub Answers-bind_where {ℓ κ} :
    {A : Type ℓ} {B : Type κ} {p : Parser A} {f : A → Parser B}
    → Answers p
    → ((bs : Bytes) (a : A) (rest : Bytes) → p bs ≡ ok (a, rest) → Answers (f a))
    → Answers (p >>= f)
unfolding ◌>>=◌ bind_result
Answers-bind_where {p = p} {f} hp hf = record {
  answers = λ bs. elim (hp.answers bs) [
    | inl (e, q) ↦ inl (e, ap (λ r. bind_result r f) q)
    | inr (a, xs, rest, q, at) ↦ elim ((hf bs a rest q).answers rest) [
      | inl (e, q') ↦ inl (e, ap (λ r. bind_result r f) q ∙ q')
      | inr (b, ys, rest', q', at') ↦ inr (
        b,
        xs ++ ys,
        rest',
        ap (λ r. bind_result r f) q ∙ q',
        at ∙ ap (λ t. xs ++ t) at' ∙ sym (append_assoc xs ys rest'),
      )
    ]
  ];
}

pub Answers-bind {ℓ κ} :
    {A : Type ℓ} {B : Type κ} {p : Parser A} {f : A → Parser B}
    → Answers p
    → ((a : A) → Answers (f a))
    → Answers (p >>= f)
Answers-bind hp hf = Answers-bind_where hp (λ bs a rest e. hf a)

pub Answers-if {ℓ} :
    {A : Type ℓ} (b : Bool) {p q : Parser A} → Answers p → Answers q → Answers (if b then p else q)
Answers-if true hp hq = hp
Answers-if false hp hq = hq

pub split_bytes_lem :
    (n : ℕ) (bs xs rest : Bytes) → split_bytes n bs ≡ some (xs, rest) → bs ≡ xs ++ rest
unfolding split_bytes
split_bytes_lem zero bs xs rest h = cc
split_bytes_lem (suc n) [] xs rest h = absurd (cc)
split_bytes_lem (suc n) (b ∷ bs) xs rest h = elim (Option-cases (split_bytes n bs)) [
  | inl e ↦ absurd (cc (rw e at h))
  | inr ((ys, more), e) ↦ cc (split_bytes_lem n bs ys more e, rw e at h)
]

pub Answers-read_bytes : (n : ℕ) → Answers (read_bytes n)
unfolding read_bytes
Answers-read_bytes n = record {
  answers = λ bs. elim (Option-cases (split_bytes n bs)) [
    | inl e ↦ inl (truncated_input, rw (e, read_bytes) refl)
    | inr ((xs, rest), e) ↦
        inr (xs, xs, rest, rw (e, read_bytes) refl, split_bytes_lem n bs xs rest e)
  ];
}

pub length-split_bytes :
    (n : ℕ) (bs xs rest : Bytes) → split_bytes n bs ≡ some (xs, rest) → length xs ≡ n
unfolding split_bytes
length-split_bytes zero bs xs rest h = sym (ap (λ p. length (p.0)) (some_injective h))
length-split_bytes (suc n) [] xs rest h = absurd (cc)
length-split_bytes (suc n) (b ∷ bs) xs rest h = elim (Option-cases (split_bytes n bs)) [
  | inl e ↦ absurd (cc (rw e at h))
  | inr ((ys, more), e) ↦
      sym (ap (λ p. length (p.0)) (some_injective (rw e at h)))
      ∙ ap suc (length-split_bytes n bs ys more e)
]

module _ {A B : Type 0} where
  bind_result_ok :
      (x : Result (A × Bytes)) (f : A → Parser B) (r : B × Bytes)
      → bind_result x f ≡ ok r
      → (a : A) × (rest : Bytes) × (x ≡ ok (a, rest)) × (f a rest ≡ ok r)
  unfolding bind_result
  bind_result_ok (ok (a, rest)) f r h = (a, rest, refl, h)
  bind_result_ok (err e) f r h = absurd (cc)
  bind_result_ok panic f r h = absurd (cc)

  -- Where a chain succeeds, its first parser did, and then the others.
  pub bind_ok :
      (p : Parser A) (f : A → Parser B) (bs : Bytes) (r : B × Bytes)
      → (p >>= f) bs ≡ ok r
      → (a : A) × (rest : Bytes) × (p bs ≡ ok (a, rest)) × (f a rest ≡ ok r)
  unfolding ◌>>=◌
  bind_ok p f bs r h = bind_result_ok (p bs) f r h

pub read_bytes_ok :
    (n : ℕ) (bs b rest : Bytes) → read_bytes n bs ≡ ok (b, rest) → (bs ≡ b ++ rest) × (length b ≡ n)
unfolding read_bytes
read_bytes_ok n bs b rest h = elim (Option-cases (split_bytes n bs)) [
  | inl e ↦ absurd (cc (rw (read_bytes, e) at h))
  | inr ((ys, more), e) ↦ (
    cc (split_bytes_lem n bs ys more e, rw (read_bytes, e) at h),
    cc (length-split_bytes n bs ys more e, rw (read_bytes, e) at h),
  )
]

-- So many bytes are all taken.
pub split_bytes_full : (n : ℕ) (xs : Bytes) → length xs ≡ n → split_bytes n xs ≡ some (xs, [])
split_bytes_full n xs e = ap (λ k. split_bytes k xs) (sym e) ∙ split_bytes_all xs

Answers-read_array : (n : ℕ) → Answers (read_array n)
unfolding read_array read_bytes first_bytes ◌>>=◌ bind_result
Answers-read_array n = record {
  answers = λ bs. elim (Option-cases (split_bytes n bs)) [
    | inl e ↦ inl (truncated_input, rw (e, read_bytes) refl)
    | inr ((xs, rest), e) ↦
        let full = split_bytes_full n xs (length-split_bytes n bs xs rest e) in
        inr
          (xs, xs, rest, rw (e, read_bytes, full, first_bytes) refl, split_bytes_lem n bs xs rest e)
  ];
}

pub Answers-read_u8 : Answers read_u8
unfolding read_u8 read_bytes split_bytes index ◌>>=◌ bind_result
Answers-read_u8 = record { answers = one_byte }
  where
    one_byte : (bs : Bytes) → Outcome bs (read_u8 bs)
    one_byte [] = inl (truncated_input, refl)
    one_byte (b ∷ bs) = inr (b, b ∷ [], bs, refl, refl)

pub Answers-read_u32 : Answers read_u32
unfolding read_u32
Answers-read_u32 = Answers-bind (Answers-read_array 4) (λ b. Answers-pure _)

pub Answers-read_i32 : Answers read_i32
unfolding read_i32
Answers-read_i32 = Answers-bind (Answers-read_array 4) (λ b. Answers-pure _)

pub Answers-read_u64 : Answers read_u64
unfolding read_u64
Answers-read_u64 = Answers-bind (Answers-read_array 8) (λ b. Answers-pure _)

pub Answers-read_flag : Answers read_flag
unfolding read_flag
Answers-read_flag = Answers-bind Answers-read_u8 (λ b. Answers-pure _)

Answers-text_of : (bytes : Bytes) → Answers (text_of bytes)
unfolding text_of
Answers-text_of bytes = elim (Option-cases (from_utf8 bytes)) [
  | inl e ↦ rw (e, text_of) (Answers-fail _)
  | inr (s, e) ↦ rw (e, text_of) (Answers-pure s)
]

pub Answers-read_string : Answers read_string
unfolding read_string
Answers-read_string =
    Answers-bind Answers-read_u32
      (λ len. Answers-if _ (Answers-pure _) (Answers-bind (Answers-read_bytes len) Answers-text_of))

pub Answers-read_opt_string : Answers read_opt_string
unfolding read_opt_string
Answers-read_opt_string = Answers-bind Answers-read_u32 (λ len. Answers-if _ (Answers-pure _) (
    Answers-bind (Answers-read_bytes len)
      (λ bytes. Answers-bind (Answers-text_of bytes) (λ s. Answers-pure _))))

Answers-repeat {ℓ} : {A : Type ℓ} {p : Parser A} (n : ℕ) → Answers p → Answers (repeat n p)
unfolding repeat
Answers-repeat zero h = Answers-pure _
Answers-repeat (suc n) h =
    Answers-bind h (λ a. Answers-bind (Answers-repeat n h) (λ more. Answers-pure _))

pub Answers-read_list {ℓ} : {A : Type ℓ} {p : Parser A} → Answers p → Answers (read_list p)
unfolding read_list
Answers-read_list h = Answers-bind Answers-read_u32 (λ n. Answers-repeat n h)

pub ruleset answering = (
  Answers-pure, Answers-fail, Answers-bind, Answers-if, Answers-read_u8, Answers-read_u32,
  Answers-read_i32, Answers-read_u64, Answers-read_flag, Answers-read_string,
  Answers-read_opt_string, Answers-read_list,
)
