-- ===== src/Bitcode/Safety/Functions.antt =====
-- llvm-bitcode/src/reader.rs: the record of a function never panics, since no instruction that is
-- read has an empty text for a name.
use Prim.Native.String.{String}
use llvm_in_rust.Base.{
  ℕ, zero, suc, ◌≡◌, ◌≢◌, refl, sym, ap, ◌∙◌, inl, inr, false, Bool-cases, List, [], ◌∷◌, Option,
  some, Option-cases, length, not, ◌==◌, ==_iff,
}
use llvm_in_rust.Base.Utf8.{from_utf8}
use llvm_in_rust.Base.Utf8.Nonempty.{from_utf8-full}
use llvm_in_rust.Ir.Ids.{TypeId}
use llvm_in_rust.Ir.Function.{Function, Instruction, push_instr, alloc_instr}
use llvm_in_rust.Ir.Function.Build.{alloc_instr-pushes}
use llvm_in_rust.Bitcode.Stream.{
  Bytes, Parser, ok, pure, fail, ◌>>=◌, bind_result, or_panic, read_u32, read_bytes, text_of,
  read_opt_string,
}
use llvm_in_rust.Bitcode.Values.{read_type_id}
use llvm_in_rust.Bitcode.Instrs.Decode.{decode_kind, decode_instr}
use llvm_in_rust.Bitcode.Functions.{
  read_strictfp, decode_arg, read_block_record, alloc_all, decode_function,
}
use llvm_in_rust.Bitcode.Safety.{
  Answers, Answers-pure, Answers-bind_where, Answers-read_u8, bind_ok, read_bytes_ok,
}
use llvm_in_rust.Bitcode.Safety.Records.{reading_values}
use llvm_in_rust.Bitcode.Safety.Instrs.{Answers-decode_instr}

Answers-read_strictfp : Answers read_strictfp
unfolding read_strictfp
Answers-read_strictfp = record {
  answers = λ bs. elim (Answers-read_u8.answers bs) [
    | inl (e, q) ↦ inr (false, [], bs, rw (q, read_strictfp) refl, refl)
    | inr (b, taken, rest, q, at) ↦ inr (not (b == 0), taken, rest, rw (q, read_strictfp) refl, at)
  ];
}

Answers-decode_arg : (m : List TypeId) → Answers (decode_arg m)
unfolding decode_arg
Answers-decode_arg m = search reading_values depth 40

Answers-read_block_record : Answers read_block_record
unfolding read_block_record
Answers-read_block_record = search reading_values depth 40

pub Answers-or_panic :
    {A B : Type 0} (o : Option A) (f : A → Parser B) (a : A)
    → o ≡ some a
    → Answers (f a)
    → Answers (or_panic o >>= f)
unfolding or_panic ◌>>=◌ bind_result
Answers-or_panic o f a e h = rw e (record { answers = h.answers })

text_of_ok :
    (bytes bs : Bytes) (s : String) (rest : Bytes)
    → text_of bytes bs ≡ ok (s, rest)
    → from_utf8 bytes ≡ some s
unfolding text_of pure fail
text_of_ok bytes bs s rest h = elim (Option-cases (from_utf8 bytes)) [
  | inl e ↦ absurd (cc (rw (text_of, e) at h))
  | inr (t, e) ↦ cc (e, rw (text_of, e) at h)
]

from_utf8-nonempty : (bytes : Bytes) → length bytes ≢ 0 → from_utf8 bytes ≢ some ""
from_utf8-nonempty [] h e = h refl
from_utf8-nonempty (b ∷ bs) h e = from_utf8-full b bs e

-- An optional text that is read is not empty.
read_opt_string-full :
    (bs : Bytes) (o : Option String) (rest : Bytes)
    → read_opt_string bs ≡ ok (o, rest)
    → o ≢ some ""
unfolding read_opt_string pure
read_opt_string-full bs o rest h full =
    let (len, bs1, _, h1) = bind_ok read_u32 _ bs (o, rest) h in
    elim (Bool-cases (len == 0)) [
      | inl e ↦ absurd (cc (rw e at h1, full))
      | inr e ↦
          let (bytes, bs2, h2, h3) = bind_ok (read_bytes len) _ bs1 (o, rest) (rw e at h1) in
          let (s, bs3, h4, h5) = bind_ok (text_of bytes) _ bs2 (o, rest) h3 in
          let (_, size) = read_bytes_ok len bs1 bytes bs2 h2 in
          from_utf8-nonempty bytes (λ z. cc (e, (==_iff len 0).1 (sym size ∙ z)))
            (cc (text_of_ok bytes bs2 s bs3 h4, h5, full))
    ]

decode_instr-named :
    (m : List TypeId) (bs : Bytes) (i : Instruction) (rest : Bytes)
    → decode_instr m bs ≡ ok (i, rest)
    → i.name ≢ some ""
unfolding decode_instr pure
decode_instr-named m bs i rest h =
    let (name, bs1, h1, h2) = bind_ok read_opt_string _ bs (i, rest) h in
    let (ty, bs2, _, h3) = bind_ok (read_type_id m) _ bs1 (i, rest) h2 in
    let (kind, bs3, _, h4) = bind_ok (decode_kind m) _ bs2 (i, rest) h3 in
    let read : Instruction = record { name = name; ty = ty; kind = kind } in
    let same : read ≡ i = cc h4 in
    λ e. read_opt_string-full bs name bs1 h1 (ap (λ (x : Instruction). x.name) same ∙ e)

Answers-alloc_all : (m : List TypeId) (n : ℕ) (f : Function) → Answers (alloc_all m n f)
unfolding alloc_all
Answers-alloc_all m zero f = Answers-pure f
Answers-alloc_all m (suc n) f = Answers-bind_where (Answers-decode_instr m) (λ bs i rest e.
    Answers-or_panic (alloc_instr f i) _ (push_instr (f, i))
      (alloc_instr-pushes f i (decode_instr-named m bs i rest e)) (Answers-alloc_all m n _))

pub Answers-decode_function : (m : List TypeId) → Answers (decode_function m)
unfolding decode_function
Answers-decode_function m =
    search
      (
        reading_values, Answers-read_strictfp, Answers-decode_arg, Answers-read_block_record,
        Answers-alloc_all,
      )
      depth 40
