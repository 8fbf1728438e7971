-- ===== src/Bitcode/Instrs/Parts.antt =====
-- llvm-bitcode/src/reader.rs: the parts of the records of instructions are read back.
use llvm_in_rust.Base.{ℕ, ◌<◌, ◌^◌, List, Option, length}
use llvm_in_rust.Base.Int.{ℤ}
use llvm_in_rust.Ir.Ids.{TypeId, BlockId, ValueRef}
use llvm_in_rust.Ir.Ops.{IntArithFlags, TailCallKind, LandingPadClause}
use llvm_in_rust.Bitcode.Stream.{
  pure, ◌<>◌, ◌>>=◌, write_u8, write_u32, write_i32, write_list, read_u8, read_u32, read_i32,
  read_list,
}
use llvm_in_rust.Bitcode.Reads.{
  Reads, Reads-bind, Reads-last, Reads-then, Reads-pure, Reads-read_u8, Reads-read_u32,
  Reads-read_i32, Reads-read_flag, Reads-read_list, FitsI32, AllFit,
}
use llvm_in_rust.Bitcode.Values.{
  encode_vref, decode_vref, read_type_id, encode_opt_vref, decode_opt_vref, encode_opt_u32,
  decode_opt_u32,
}
use llvm_in_rust.Bitcode.Values.Laws.{
  KnownType, FitsVref, FitsOption, Reads-decode_vref, Reads-decode_option, Reads-read_type_id,
}
use llvm_in_rust.Bitcode.Instrs.{encode_flags, encode_pair, encode_tail, encode_clause}
use llvm_in_rust.Bitcode.Instrs.Decode.Fields.{
  decode_flags, decode_pair, decode_tail, decode_clause,
}

abbrev pub FitsU32 : ℕ → Type 0
FitsU32 n = n < 2 ^ 32

-- The elements fit, and there are fewer than 2^32.
abbrev pub FitsList {ℓ} : {A : Type ℓ} → (A → Type 0) → List A → Type 0
FitsList P xs = (length xs < 2 ^ 32) × AllFit P xs

abbrev pub FitsPair : ValueRef × BlockId → Type 0
FitsPair (v, bid) = FitsVref v × FitsU32 bid

abbrev pub FitsClause : List TypeId → LandingPadClause → Type 0
FitsClause m (LandingPadClause.catch ty value) = KnownType m ty × FitsVref value
FitsClause m (LandingPadClause.filter ty value) = KnownType m ty × FitsVref value

pub Reads-decode_flags : (flags : IntArithFlags) → Reads decode_flags (encode_flags flags) flags
unfolding decode_flags encode_flags
Reads-decode_flags flags =
    Reads-bind _ (Reads-read_flag flags.nuw) (Reads-last _ (Reads-read_flag flags.nsw))

pub Reads-opt_vref :
    (o : Option ValueRef) → FitsOption FitsVref o → Reads decode_opt_vref (encode_opt_vref o) o
Reads-opt_vref = Reads-decode_option decode_vref encode_vref FitsVref Reads-decode_vref

pub Reads-opt_u32 :
    (o : Option ℕ) → FitsOption FitsU32 o → Reads decode_opt_u32 (encode_opt_u32 o) o
Reads-opt_u32 = Reads-decode_option read_u32 write_u32 FitsU32 Reads-read_u32

pub Reads-vrefs :
    (vs : List ValueRef)
    → FitsList FitsVref vs
    → Reads (read_list decode_vref) (write_list encode_vref vs) vs
Reads-vrefs vs (n, h) = Reads-read_list decode_vref encode_vref FitsVref Reads-decode_vref vs n h

pub Reads-u32s :
    (ns : List ℕ) → FitsList FitsU32 ns → Reads (read_list read_u32) (write_list write_u32 ns) ns
Reads-u32s ns (n, h) = Reads-read_list read_u32 write_u32 FitsU32 Reads-read_u32 ns n h

pub Reads-i32s :
    (ns : List ℤ) → FitsList FitsI32 ns → Reads (read_list read_i32) (write_list write_i32 ns) ns
Reads-i32s ns (n, h) = Reads-read_list read_i32 write_i32 FitsI32 Reads-read_i32 ns n h

pub Reads-decode_pair : (p : ValueRef × BlockId) → FitsPair p → Reads decode_pair (encode_pair p) p
unfolding decode_pair encode_pair
Reads-decode_pair (v, bid) (h, k) =
    Reads-bind _ (Reads-decode_vref v h) (Reads-last _ (Reads-read_u32 bid k))

pub Reads-pairs :
    (ps : List (ValueRef × BlockId))
    → FitsList FitsPair ps
    → Reads (read_list decode_pair) (write_list encode_pair ps) ps
Reads-pairs ps (n, h) = Reads-read_list decode_pair encode_pair FitsPair Reads-decode_pair ps n h

pub Reads-decode_clause :
    (m : List TypeId) (c : LandingPadClause)
    → FitsClause m c
    → Reads (decode_clause m) (encode_clause c) c
unfolding decode_clause encode_clause
Reads-decode_clause m (LandingPadClause.catch ty value) (h, k) =
    Reads-bind _ (Reads-read_u8 0)
      (Reads-bind _ (Reads-read_type_id m ty h) (Reads-last _ (Reads-decode_vref value k)))
Reads-decode_clause m (LandingPadClause.filter ty value) (h, k) =
    Reads-bind _ (Reads-read_u8 1)
      (Reads-bind _ (Reads-read_type_id m ty h) (Reads-last _ (Reads-decode_vref value k)))

pub Reads-clauses :
    (m : List TypeId) (cs : List LandingPadClause)
    → FitsList (FitsClause m) cs
    → Reads (read_list (decode_clause m)) (write_list encode_clause cs) cs
Reads-clauses m cs (n, h) =
    Reads-read_list (decode_clause m) encode_clause (FitsClause m) (Reads-decode_clause m) cs n h

pub Reads-tail : (t : TailCallKind) → Reads (read_u8 >>= decode_tail) (write_u8 (encode_tail t)) t
unfolding encode_tail decode_tail
Reads-tail TailCallKind.plain = Reads-then _ (Reads-read_u8 0) (Reads-pure _)
Reads-tail TailCallKind.tail = Reads-then _ (Reads-read_u8 1) (Reads-pure _)
Reads-tail TailCallKind.must_tail = Reads-then _ (Reads-read_u8 2) (Reads-pure _)
Reads-tail TailCallKind.no_tail = Reads-then _ (Reads-read_u8 3) (Reads-pure _)

-- Two operands, and an operand with a type.
module _ {A : Type 0} where
  pub Reads-operands :
      (f : ValueRef → ValueRef → A) (l r : ValueRef)
      → FitsVref l
      → FitsVref r
      → Reads
          (do x ← decode_vref; y ← decode_vref; pure (f x y))
          (encode_vref l <> encode_vref r)
          (f l r)
  Reads-operands f l r h k =
      Reads-bind _ (Reads-decode_vref l h) (Reads-last _ (Reads-decode_vref r k))

  pub Reads-cast :
      (m : List TypeId) (f : ValueRef → TypeId → A) (v : ValueRef) (t : TypeId)
      → FitsVref v
      → KnownType m t
      → Reads
          (do x ← decode_vref; y ← read_type_id m; pure (f x y))
          (encode_vref v <> write_u32 t)
          (f v t)
  Reads-cast m f v t h k =
      Reads-bind _ (Reads-decode_vref v h) (Reads-last _ (Reads-read_type_id m t k))
