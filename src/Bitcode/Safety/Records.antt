-- ===== src/Bitcode/Safety/Records.antt =====
-- llvm-bitcode/src/reader.rs: the records of values, types and constants never panic.
use llvm_in_rust.Base.{ℕ, List, inl, inr, Option-cases, get_elem?}
use llvm_in_rust.Ir.Ids.{TypeId, ConstId}
use llvm_in_rust.Ir.Value.{ConstantData}
use llvm_in_rust.Bitcode.Stream.{Parser}
use llvm_in_rust.Bitcode.Safety.{
  Answers, Answers-pure, Answers-fail, Answers-bind, Answers-if, Answers-read_u8, Answers-read_u32,
  Answers-read_flag, answering,
}
use llvm_in_rust.Bitcode.Enums.{
  decode_mem_ordering, decode_rmw_op, decode_int_pred, decode_float_pred, decode_linkage,
  decode_float_kind,
}
use llvm_in_rust.Bitcode.Values.{
  vref_of, decode_vref, decode_option, map_type_id, map_const_id, read_type_id, read_const_id,
}
use llvm_in_rust.Bitcode.Types.{
  decode_array, decode_vector, decode_struct, decode_function_type, type_record, decode_type,
}
use llvm_in_rust.Bitcode.Consts.{
  op_record, decode_aggregate, decode_typed, decode_scalar, decode_int_wide, decode_global_ref,
  decode_expr, const_record, decode_const, decode_global,
}

pub Answers-decode_mem_ordering : (tag : ℕ) → Answers (decode_mem_ordering tag)
unfolding decode_mem_ordering
Answers-decode_mem_ordering tag = search (answering) depth 40

pub Answers-decode_rmw_op : (tag : ℕ) → Answers (decode_rmw_op tag)
unfolding decode_rmw_op
Answers-decode_rmw_op tag = search (answering) depth 40

pub Answers-decode_int_pred : (tag : ℕ) → Answers (decode_int_pred tag)
unfolding decode_int_pred
Answers-decode_int_pred tag = search (answering) depth 40

pub Answers-decode_float_pred : (tag : ℕ) → Answers (decode_float_pred tag)
unfolding decode_float_pred
Answers-decode_float_pred tag = search (answering) depth 40

pub Answers-decode_linkage : (tag : ℕ) → Answers (decode_linkage tag)
unfolding decode_linkage
Answers-decode_linkage tag = search (answering) depth 40

pub Answers-decode_float_kind : (tag : ℕ) → Answers (decode_float_kind tag)
unfolding decode_float_kind
Answers-decode_float_kind tag = search (answering) depth 40

pub Answers-vref_of : (tag id : ℕ) → Answers (vref_of tag id)
unfolding vref_of
Answers-vref_of tag id = search (answering) depth 40

pub Answers-decode_vref : Answers decode_vref
unfolding decode_vref
Answers-decode_vref = search (answering, Answers-vref_of) depth 40

pub Answers-decode_option {ℓ} : {A : Type ℓ} {p : Parser A} → Answers p → Answers (decode_option p)
unfolding decode_option
Answers-decode_option h =
    Answers-bind Answers-read_flag
      (λ b. Answers-if b (Answers-bind h (λ a. Answers-pure _)) (Answers-pure _))

pub Answers-map_type_id : (m : List TypeId) (raw : ℕ) → Answers (map_type_id m raw)
unfolding map_type_id
Answers-map_type_id m raw = elim (Option-cases (get_elem? m raw)) [
  | inl e ↦ rw (e, map_type_id) (Answers-fail _)
  | inr (t, e) ↦ rw (e, map_type_id) (Answers-pure t)
]

Answers-map_const_id : (cm : List ConstId) (raw : ℕ) → Answers (map_const_id cm raw)
unfolding map_const_id
Answers-map_const_id cm raw = elim (Option-cases (get_elem? cm raw)) [
  | inl e ↦ rw (e, map_const_id) (Answers-fail _)
  | inr (c, e) ↦ rw (e, map_const_id) (Answers-pure c)
]

pub Answers-read_type_id : (m : List TypeId) → Answers (read_type_id m)
unfolding read_type_id
Answers-read_type_id m = search (answering, Answers-map_type_id) depth 40

pub Answers-read_const_id : (cm : List ConstId) → Answers (read_const_id cm)
unfolding read_const_id
Answers-read_const_id cm = search (answering, Answers-map_const_id) depth 40

pub ruleset reading_values = (
  answering, Answers-decode_mem_ordering, Answers-decode_rmw_op, Answers-decode_int_pred,
  Answers-decode_float_pred, Answers-decode_linkage, Answers-decode_float_kind, Answers-decode_vref,
  Answers-decode_option, Answers-map_type_id, Answers-read_type_id, Answers-read_const_id,
)

Answers-decode_array : (m : List TypeId) → Answers (decode_array m)
unfolding decode_array
Answers-decode_array m = search reading_values depth 40

Answers-decode_vector : (m : List TypeId) → Answers (decode_vector m)
unfolding decode_vector
Answers-decode_vector m = search reading_values depth 40

Answers-decode_struct : (m : List TypeId) → Answers (decode_struct m)
unfolding decode_struct
Answers-decode_struct m = search reading_values depth 40

Answers-decode_function_type : (m : List TypeId) → Answers (decode_function_type m)
unfolding decode_function_type
Answers-decode_function_type m = search reading_values depth 40

Answers-type_record : (m : List TypeId) (tag : ℕ) → Answers (type_record m tag)
unfolding type_record
Answers-type_record m tag =
    search
      (
        reading_values, Answers-decode_array, Answers-decode_vector, Answers-decode_struct,
        Answers-decode_function_type,
      )
      depth 40

pub Answers-decode_type : (m : List TypeId) → Answers (decode_type m)
unfolding decode_type
Answers-decode_type m = search (reading_values, Answers-type_record) depth 40

Answers-op_record : (m : List TypeId) (tag : ℕ) → Answers (op_record m tag)
unfolding op_record
Answers-op_record m tag = search reading_values depth 40

Answers-decode_aggregate :
    (m : List TypeId) (cm : List ConstId) (k : TypeId → List ConstId → ConstantData)
    → Answers (decode_aggregate m cm k)
unfolding decode_aggregate
Answers-decode_aggregate m cm k = search reading_values depth 40

Answers-decode_typed : (m : List TypeId) (k : TypeId → ConstantData) → Answers (decode_typed m k)
unfolding decode_typed
Answers-decode_typed m k = search reading_values depth 40

Answers-decode_scalar :
    (m : List TypeId) (k : TypeId → ℕ → ConstantData) → Answers (decode_scalar m k)
unfolding decode_scalar
Answers-decode_scalar m k = search reading_values depth 40

Answers-decode_int_wide : (m : List TypeId) → Answers (decode_int_wide m)
unfolding decode_int_wide
Answers-decode_int_wide m = search reading_values depth 40

Answers-decode_global_ref : (m : List TypeId) → Answers (decode_global_ref m)
unfolding decode_global_ref
Answers-decode_global_ref m = search reading_values depth 40

Answers-decode_expr : (m : List TypeId) (cm : List ConstId) → Answers (decode_expr m cm)
unfolding decode_expr
Answers-decode_expr m cm = search (reading_values, Answers-op_record) depth 40

Answers-const_record :
    (m : List TypeId) (cm : List ConstId) (tag : ℕ) → Answers (const_record m cm tag)
unfolding const_record
Answers-const_record m cm tag =
    search
      (
        reading_values, Answers-decode_aggregate, Answers-decode_typed, Answers-decode_scalar,
        Answers-decode_int_wide, Answers-decode_global_ref, Answers-decode_expr,
      )
      depth 40

pub Answers-decode_const : (m : List TypeId) (cm : List ConstId) → Answers (decode_const m cm)
unfolding decode_const
Answers-decode_const m cm = search (reading_values, Answers-const_record) depth 40

pub Answers-decode_global : (m : List TypeId) (cm : List ConstId) → Answers (decode_global m cm)
unfolding decode_global
Answers-decode_global m cm = search reading_values depth 40
