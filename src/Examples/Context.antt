-- ===== src/Examples/Context.antt =====
-- The tables of types and constants at concrete inputs.
use llvm_in_rust.Base.{◌≡◌, ◌≢◌, refl, List, [], ◌∷◌, some, Bool, true, false, arith, set}
use llvm_in_rust.Base.Maps.{get, insert}
use native.Mathlib.Decide.{ℕ_discrete}
use llvm_in_rust.Base.Text.{String-discrete}
use llvm_in_rust.Ir.Ids.{TypeId, ConstId}
use llvm_in_rust.Ir.Types.{integer, struct, TypeData-discrete}
use llvm_in_rust.Ir.Value.{array}
use llvm_in_rust.Ir.Context.{
  Context, ConstantKey, ConstantKey-discrete, int, empty_context, new_context, intern_anon,
  with_body, mk_struct_named, define_struct_body, get_type, get_named_struct,
}
use llvm_in_rust.Ir.Context.Laws.{IsInterned, KeepsTypes, intern_anon_lem}
use llvm_in_rust.Ir.Context.Named.{mk_struct_named_lem, define_struct_body_lem}
use llvm_in_rust.Ir.Context.Fresh.{empty_context-IsInterned}
use llvm_in_rust.Ir.Reachable.{
  ReachableContext, start, later, named, body, scalar, ReachableContext-types_distinct,
  ReachableContext-constants_distinct,
}
use llvm_in_rust.Ir.Constants.{key_data, intern_const, push_const, get_const}
use llvm_in_rust.Ir.Constants.Laws.{IsPooled, KeepsConstants, intern_const_lem, push_const_lem}

abbrev byte : Context × TypeId
byte = intern_anon empty_context (integer 8)

intern_anon_lem_example :
    IsInterned byte.0
    × (get_type byte.0 byte.1 ≡ some (integer 8))
    × KeepsTypes empty_context byte.0
intern_anon_lem_example =
    intern_anon_lem empty_context (integer 8) (omega arith) tt empty_context-IsInterned

abbrev node : Context × TypeId
node = mk_struct_named empty_context "Node"

mk_struct_named_lem_example :
    IsInterned node.0
    × (get_named_struct node.0 "Node" ≡ some node.1)
    × ((fields : List TypeId) × (packed : Bool) × (get_type node.0 node.1
          ≡ some (struct (some "Node") fields packed)))
    × KeepsTypes empty_context node.0
mk_struct_named_lem_example =
    mk_struct_named_lem empty_context "Node" (omega arith) empty_context-IsInterned

define_struct_body_lem_example :
    (ctx' : Context) × (define_struct_body node.0 node.1 (0 ∷ 0 ∷ []) true ≡ some ctx')
    × IsInterned ctx'
    × (get_type ctx' node.1 ≡ some (struct (some "Node") (0 ∷ 0 ∷ []) true))
    × ((k : TypeId) → k ≢ node.1 → get_type ctx' k ≡ get_type node.0 k)
define_struct_body_lem_example =
    define_struct_body_lem node.0 node.1 "Node" mk_struct_named_lem_example.2.0 (0 ∷ 0 ∷ [])
      mk_struct_named_lem_example.2.1 true mk_struct_named_lem_example.0
      mk_struct_named_lem_example.2.2

empty_context-IsPooled : IsPooled empty_context
unfolding get
empty_context-IsPooled = record {
  sound = λ key id e. absurd (cc);
  complete = λ key c id e keyed. absurd (cc);
}

abbrev seven : ConstantKey
seven = int 4 7

intern_const_lem_example :
    IsPooled (intern_const empty_context seven).0
    × (get_const (intern_const empty_context seven).0 (intern_const empty_context seven).1
        ≡ some (key_data seven))
    × (intern_const (intern_const empty_context seven).0 seven ≡ intern_const empty_context seven)
    × KeepsConstants empty_context (intern_const empty_context seven).0
intern_const_lem_example = intern_const_lem empty_context seven (omega arith) empty_context-IsPooled

push_const_lem_example :
    IsPooled (push_const empty_context (array 9 [])).0
    × (get_const (push_const empty_context (array 9 [])).0 (push_const empty_context (array 9 [])).1
        ≡ some (array 9 []))
    × KeepsConstants empty_context (push_const empty_context (array 9 [])).0
push_const_lem_example =
    push_const_lem empty_context (array 9 []) (omega arith) refl empty_context-IsPooled

-- A named struct, its body and a constant, made in a new context.
abbrev empty_body : Context
empty_body = (mk_struct_named new_context "Node").0

abbrev full_body : Context
full_body = record empty_body {
  types = set empty_body.types 10 (struct (some "Node") (8 ∷ 8 ∷ []) false);
}

abbrev with_seven : Context
with_seven = (intern_const full_body seven).0

with_seven-ReachableContext : ReachableContext with_seven
unfolding new_context intern_anon mk_struct_named get_named_struct define_struct_body with_body get
    insert TypeData-discrete ℕ_discrete String-discrete intern_const
with_seven-ReachableContext =
    later
      (later (later start (named "Node" (omega arith)))
        (body "Node" 10 (8 ∷ 8 ∷ []) false refl refl))
      (scalar seven (omega arith))

abbrev word : TypeId
word = 4

ReachableContext-types_distinct_example : word ≡ word
unfolding new_context intern_anon mk_struct_named get_type get insert TypeData-discrete ℕ_discrete
    String-discrete intern_const
ReachableContext-types_distinct_example =
    ReachableContext-types_distinct with_seven with_seven-ReachableContext word word (integer 32)
      refl refl

abbrev only : ConstId
only = 0

ReachableContext-constants_distinct_example :
    (only ≡ only) × (intern_const with_seven seven ≡ (with_seven, only))
unfolding new_context intern_anon mk_struct_named get_const get insert TypeData-discrete ℕ_discrete
    String-discrete ConstantKey-discrete key_data intern_const
ReachableContext-constants_distinct_example =
    ReachableContext-constants_distinct with_seven with_seven-ReachableContext only only seven refl
      refl
