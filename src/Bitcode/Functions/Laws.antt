-- ===== src/Bitcode/Functions/Laws.antt =====
-- llvm-bitcode/src/reader.rs: the records of functions are read back.
use Prim.Native.String.{String}
use mathlib.Core.List.{append_assoc, append-nil, map}
use llvm_in_rust.Base.{
  ℕ, suc, ◌+◌, ◌<◌, ◌^◌, ◌≡◌, ◌≢◌, refl, sym, ap, ◌∙◌, List, [], ◌∷◌, ◌++◌, Option, none, some,
  Bool, true, false, arith, length, length-append,
}
use llvm_in_rust.Base.Machine.{as_u32_lem}
use llvm_in_rust.Base.Maps.{get, some_injective}
use llvm_in_rust.Bitcode.Types.Laws.{FitsName}
use llvm_in_rust.Ir.Ids.{TypeId, InstrId}
use llvm_in_rust.Ir.Value.{Argument, Linkage}
use llvm_in_rust.Ir.Block.{BasicBlock}
use llvm_in_rust.Ir.Function.{Function, Instruction, new_declaration, push_instr}
use llvm_in_rust.Ir.Function.Build.{head, new_function_lem, alloc_instr-pushes, push_instr_lem}
use llvm_in_rust.Ir.Function.Names.{NamesResolve, push_instr-NamesResolve}
use llvm_in_rust.Bitcode.Stream.{
  write_list, write_all, pure, ◌>>=◌, write_u8, write_flag, index, bind_result, read_bytes,
  split_bytes, read_u8, read_u32,
}
use llvm_in_rust.Bitcode.Reads.{
  Reads, Reads-pure, Reads-bind, Reads-last, Reads-read_u32, Reads-read_flag, Reads-read_string,
  Reads-read_list, Reads-map_list, Reads-or_panic, FitsText, AllFit,
}
use llvm_in_rust.Bitcode.Values.Laws.{KnownType, FitsOption, Reads-read_type_id, Reads-linkage}
use llvm_in_rust.Bitcode.Instrs.{encode_instr}
use llvm_in_rust.Bitcode.Instrs.Parts.{FitsList, FitsU32, Reads-u32s}
use llvm_in_rust.Bitcode.Instrs.Laws.{FitsInstr, kept_instr, decode_instr-encode_instr}
use llvm_in_rust.Bitcode.Functions.{
  encode_arg, encode_block, encode_terminator, encode_function, read_strictfp, decode_arg,
  BlockRecord, read_block_record, block_of, terminator_of, function_head, alloc_all, push_blocks,
  decode_function,
}

abbrev FitsArg : List TypeId → Argument → Type 0
FitsArg m arg = FitsText arg.name × KnownType m arg.ty × FitsU32 arg.index

Reads-decode_arg :
    (m : List TypeId) (arg : Argument) → FitsArg m arg → Reads (decode_arg m) (encode_arg arg) arg
unfolding decode_arg encode_arg
Reads-decode_arg m arg (n, t, i) =
    Reads-bind _ (Reads-read_string arg.name n)
      (Reads-bind _ (Reads-read_type_id m arg.ty t) (Reads-last _ (Reads-read_u32 arg.index i)))

-- The byte is there, as the writer always writes it.
Reads-read_strictfp : (b : Bool) → Reads read_strictfp (write_flag b) b
unfolding read_strictfp write_flag write_u8 read_u8 index ◌>>=◌ bind_result read_bytes split_bytes
    pure
Reads-read_strictfp true = record { reads = λ rest. refl }
Reads-read_strictfp false = record { reads = λ rest. refl }

-- The index 0xFFFFFFFF is no instruction's.
abbrev pub FitsTerminator : InstrId → Type 0
FitsTerminator tid = tid < 4294967295

abbrev pub FitsBlock : BasicBlock → Type 0
FitsBlock bb = FitsText bb.name × FitsList FitsU32 bb.body × FitsOption FitsTerminator bb.terminator

unfoldable pub raw_terminator : Option InstrId → ℕ
raw_terminator none = 4294967295
raw_terminator (some tid) = tid

unfoldable pub record_of : BasicBlock → BlockRecord
unfolding raw_terminator
record_of bb = (bb.name, bb.body, raw_terminator bb.terminator)

Reads-encode_terminator :
    (o : Option InstrId)
    → FitsOption FitsTerminator o
    → Reads read_u32 (encode_terminator o) (raw_terminator o)
unfolding encode_terminator raw_terminator
Reads-encode_terminator none h = Reads-read_u32 4294967295 (omega arith)
Reads-encode_terminator (some tid) h = Reads-read_u32 tid (omega (arith, h))

Reads-block_record :
    (bb : BasicBlock) → FitsBlock bb → Reads read_block_record (encode_block bb) (record_of bb)
unfolding read_block_record encode_block record_of
Reads-block_record bb (n, b, t) =
    Reads-bind _ (Reads-read_string bb.name n)
      (Reads-bind _ (Reads-u32s bb.body b) (Reads-last _ (Reads-encode_terminator bb.terminator t)))

terminator_of-raw_terminator :
    (o : Option InstrId) → FitsOption FitsTerminator o → terminator_of (raw_terminator o) ≡ o
unfolding terminator_of raw_terminator
terminator_of-raw_terminator none h = refl
terminator_of-raw_terminator (some tid) h = ground arith

block_of-record_of : (bb : BasicBlock) → FitsBlock bb → block_of (record_of bb) ≡ bb
unfolding block_of record_of
block_of-record_of bb (_, _, h) =
    ap (λ (t : Option InstrId). record bb { terminator = t })
      (terminator_of-raw_terminator bb.terminator h)

blocks_of-records_of :
    (bbs : List BasicBlock) → AllFit FitsBlock bbs → map block_of (map record_of bbs) ≡ bbs
blocks_of-records_of [] h = refl
blocks_of-records_of (bb ∷ bbs) (h, hs) = cc (block_of-record_of bb h, blocks_of-records_of bbs hs)

-- The instructions pushed in order, none renamed.
unfoldable pub push_all : Function → List Instruction → Function
push_all f [] = f
push_all f (i ∷ is) = push_all (push_instr (f, i)).0 is

-- What pushing leaves of the function, and the names lead to the instructions.
push_all_lem :
    (f : Function) (is : List Instruction)
    → length f.instructions + length is < 2 ^ 32
    → NamesResolve f
    → (head (push_all f is) ≡ head f)
      × ((push_all f is).instructions ≡ f.instructions ++ is)
      × NamesResolve (push_all f is)
unfolding push_all
push_all_lem f [] room r = (refl, sym (append-nil f.instructions), r)
push_all_lem f (i ∷ is) room r =
    let (p, q) = push_instr_lem f i in
    let len = length-append f.instructions (i ∷ []) in
    let (a, b, c) =
      push_all_lem (push_instr (f, i)).0 is (rw (q, len) (omega arith))
        (push_instr-NamesResolve f i (omega arith) r) in
    (a ∙ p, b ∙ ap (λ xs. xs ++ is) q ∙ append_assoc f.instructions (i ∷ []) is, c)

function_head_lem :
    (name : String) (ty : TypeId) (linkage : Linkage) (is_declaration strictfp : Bool)
    (args : List Argument)
    → (f : Function) → f ≡ function_head name ty linkage is_declaration strictfp args
    → (head f ≡ (name, ty, args, [], linkage, is_declaration, strictfp))
      × (f.instructions ≡ [])
      × (f.value_names ≡ [])
unfolding function_head new_declaration
function_head_lem name ty linkage true strictfp args f e =
    let (h, i, v) = new_function_lem name ty args linkage in rw e (cc h, i, v)
function_head_lem name ty linkage false strictfp args f e =
    let (h, i, v) = new_function_lem name ty args linkage in rw e (cc h, i, v)

NamesResolve-empty : (f : Function) → f.value_names ≡ [] → NamesResolve f
unfolding get
NamesResolve-empty f e = record { resolves = λ n id h. absurd (cc (rw e at h)) }

-- The names, type, arguments, blocks and flags are the same, the instructions are the same but for
-- their fast-math flags, and the table of names leads to instructions that bear them.
pub record IsReread (f g : Function) : Type 0 where
  pub same_head : head g ≡ head f
  pub same_instructions : g.instructions ≡ map kept_instr f.instructions
  pub names_resolve : NamesResolve g

-- The numbers of a function fit their fields, its types are kept by the reader, no name of an
-- instruction is empty, and 0xFFFFFFFF is no terminator.
abbrev pub FitsFunction : List TypeId → Function → Type 0
FitsFunction m f =
    FitsText f.name
    × KnownType m f.ty
    × FitsList (FitsArg m) f.args
    × FitsList FitsBlock f.blocks
    × FitsList (FitsInstr m) f.instructions

FitsName-full : (o : Option String) → FitsName o → o ≢ some ""
FitsName-full none h e = absurd (cc e)
FitsName-full (some n) (_, full) e = full (some_injective e)

Reads-alloc_all :
    (m : List TypeId) (f : Function) (is : List Instruction)
    → AllFit (FitsInstr m) is
    → Reads (alloc_all m (length is) f) (write_all encode_instr is) (push_all f (map kept_instr is))
unfolding alloc_all write_all push_all kept_instr
Reads-alloc_all m f [] h = Reads-pure f
Reads-alloc_all m f (i ∷ is) (h, hs) = Reads-bind _ (decode_instr-encode_instr m i h) (
    Reads-bind _ (Reads-or_panic _ (alloc_instr-pushes f (kept_instr i) (FitsName-full i.name h.0)))
      (Reads-alloc_all m (push_instr (f, kept_instr i)).0 is hs))

length-map : (f : Instruction → Instruction) (is : List Instruction) → length (map f is) ≡ length is
length-map f [] = refl
length-map f (i ∷ is) = ap suc (length-map f is)

-- The count, and then the loop, with what follows it.
Reads-instrs :
    (m : List TypeId) (f : Function) (is : List Instruction)
    → length is < 2 ^ 32
    → AllFit (FitsInstr m) is
    → (finish : Function → Function)
    → Reads
        (read_u32 >>= λ n. alloc_all m n f >>= λ g. pure (finish g))
        (write_list encode_instr is)
        (finish (push_all f (map kept_instr is)))
unfolding write_list
Reads-instrs m f is room h finish =
    rw (as_u32_lem (length is) room)
      (Reads-bind _ (Reads-read_u32 (length is) room) (Reads-last _ (Reads-alloc_all m f is h)))

-- What the reader makes of the record of a function.
unfoldable pub reread : Function → Function
reread f =
    push_blocks
      (push_all (function_head f.name f.ty f.linkage f.is_declaration f.strictfp f.args)
        (map kept_instr f.instructions))
      (map record_of f.blocks)

pub reread-IsReread : (m : List TypeId) (f : Function) → FitsFunction m f → IsReread f (reread f)
unfolding reread push_blocks
reread-IsReread m f (_, _, _, (_, blocks), (room, instrs)) =
    let start = function_head f.name f.ty f.linkage f.is_declaration f.strictfp f.args in
    let (h, i, v) =
      function_head_lem f.name f.ty f.linkage f.is_declaration f.strictfp f.args start refl in
    let (a, b, c) =
      push_all_lem start (map kept_instr f.instructions)
        (rw (i, length-map kept_instr f.instructions) (omega arith)) (NamesResolve-empty start v) in
    record {
      same_head = cc (a, h, blocks_of-records_of f.blocks blocks);
      same_instructions = b ∙ ap (λ xs. xs ++ map kept_instr f.instructions) i;
      names_resolve = record { resolves = c.resolves };
    }

pub Reads-decode_function :
    (m : List TypeId) (f : Function)
    → FitsFunction m f
    → Reads (decode_function m) (encode_function f) (reread f)
unfolding decode_function encode_function reread
Reads-decode_function m f (n, t, (na, a), (nb, b), (ni, i)) =
    Reads-bind _ (Reads-read_string f.name n) (
      Reads-bind _ (Reads-read_type_id m f.ty t) (
        Reads-bind _ (Reads-linkage f.linkage) (
          Reads-bind _ (Reads-read_flag f.is_declaration) (
            Reads-bind _ (Reads-read_strictfp f.strictfp) (
              Reads-bind _
                (Reads-read_list (decode_arg m) encode_arg (FitsArg m) (Reads-decode_arg m) f.args
                  na a)
                (Reads-bind _
                  (Reads-map_list read_block_record encode_block record_of FitsBlock
                    Reads-block_record f.blocks nb b)
                  (Reads-instrs m _ f.instructions ni i _)))))))

-- Reading the record of a function whose numbers fit their fields, whose types are kept by the
-- reader, which names no instruction by an empty text and has no terminator 0xFFFFFFFF, gives a
-- function with the same name, type, arguments, blocks, linkage and flags and the same instructions
-- but for their fast-math flags, whose table of names leads to instructions that bear them.
pub decode_function-encode_function :
    (m : List TypeId) (f : Function)
    → FitsFunction m f
    → (g : Function) × Reads (decode_function m) (encode_function f) g × IsReread f g
decode_function-encode_function m f h =
    (reread f, Reads-decode_function m f h, reread-IsReread m f h)
