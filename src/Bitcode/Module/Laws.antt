-- ===== src/Bitcode/Module/Laws.antt =====
-- llvm-bitcode/src/reader.rs: what `read_bitcode` gives back of the context and the module that
-- `write_bitcode` wrote.
use mathlib.Core.List.{append_assoc, append-nil, map}
use mathlib.Core.Path.{subst}
use llvm_in_rust.Base.{
  ℕ, suc, ◌+◌, ◌<◌, ◌≤◌, ◌^◌, ◌≡◌, refl, sym, ap, ◌∙◌, List, [], ◌∷◌, ◌++◌, some, arith, length,
  length-append, get_elem?,
}
use llvm_in_rust.Base.Machine.{as_u32, as_u32_lem}
use llvm_in_rust.Ir.Ids.{TypeId}
use llvm_in_rust.Ir.Types.{TypeData-discrete}
use llvm_in_rust.Base.Maps.{get, insert}
use native.Mathlib.Decide.{ℕ_discrete}
use llvm_in_rust.Ir.Value.{GlobalVariable}
use llvm_in_rust.Ir.Context.{Context, get_type, new_context, intern_anon}
use llvm_in_rust.Ir.Context.Laws.{IsInterned, KeepsTypes}
use llvm_in_rust.Ir.Context.Fresh.{new_context-IsInterned, IsInterned-singletons}
use llvm_in_rust.Ir.Function.{Function}
use llvm_in_rust.Ir.Module.{Module, new_module, add_function, add_global}
use llvm_in_rust.Ir.Module.Laws.{
  NamesResolve, new_module-NamesResolve, add_function-NamesResolve, add_global-NamesResolve,
}
use llvm_in_rust.Bitcode.Stream.{
  Bytes, Parser, write_u32, read_u32, write_all, write_list, write_string, ◌>>=◌,
}
use llvm_in_rust.Bitcode.Reads.{
  Reads, Reads-bind, Reads-last, Reads-pure, Reads-read_u32, Reads-read_bytes, Reads-read_string,
  Reads-read_list, Reads-map_list, FitsText, AllFit,
}
use llvm_in_rust.Bitcode.Types.{encode_type}
use llvm_in_rust.Bitcode.Consts.{encode_const, encode_global, decode_global}
use llvm_in_rust.Bitcode.Consts.Laws.{FitsGlobal, decode_global-encode_global}
use llvm_in_rust.Bitcode.Instrs.Parts.{FitsList}
use llvm_in_rust.Bitcode.Functions.{encode_function, decode_function}
use llvm_in_rust.Bitcode.Functions.Laws.{
  IsReread, FitsFunction, reread, reread-IsReread, Reads-decode_function,
}
use llvm_in_rust.Bitcode.Module.{
  magic, write_bitcode, add_globals, add_functions, is_magic, check_magic, check_version,
  read_module, read_bitcode,
}
use llvm_in_rust.Bitcode.Module.Reached.{Reached}
use llvm_in_rust.Bitcode.Module.Tables.{
  upto, FitsTypes, FitsConsts, Reads-read_types, Reads-read_consts, with_constants,
}

-- The tables of types are consistent and start with the types of `new`, there is room for u32
-- indices, and each type and constant fits its record: its numbers fit their fields, a type refers
-- to types before it only, a constant to types of the table and to constants before it only, and no
-- struct has an empty text for a name.
pub record FitsContext (ctx : Context) : Type 0 where
  pub interned : IsInterned ctx
  pub starts : KeepsTypes new_context ctx
  pub type_room : length ctx.types < 2 ^ 32
  pub types_fit : FitsTypes 0 ctx.types
  pub const_room : length ctx.constants < 2 ^ 32
  pub consts_fit : FitsConsts (upto (length ctx.types)) 0 ctx.constants

-- The globals and the functions of a module fit their records: their numbers and texts fit their
-- fields, a global refers to types and constants of the tables and a function to types of the
-- table, no instruction has an empty text for a name, and no terminator is 0xFFFFFFFF.
pub record FitsModule (ctx : Context) (m : Module) : Type 0 where
  pub name_fits : FitsText m.name
  pub globals_fit :
      FitsList (FitsGlobal (upto (length ctx.types)) (upto (length ctx.constants))) m.globals
  pub functions_fit : FitsList (FitsFunction (upto (length ctx.types))) m.functions

-- The same types and constants at the same indices, in consistent tables.
pub record IsRereadContext (c d : Context) : Type 0 where
  pub same_types : d.types ≡ c.types
  pub same_constants : d.constants ≡ c.constants
  pub interned_again : IsInterned d

abbrev pub AllReread : List Function → List Function → Type 0
AllReread [] [] = Unit
AllReread (f ∷ fs) (g ∷ gs) = IsReread f g × AllReread fs gs
AllReread _ _ = ⊥

-- The same name and globals, each function as it is read back, and tables of names that are right.
pub record IsRereadModule (m n : Module) : Type 0 where
  pub same_name : n.name ≡ m.name
  pub same_globals : n.globals ≡ m.globals
  pub functions_reread : AllReread m.functions n.functions
  pub names_resolve : NamesResolve n

agree :
    {A : Type 0} (xs ys : List A)
    → ((i : ℕ) (a : A) → get_elem? xs i ≡ some a → get_elem? ys i ≡ some a)
    → length ys ≤ length xs
    → xs ≡ ys
agree [] [] h n = refl
agree [] (y ∷ ys) h n = absurd (omega (arith, n))
agree (x ∷ xs) [] h n = absurd (cc (h 0 x refl))
agree (x ∷ xs) (y ∷ ys) h n =
    cc (h 0 x refl, agree xs ys (λ i a e. h (suc i) a e) (omega (arith, n)))

AllReread-map :
    (t : List TypeId) (fs : List Function)
    → AllFit (FitsFunction t) fs
    → AllReread fs (map reread fs)
AllReread-map t [] h = tt
AllReread-map t (f ∷ fs) (h, hs) = (reread-IsReread t f h, AllReread-map t fs hs)

add_globals_lem :
    (m : Module) (gvs : List GlobalVariable)
    → length m.globals + length gvs < 2 ^ 32
    → NamesResolve m
    → ((add_globals m gvs).name ≡ m.name)
      × ((add_globals m gvs).globals ≡ m.globals ++ gvs)
      × ((add_globals m gvs).functions ≡ m.functions)
      × NamesResolve (add_globals m gvs)
unfolding add_globals add_global
add_globals_lem m [] room r = (refl, sym (append-nil m.globals), refl, r)
add_globals_lem m (gv ∷ gvs) room r =
    let len = length-append m.globals (gv ∷ []) in
    let (a, b, c, d) =
      add_globals_lem (add_global m gv).0 gvs (rw len (omega arith))
        (add_global-NamesResolve m gv (omega arith) r).0 in
    (a, b ∙ append_assoc m.globals (gv ∷ []) gvs, c, d)

add_functions_lem :
    (m : Module) (fs : List Function)
    → length m.functions + length fs < 2 ^ 32
    → NamesResolve m
    → ((add_functions m fs).name ≡ m.name)
      × ((add_functions m fs).globals ≡ m.globals)
      × ((add_functions m fs).functions ≡ m.functions ++ fs)
      × NamesResolve (add_functions m fs)
unfolding add_functions add_function
add_functions_lem m [] room r = (refl, refl, sym (append-nil m.functions), r)
add_functions_lem m (f ∷ fs) room r =
    let len = length-append m.functions (f ∷ []) in
    let (a, b, c, d) =
      add_functions_lem (add_function m f).0 fs (rw len (omega arith))
        (add_function-NamesResolve m f (omega arith) r).0 in
    (a, b, c ∙ append_assoc m.functions (f ∷ []) fs, d)

length-map : (f : Function → Function) (fs : List Function) → length (map f fs) ≡ length fs
length-map f [] = refl
length-map f (g ∷ gs) = ap suc (length-map f gs)

read_back : Module → Module
read_back m = add_functions (add_globals (new_module m.name) m.globals) (map reread m.functions)

read_back-IsRereadModule :
    (ctx : Context) (m : Module) → FitsModule ctx m → IsRereadModule m (read_back m)
unfolding read_back new_module
read_back-IsRereadModule ctx m h =
    let (groom, _) = h.globals_fit in
    let (froom, fits) = h.functions_fit in
    let (a, b, c, d) =
      add_globals_lem (new_module m.name) m.globals (omega (arith, groom))
        (new_module-NamesResolve m.name) in
    let (a', b', c', d') =
      add_functions_lem (add_globals (new_module m.name) m.globals) (map reread m.functions)
        (rw (c, length-map reread m.functions) (omega (arith, froom))) d in
    record {
      same_name = a' ∙ a;
      same_globals = b' ∙ b;
      functions_reread =
          rw (c' ∙ ap (λ xs. xs ++ map reread m.functions) c)
            (AllReread-map (upto (length ctx.types)) m.functions fits);
      names_resolve = d';
    }

Reads-read_module :
    (ctx : Context) (m : Module)
    → FitsModule ctx m
    → Reads
        (read_module (upto (length ctx.types)) (upto (length ctx.constants)))
        (write_list encode_global m.globals
          ++ (write_string m.name ++ write_list encode_function m.functions))
        (read_back m)
unfolding read_module read_back
Reads-read_module ctx m h =
    let t = upto (length ctx.types) in
    let k = upto (length ctx.constants) in
    let (groom, gfit) = h.globals_fit in
    let (froom, ffit) = h.functions_fit in
    Reads-bind _
      (Reads-read_list (decode_global t k) encode_global (FitsGlobal t k)
        (decode_global-encode_global t k) m.globals groom gfit)
      (Reads-bind _ (Reads-read_string m.name h.name_fits) (
        Reads-last _ (
          Reads-map_list (decode_function t) encode_function reread (FitsFunction t)
            (Reads-decode_function t) m.functions froom ffit)))

new_context-Reached : (ctx : Context) → KeepsTypes new_context ctx → Reached ctx 0 new_context
unfolding new_context get_type intern_anon get insert TypeData-discrete ℕ_discrete
new_context-Reached ctx h = record {
  interned = new_context-IsInterned;
  keeps = h;
  reached = omega arith;
  singletons = (refl, refl, refl);
  no_constants = refl;
}

IsReread-context :
    (ctx c : Context)
    → Reached ctx (length ctx.types) c
    → IsRereadContext ctx (with_constants c ctx.constants)
unfolding get_type
IsReread-context ctx c r = record {
  same_types = agree c.types ctx.types r.keeps r.reached;
  same_constants = ap (λ xs. xs ++ ctx.constants) r.no_constants;
  interned_again =
      IsInterned-singletons c (with_constants c ctx.constants) refl refl refl r.interned;
}

-- A count and its records, which the reader takes apart.
Reads-counted :
    {A B : Type 0} (w : A → Bytes) (xs : List A) (f : ℕ → Parser B) (rest : Bytes) {b : B}
    → length xs < 2 ^ 32
    → Reads (f (length xs)) (write_all w xs ++ rest) b
    → Reads (read_u32 >>= f) (write_list w xs ++ rest) b
unfolding write_list
Reads-counted w xs f rest {b} short h =
    subst (λ bytes. Reads (read_u32 >>= f) bytes b)
      (sym (append_assoc (write_u32 (as_u32 (length xs))) (write_all w xs) rest))
      (rw (as_u32_lem (length xs) short) (Reads-bind f (Reads-read_u32 (length xs) short) h))

-- Reading the bytes that were written for a context and a module, whatever bytes follow, gives a
-- context with the same types and constants at the same indices and consistent tables of types, and
-- a module with the same name and globals, with tables of names that are right, and with functions
-- that agree, in order, with those written in the name, the type, the arguments, the blocks, the
-- linkage, the flags of a declaration and of strict floating point, and in the instructions but for
-- their fast-math flags, and whose table of value names leads to instructions that bear the names.
-- Nothing is said of debug locations, of metadata and of the counter of names. The conditions: the
-- tables of types are consistent and start with the types of a new context; there are fewer than
-- 2^32 types, constants, globals, functions and entries of each list in them; every number fits the
-- field that it is written to, and every text has fewer than 2^32 bytes; a type refers only to
-- types before it, a constant only to types of the table and constants before it, a global only to
-- types and constants of the tables, a function, its arguments and its instructions only to types
-- of the table; no struct and no instruction has an empty text for a name; and no terminator is
-- 0xFFFFFFFF.
pub read_bitcode-write_bitcode :
    (ctx : Context) (m : Module)
    → FitsContext ctx
    → FitsModule ctx m
    → (ctx' : Context) × (m' : Module) × Reads read_bitcode (write_bitcode ctx m) (ctx', m')
      × IsRereadContext ctx ctx'
      × IsRereadModule m m'
unfolding read_bitcode write_bitcode check_magic is_magic check_version get_type
read_bitcode-write_bitcode ctx m h hm =
    let (c, types, r) =
      Reads-read_types ctx h.interned h.type_room ctx.types 0 (length ctx.types) new_context
        (omega arith) (λ i td e. ap (get_type ctx) (omega arith) ∙ e) h.types_fit
        (new_context-Reached ctx h.starts) in
    let consts =
      Reads-read_consts (upto (length ctx.types)) ctx.constants 0 (length ctx.constants) c
        (omega arith) h.const_room (ap length r.no_constants) h.consts_fit in
    (
      with_constants c ctx.constants,
      read_back m,
      Reads-bind _ (Reads-read_bytes magic) (
          Reads-bind _ (Reads-pure tt) (
            Reads-bind _ (Reads-read_u32 1 (omega arith)) (
              Reads-bind _ (Reads-pure tt) (
                Reads-counted encode_type ctx.types _ _ h.type_room (
                  Reads-bind _ types (
                    Reads-counted encode_const ctx.constants _ _ h.const_room
                      (Reads-bind _ consts (Reads-last _ (Reads-read_module ctx m hm))))))))),
      IsReread-context ctx c r,
      read_back-IsRereadModule ctx m hm,
    )
