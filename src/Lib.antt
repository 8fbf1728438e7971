-- ===== src/Lib.antt =====
-- LLVM-in-Rust: a model of the intermediate representation, its analyses and its passes.
--
-- The program. LLVM-in-Rust is a compiler infrastructure in the manner of LLVM. src/llvm-ir holds
-- the intermediate representation: a `Context` owns the types and the constants, a function owns a
-- pool of instructions, and blocks, instructions and operands are indices into these tables.
-- src/llvm-analysis reads a function and computes facts of it (use-def chains, the control-flow
-- graph), and src/llvm-transforms rewrites a function with the help of these facts.
-- src/llvm-bitcode stores a context and a module as bytes and reads them back, and
-- src/llvm-codegen lowers a module to machine code and its debug information. The model
-- follows this order: a module of a later layer uses the definitions of the earlier ones and the
-- lemmas that they give.
--
-- The files and the code they model.
--   Base            shared helpers: lists over the native numbers, Boolean tests, association
--                   lists, casts, powers of two, signed integers, UTF-8.
--   Ir/Ids          src/llvm-ir/src/context.rs: the index types and `ValueRef`.
--   Ir/Types        src/llvm-ir/src/types.rs: `TypeData`, `FloatKind`.
--   Ir/Ops          src/llvm-ir/src/instruction.rs: flags, predicates, orderings.
--   Ir/Instr        src/llvm-ir/src/instruction.rs: `InstrKind`, `is_terminator`, `successors`;
--                   Operands has `operands`, Opcode has `opcode`.
--   Ir/Value        src/llvm-ir/src/value.rs: arguments, globals, `ConstantData`, `ConstExprOp`.
--   Ir/Context      src/llvm-ir/src/context.rs: `Context`, its `new` and the type constructors.
--   Ir/Constants    src/llvm-ir/src/context.rs: the constant constructors and accessors.
--   Ir/Block        src/llvm-ir/src/basic_block.rs.
--   Ir/Function     src/llvm-ir/src/function.rs and `Instruction` of instruction.rs.
--   Analysis/UseDef src/llvm-analysis/src/use_def.rs.
--   Ir/Reachable    src/llvm-ir/src/context.rs: the contexts that its operations reach.
--   Ir/Module       src/llvm-ir/src/module.rs: the module and its tables of names; `View` is the
--                   partial map from names to functions that it stands for.
--   Bitcode         src/llvm-bitcode/src/writer.rs, reader.rs, error.rs: the LRIR format.
--     Stream        `Writer` and `Reader`: bytes, little-endian numbers, texts, lists.
--     Reads         when a reading function takes given bytes for a value.
--     Enums, Values, Types, Consts, Instrs, Functions   the records, each with its `Laws`.
--     Module        `write_bitcode` and `read_bitcode`; its `Types` and `Tables` follow the loops
--                   over the tables of the file.
--     Safety        what the reader does on bytes that nobody wrote with the writer.
--   Analysis/Cfg    src/llvm-analysis/src/cfg.rs: `compute` with its loop.
--   Transforms/ConstantFold  src/llvm-transforms/src/constant_fold.rs: `try_fold` on integers.
--   Codegen/DwarfVars  src/llvm-codegen/src/dwarf_vars.rs: LEB128 and the entry of a variable; its
--                   `Reader` is a reader of DWARF after the standard.
--   Transforms/Rewrite  src/llvm-transforms/src/value_rewrite.rs.
--   Transforms/Subst    `subst_kind` of src/llvm-transforms/src/const_prop.rs.
--   Transforms/Dce      src/llvm-transforms/src/dce.rs.
--   Examples        tests and applications at concrete inputs.
-- The children named Laws, Dead, Named, Fresh, Names, Kept, or for what they prove, hold the theorems.
--
-- How state and operations correspond. A struct is a record with the struct's fields, an enum is a
-- data type with its variants (in lower case), a `Vec` is a list and a `HashMap` is an association
-- list in which an insertion replaces the entry of its key. A method with `&mut self` takes the
-- record and returns the new one with its result. Where the source panics (an index out of range,
-- `unwrap`, an assertion) the definition is `none`, or `panicked` where the code has an Option of
-- its own, so a theorem that says `some` also says that the code does not panic.
--
-- Bounds. An index is the length of a table cast to u32, and the model keeps the cast
-- (`as_u32 n = n % 2 ^ 32`). Theorems on a table that grows ask for fewer than 2 ^ 32 entries,
-- which the source takes for granted. Widths of integers are kept by the remainder written out.
-- Folding reads a constant as a u64 and computes with the machine's wrapping, written out; its
-- theorems take operands of an integer type of at most 64 bits that are stored in the type's width
-- (`IntOperands`). Overflow checks and `debug_assert` are on, as in a development build.
-- The loop of `Cfg::compute` that marks blocks runs on fuel, one more than the number of edges:
-- each turn takes an entry off the stack, and what is pushed are the edges of blocks that were not
-- marked, each once.
-- The bitcode writer is a function from a value to the bytes that it appends, and the reader a
-- parser on what is left of the input, with the source's errors as values. UTF-8 of the standard
-- library is written out in `Base/Utf8`. The loops of the reader run over the counts of the file.
-- `panic` in a result is an index out of range, or the counter of names that is used up.
-- A LEB128 loop runs on fuel 10, since a turn takes seven of at most 64 bits off.
-- The counter of names in a function is a u32 too, and counting past its largest number panics, as
-- the checked arithmetic of a debug build does. That memory runs out is not modelled.
--
-- Not modelled: the texts (printer, parser), the import of LLVM bitcode, the other analyses and
-- passes, the rest of the code generator, the targets, the JIT and the tools. They stand on the layers
-- modelled here. Floating-point arithmetic is the hardware's and has no model. Iterators and
-- references handed out (`types()`, `block_mut`, `instr_mut`) are views of the fields.
pub mod Base
pub mod Ir
pub mod Analysis
pub mod Transforms
pub mod Bitcode
pub mod Codegen
pub mod Examples
