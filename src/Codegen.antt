-- ===== src/Codegen.antt =====
-- The code generator: llvm-codegen/src.
pub mod DwarfVars
