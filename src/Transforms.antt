-- ===== src/Transforms.antt =====
-- The passes: llvm-transforms/src.
pub mod Rewrite
pub mod Subst
pub mod ConstantFold
pub mod Dce
