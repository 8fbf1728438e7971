-- ===== src/Examples.antt =====
-- The theorems at concrete inputs, and tests by evaluation.
mod Ir
mod Dce
mod Cfg
mod ConstantFold
mod Context
mod Bitcode
mod Safety
mod Codegen
