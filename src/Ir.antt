-- ===== src/Ir.antt =====
-- The intermediate representation: llvm-ir/src.
pub mod Reachable
pub mod Ids
pub mod Types
pub mod Context
pub mod Constants
pub mod Ops
pub mod Instr
pub mod Value
pub mod Block
pub mod Function
pub mod Module
