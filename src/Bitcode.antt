-- ===== src/Bitcode.antt =====
-- The binary format LRIR: llvm-bitcode/src/writer.rs and llvm-bitcode/src/reader.rs.
pub mod Stream
pub mod Reads
pub mod Enums
pub mod Values
pub mod Types
pub mod Instrs
pub mod Consts
pub mod Functions
pub mod Module
pub mod Safety
