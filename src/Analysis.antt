-- ===== src/Analysis.antt =====
-- The analyses over one function: llvm-analysis/src.
pub mod UseDef
pub mod Cfg
