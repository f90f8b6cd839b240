-- ===== src/Dense.antt =====
-- Dense vectors: py/hybridsearch/dense.
pub mod Encoder
pub mod Lock
pub mod Passages
