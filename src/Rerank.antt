-- ===== src/Rerank.antt =====
-- The cross-encoder's training data: py/hybridsearch/rerank.
pub mod Sampler
pub mod Lock
pub mod Texts
pub mod Train
pub mod Rows
pub mod Mine
pub mod Cascade
pub mod Rerun
