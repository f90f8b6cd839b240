-- ===== src/Lexical.antt =====
-- Lexical retrieval: py/hybridsearch/lexical.
pub mod Terms
pub mod Parity
