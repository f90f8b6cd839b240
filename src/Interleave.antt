-- ===== src/Interleave.antt =====
-- py/hybridsearch/clicks/interleave.py: the interleaving of two rankings and its credit rules.
pub mod TeamDraft
pub mod Balanced
