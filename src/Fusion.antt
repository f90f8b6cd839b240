-- ===== src/Fusion.antt =====
-- Rank fusion: py/hybridsearch/fusion.
pub mod Core
pub mod Fast
pub mod Printed
pub mod Runs
