-- ===== src/Clicks.antt =====
-- Clicks and experiments: py/hybridsearch/clicks, but for the interleaving itself.
pub mod Events
pub mod Models
pub mod Statistics
pub mod Experiments
pub mod Report
