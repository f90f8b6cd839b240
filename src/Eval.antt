-- ===== src/Eval.antt =====
-- py/hybridsearch/eval: the metrics that every run is scored with.
pub mod Metrics
