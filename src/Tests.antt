-- ===== src/Tests.antt =====
-- Runs of the definitions on small inputs, and the theorems at inputs that meet their hypotheses.
mod Interleave
mod Eval
mod Fusion
mod Clicks
mod Rerank
mod Models
mod Data
mod Training
mod Mining
mod Dense
mod Lexical
