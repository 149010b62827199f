-- ===== src/Analysis.antt =====
-- sentinel_hft/analysis: the search for a small trace that still shows a regression.
pub mod Minimizer
mod Tests
