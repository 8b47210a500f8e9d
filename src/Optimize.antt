-- ===== src/Optimize.antt =====
-- freqpanda_optimize: the search over a strategy's parameters, and the ranking of variants.
pub mod SearchSpace
pub mod Scoring
pub mod Evaluate
pub mod Study
