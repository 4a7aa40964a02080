-- ===== src/Engine.antt =====
-- crates/lsf-engine: the corpus, the schedulers, the minimizer and the engine over them.
pub mod Diversity
pub mod Minimizer
pub mod SumTable
pub mod Traits
pub mod Fuzz
pub mod Batcher
pub mod Probabilistic
pub mod Heap
pub mod Weighted
pub mod Fast
