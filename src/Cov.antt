-- ===== src/Cov.antt =====
-- crates/lsf-cov: coverage maps, the best entry of each edge, and the tokens of the shared memory.
pub mod EdgeMap
pub mod ScoredEdges
pub mod Tokens
