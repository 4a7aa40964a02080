-- ===== src/Corpus.antt =====
-- crates/lsf-engine/src/corpus.rs and dynamic_corpus.rs: where the entries of the corpus are kept.
pub mod Containers
pub mod Storage
pub mod Dynamic
pub mod Memory
pub mod Refinement
pub mod Blob
pub mod Sharded
