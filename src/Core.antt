-- ===== src/Core.antt =====
-- crates/lsf-core: the entries that the fuzzer passes around.
pub mod Entry
