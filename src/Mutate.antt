-- ===== src/Mutate.antt =====
-- crates/lsf-mutate: the strategies that change a statement list.
pub mod Strategy
pub mod Combinators
pub mod Queue
pub mod Visit
pub mod Syntax
pub mod Splice
pub mod Json
pub mod Values
pub mod SubQuery
pub mod Structure
pub mod Trees
pub mod Mab
pub mod Catalogue
