-- ===== src/Lib.antt =====
-- ast-sqlite-fuzzer: the engine that mutates SQL statements, measures the edges that a run covers,
-- and keeps the statements that are worth mutating again. Paths are from the repository's root.
--
-- Parts, and the files that model them:
--   * Core.Entry: ids, raw entries and corpus entries (crates/lsf-core/src/entry.rs).
--   * Cov.EdgeMap, Cov.ScoredEdges: the map of edges seen so far and the best entry of each edge
--     (crates/lsf-cov/src/bitmap.rs).
--   * Cov.Tokens: the tokens that engine and workers pass round (crates/lsf-cov/src/ipc.rs).
--   * Hooks: the callbacks of the instrumented program (crates/lsf-hooks/src/lib.rs).
--   * Feedback.Outcome, Feedback.Arm: outcomes of a run, and the bandit arms that are told of them,
--     over the interface Feedback.Floats (crates/lsf-feedback/src/lib.rs, mab.rs).
--   * Corpus.Dynamic: where the entries' trees are kept, with Corpus.Storage for the trait of
--     backends, Corpus.Memory for the map in memory, Corpus.Blob for the file of trees,
--     Corpus.Sharded for the cache of one file for each tree and for the saver, Corpus.Containers
--     for the maps and queues of other crates, and Corpus.Refinement for the trait of corpora
--     (crates/lsf-engine/src/dynamic_corpus.rs, corpus.rs).
--   * Engine.Diversity, Engine.Minimizer: which results are kept and which entries are culled
--     (crates/lsf-engine/src/minimizer.rs).
--   * Engine.SumTable, Engine.Probabilistic, Engine.Fast: weighted sampling, the scheduler over it, and
--     the one that accepts entries by chance (crates/lsf-engine/src/probabilisitic_mab.rs).
--   * Engine.Batcher, Engine.Weighted: entries handed out several times, and entries drawn by weights
--     (crates/lsf-engine/src/schedule.rs). Engine.Heap: entries by their scores, with the queue of
--     Mutate.Queue (crates/lsf-engine/src/mab_scheduler.rs).
--   * Engine.Fuzz: the engine, over the interfaces of Engine.Traits (crates/lsf-engine/src/engine.rs).
--   * Mutate.Strategy: the trait of strategies, what they report, and the random generator, the arms
--     and floating point as the interface Host (crates/lsf-mutate/src/lib.rs). Mutate.Combinators:
--     sampling, repeating and weighing strategies (sample.rs, schedule.rs). Mutate.Visit and
--     Mutate.Syntax: the visitors of the parser's crate, and what is seen of its nodes.
--     Mutate.Values: changes at single expressions (values.rs). Mutate.Splice: runs of statements
--     and combined queries, Mutate.SubQuery: subqueries (splice.rs, reduce.rs). Mutate.Structure:
--     shuffled expressions and names (structure.rs, ident.rs). Mutate.Json, Mutate.Trees: nodes
--     rewritten through JSON (recurse.rs, reduce.rs, json_tree.rs, random_mutate.rs). Mutate.Queue,
--     Mutate.Mab: the scheduler of strategies by their scores (schedule.rs, and the items of
--     crates/lsf-feedback/src/mab.rs). Mutate.Catalogue: all strategies together.
--   * Tests: concrete runs, and instances of the interfaces.
--
-- A method that takes `&mut self` is a function from a state to the next one and its result; a
-- panic is `none`. The minimizer works on the edges that the coverage map reports, asks the corpus
-- for its ids and tells corpus and scheduler what to remove; the corpus keeps a tree for each id
-- and moves it between the entries in flight, the hot cache and the backend.
--
-- Numbers: `u8` and `u32` counters wrap where the code's do, `i32` weights are biased by 2 ^ 31 and
-- saturate, `usize` and `u64` sums are not bounded. Floating point scores are a type with an order,
-- or the operations of Feedback.Floats and of Host; the sums of the sampling table are made by those
-- operations in the order of the code, and no law of them is supposed.
--
-- Fuel: `ilog10` has ten rounds, one for each digit that a `u32` can have; `ceil_sqrt` has as many
-- rounds as the number it is given, and finds a root before; the loops that take items of a queue,
-- in Mutate.Queue and Engine.Heap, have twice as many rounds as there are items and one more, since
-- each is renewed at most once. The loops of `next_batch` in Engine.Probabilistic and Engine.Fast
-- have any number of rounds, since they may go on for as long as what they draw is stale or is not
-- accepted. The loop that draws the length of a run of statements goes on for as long as the
-- generator hits; it has any number of rounds too, and is cut short where they are used up.
--
-- Not modelled: SQL parsing and printing, file systems, shared memory and threads, which are
-- parameters; and the Python bindings and measuring programs, which only build and call the parts
-- above.
pub mod Common
pub mod Core
pub mod Cov
pub mod Feedback
pub mod Corpus
pub mod Engine
pub mod Hooks
pub mod Mutate
pub mod Tests
