-- ===== src/Engine/Traits.antt =====
-- The traits that the engine is built from, as interfaces: crates/lsf-engine/src/corpus.rs,
-- schedule.rs and minimizer.rs, and the hooks of crates/lsf-feedback/src/hooks.rs. `A` is a
-- syntax tree, `R` the state of the random generator.
use ast_sqlite_test.Common.{ℕ, List, Option}
use ast_sqlite_test.Core.Entry.{EntryId, Meta, RawEntry, CorpusEntry}
use ast_sqlite_test.Cov.EdgeMap.{EdgesFound}
use ast_sqlite_test.Feedback.Outcome.{TestOutcome, TestableEntry, Handle}

pub record CorpusHandler (A Score : Type 0) : Type 1 where
  pub Corpus : Type 0
  pub get : EntryId → Corpus → Corpus × Option (CorpusEntry A)
  pub insert : CorpusEntry A → Score → Corpus → Corpus
  pub resize : Corpus → Corpus
  pub ids : Corpus → List EntryId
  pub clear : Corpus → Corpus
  pub size : Corpus → ℕ

pub record Schedule (A Score R C : Type 0) : Type 1 where
  pub Scheduler : Type 0
  pub next_batch : C → ℕ → R → Scheduler → List (TestableEntry (RawEntry A)) × C × R × Scheduler
  pub on_add : CorpusEntry A → Scheduler → Scheduler × Score
  pub chore : Scheduler → Scheduler
  pub reset : Scheduler → Scheduler

-- `none` is a panic.
pub record CorpusMinimizer (A C S : Type 0) : Type 1 where
  pub Minimizer : Type 0
  pub minimize : Minimizer → C → S → Minimizer × C × S
  pub on_add :
      Minimizer → TestableEntry (RawEntry A) → Meta → EdgesFound → Option (Minimizer × TestOutcome)
  pub reset : Minimizer → Minimizer

-- The arms and bodies that hooks and engine share.
pub record FeedbackHooks : Type 1 where
  pub Heap : Type 0
  pub on_exec : TestOutcome → Meta → Handle → Heap → Heap
  -- `tick_by(1)` of every body
  pub tick : Heap → Heap
